-- ===== src/Bridge/Ipc/Tests.antt =====
-- Two frames cut across chunks: each theorem at concrete bytes, and runs of the reader.
use agent_console.Base.{
  Bool, List, Option, [], none, refl, some, ℕ, ◌≡◌, ◌∷◌, arith, eqb, false, length, if◌then◌else◌,
  true,
}
use agent_console.Bridge.Ipc.Decoder.{
  Json, new, check_limit, encode_frame, next_frame, parse, push, too_large,
}
use agent_console.Bridge.Ipc.Reader.{Stop, drain, reader_loop, peer_closed, malformed}
use agent_console.Bridge.Ipc.Stream.{Faithful, encode_all, reader_loop-encode_all}
use agent_console.Bridge.Ipc.Draining.{concat, dispatch_all}
use agent_console.Bridge.Ipc.Bounds.{IsSettled, drain-IsSettled, reader_loop-total}

-- A text is its bytes, and an object starts with a brace.
abbrev braces : List ℕ → Bool
braces [] = false
braces (b ∷ bs) = eqb b 123

abbrev bytes_json : Json
bytes_json = record {
  Text = List ℕ;
  Value = List ℕ;
  from_utf8 = λ bs. some bs;
  as_bytes = λ t. t;
  from_str = λ t. some t;
  to_string = λ v. some v;
  is_object = braces;
}

abbrev small_object : List ℕ
small_object = 123 ∷ 125 ∷ []

abbrev other_object : List ℕ
other_object = 123 ∷ 49 ∷ 125 ∷ []

-- `dispatch` keeps the values, and fails on the third.
abbrev collect : List ℕ → List (List ℕ) → Option ℕ × List (List ℕ)
collect v seen = if eqb (length seen) 2 then (some 7, seen) else (none, v ∷ seen)

abbrev chunks : List (List ℕ)
chunks = (2 ∷ 0 ∷ []) ∷ (0 ∷ 0 ∷ 123 ∷ []) ∷ (125 ∷ 3 ∷ 0 ∷ 0 ∷ 0 ∷ 123 ∷ 49 ∷ 125 ∷ []) ∷ []

faithful : (v : List ℕ) → braces v ≡ true → Faithful bytes_json v
faithful v h = record { object = h; utf8 = λ text q. refl; reads_back = λ text q. cc }

reader_loop-encode_all_example :
    reader_loop bytes_json collect chunks (new 64) []
    ≡ some (dispatch_all collect (small_object ∷ other_object ∷ []) [])
unfolding concat encode_all encode_frame
reader_loop-encode_all_example =
    reader_loop-encode_all bytes_json 64 (omega arith) collect [] (small_object ∷ other_object ∷ [])
      (concat chunks) chunks (faithful small_object refl, (faithful other_object refl, tt)) refl
      refl

drain-IsSettled_example : IsSettled 64 (
    drain bytes_json collect 10
      (record {
        max_frame_bytes = 64;
        buf = 2 ∷ 0 ∷ 0 ∷ 0 ∷ 123 ∷ 125 ∷ 9 ∷ [];
        current_len = none;
      })
      [])
drain-IsSettled_example =
    drain-IsSettled bytes_json 64 collect 10
      (record {
        max_frame_bytes = 64;
        buf = 2 ∷ 0 ∷ 0 ∷ 0 ∷ 123 ∷ 125 ∷ 9 ∷ [];
        current_len = none;
      })
      [] (record { same_limit = refl; within = tt }) (omega arith)

reader_loop-total_example :
    (end : Stop ℕ × List (List ℕ)) × (reader_loop bytes_json collect chunks (new 64) [] ≡ some end)
reader_loop-total_example = reader_loop-total bytes_json 64 collect chunks []

two_frames_arrive :
    reader_loop bytes_json collect chunks (new 64) []
    ≡ some (peer_closed, other_object ∷ small_object ∷ [])
unfolding reader_loop drain next_frame push check_limit parse new
two_frames_arrive = refl

over_limit_is_refused :
    reader_loop bytes_json collect ((65 ∷ 0 ∷ 0 ∷ 0 ∷ []) ∷ []) (new 64) []
    ≡ some (malformed (too_large 65 64), [])
unfolding reader_loop drain next_frame push check_limit parse new
over_limit_is_refused = refl
