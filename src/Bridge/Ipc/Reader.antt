-- ===== src/Bridge/Ipc/Reader.antt =====
-- `reader_loop` of client.rs: each chunk read from the socket is pushed into the decoder, and then the
-- complete frames are taken off and dispatched. `dispatch` is a parameter: any function of the value
-- and of the client's state that can fail. The list of chunks ends where `read` returns `Ok(0)`; a read that
-- fails ends the loop in the source too and is left out. The inner loop runs on fuel, one more than the bytes in the buffer.
use agent_console.Base.{List, Option, [], length, none, some, ℕ, zero, suc, ◌∷◌}
use agent_console.Bridge.Ipc.Decoder.{FrameDecoder, FrameError, Json, ok, err, next_frame, push}

-- Why the loop ended.
pub data Stop (E : Type 0) : Type 0 where
  peer_closed : Stop E
  malformed : FrameError → Stop E
  dispatch_failed : E → Stop E

pub data Drained (S E : Type 0) : Type 0 where
  waiting : FrameDecoder → S → Drained S E
  stopped : Stop E → S → Drained S E
  out_of_fuel : Drained S E

module _ (json : Json) {S E : Type 0} (dispatch : json.Value → S → Option E × S) where
  -- The inner loop over the complete frames.
  unfoldable pub drain : ℕ → FrameDecoder → S → Drained S E
  drain zero d s = out_of_fuel
  drain (suc fuel) d s =
      let (frame, d') = next_frame json d in
      elim frame [
        | err e ↦ stopped (malformed e) s
        | ok none ↦ waiting d' s
        | ok (some value) ↦
            let (failed, s') = dispatch value s in
            elim failed [ some e ↦ stopped (dispatch_failed e) s' | none ↦ drain fuel d' s' ]
      ]

  unfoldable pub reader_loop : List (List ℕ) → FrameDecoder → S → Option (Stop E × S)
  reader_loop [] d s = some (peer_closed, s)
  reader_loop (chunk ∷ chunks) d s =
      let (refused, d') = push chunk d in
      elim refused [
        | some e ↦ some (malformed e, s)
        | none ↦ elim (drain (suc (length d'.buf)) d' s) [
          | waiting d'' s' ↦ reader_loop chunks d'' s'
          | stopped reason s' ↦ some (reason, s')
          | out_of_fuel ↦ none
        ]
      ]
