-- ===== src/Bridge/Ipc/Decoder.antt =====
-- `FrameDecoder` and `encode_frame`. A byte is a number below 256. UTF-8 and JSON are those of the
-- standard library and of serde_json: the record `Json` of parameters. The assertion in `new` that the
-- limit is at least eight is left out: any limit is allowed here.
use agent_console.Base.{
  ◌>>=◌, Bool, List, Option, [], drop, eqb, if◌then◌else◌, length, ltb, nat_eq, none, some,
  string_eq, take, ℕ, ◌%◌, ◌*◌, ◌++◌, ◌+◌, ◌/◌, ◌^◌, ◌||◌, ◌∷◌,
}

pub record Json : Type 1 where
  pub Text : Type 0
  pub Value : Type 0
  pub from_utf8 : List ℕ → Option Text
  pub as_bytes : Text → List ℕ
  pub from_str : Text → Option Value
  pub to_string : Value → Option Text
  pub is_object : Value → Bool

pub data FrameError : Type 0 where
  too_large : ℕ → ℕ → FrameError
  zero_length invalid_utf8 not_an_object : FrameError

pub data Result {ℓ} (A : Type ℓ) : Type ℓ where
  ok : A → Result A
  err : FrameError → Result A

pub record FrameDecoder : Type 0 where
  pub max_frame_bytes : ℕ
  pub buf : List ℕ
  pub current_len : Option ℕ

unfoldable pub new : ℕ → FrameDecoder
new max_frame_bytes = record { max_frame_bytes = max_frame_bytes; buf = []; current_len = none }

-- `u32::from_le_bytes`
abbrev pub from_le_bytes : ℕ → ℕ → ℕ → ℕ → ℕ
from_le_bytes a b c d = a + 256 * b + 65536 * c + 16777216 * d

-- The length prefix and the bytes behind it, if the four bytes are there.
abbrev pub split_prefix : List ℕ → Option (ℕ × List ℕ)
split_prefix (a ∷ b ∷ c ∷ d ∷ rest) = some (from_le_bytes a b c d, rest)
split_prefix _ = none

unfoldable pub check_limit : ℕ → ℕ → Option FrameError
check_limit limit announced =
    if eqb announced 0
    then some zero_length
    else if ltb limit announced
    then some (too_large announced limit)
    else none

-- What `push` checks: the announced length, or the prefix that is now in the buffer.
abbrev pub announced : Option ℕ → List ℕ → Option ℕ
announced (some len) buf = some len
announced none buf = split_prefix buf >>= λ p. some p.0

unfoldable pub push : List ℕ → FrameDecoder → Option FrameError × FrameDecoder
unfolding check_limit
push chunk d =
    let d' = record d { buf = d.buf ++ chunk } in
    ((announced d'.current_len d'.buf >>= check_limit d'.max_frame_bytes), d')

module _ (json : Json) where
  open json use {Value, from_utf8, from_str, is_object}

  abbrev pub as_object : Value → Result Value
  as_object value = if is_object value then ok value else err not_an_object

  -- The text of a payload, and its value, which must be an object.
  unfoldable pub parse : List ℕ → Result Value
  parse payload = elim (from_utf8 payload) [
    | none ↦ err invalid_utf8
    | some text ↦ elim (from_str text) [ none ↦ err not_an_object | some value ↦ as_object value ]
  ]

  abbrev pub parsed : Result Value → Result (Option Value)
  parsed (ok value) = ok (some value)
  parsed (err e) = err e

  -- With the length known: wait for the payload, or take it off the buffer.
  abbrev pub take_payload : ℕ → FrameDecoder → Result (Option Value) × FrameDecoder
  take_payload len d =
      if ltb (length d.buf) len
      then (ok none, d)
      else (parsed (parse (take len d.buf)), record d { buf = drop len d.buf; current_len = none })

  abbrev pub read_prefix : Option (ℕ × List ℕ) → FrameDecoder → Result (Option Value) × FrameDecoder
  read_prefix none d = (ok none, d)
  read_prefix (some (len, rest)) d = elim (check_limit d.max_frame_bytes len) [
    | some e ↦ (err e, d)
    | none ↦ take_payload len (record d { buf = rest; current_len = some len })
  ]

  abbrev pub next_at : Option ℕ → FrameDecoder → Result (Option Value) × FrameDecoder
  next_at (some len) d = take_payload len d
  next_at none d = read_prefix (split_prefix d.buf) d

  unfoldable pub next_frame : FrameDecoder → Result (Option Value) × FrameDecoder
  unfolding check_limit parse
  next_frame d = next_at d.current_len d

-- The four bytes of `put_u32_le`.
abbrev pub to_le_bytes : ℕ → List ℕ
to_le_bytes n = n % 256 ∷ n / 256 % 256 ∷ n / 65536 % 256 ∷ n / 16777216 % 256 ∷ []

abbrev pub u32_mod : ℕ
u32_mod = 2 ^ 32

pub data EncodeError : Type 0 where
  encode_too_large : ℕ → ℕ → EncodeError
  serialize : EncodeError

pub data Encoded : Type 0 where
  encoded : List ℕ → Encoded
  refused : EncodeError → Encoded

-- `payload.len() as u32` keeps the low 32 bits.
abbrev pub encode_payload : ℕ → List ℕ → Encoded
encode_payload limit payload =
    if eqb (length payload) 0 || ltb limit (length payload)
    then refused (encode_too_large (length payload % u32_mod) limit)
    else encoded (to_le_bytes (length payload % u32_mod) ++ payload)

module _ (json : Json) where
  open json use {Value, as_bytes, to_string}

  unfoldable pub encode_frame : Value → ℕ → Encoded
  encode_frame value limit = elim (to_string value) [
    | none ↦ refused serialize
    | some text ↦ encode_payload limit (as_bytes text)
  ]
