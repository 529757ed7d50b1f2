-- ===== src/Bridge/Ipc/Frames.antt =====
-- One call of `next_frame` (frame.rs) on a decoder that holds the front of a stream of frames.
use agent_console.Base.{
  Bool-cases, List, Option, [], drop, inl, inr, ◌≢◌, length, length-append, ltb, none, refl, some,
  take, ℕ, ◌++◌, ◌<◌, ◌≡◌, ◌≤◌, ◌∷◌, ◌⊎◌, arith, ◌%◌, ◌/◌, ◌∙◌, ap,
}
use agent_console.Bridge.Ipc.Decoder.{
  FrameDecoder, Json, ok, from_le_bytes, next_frame, parse, split_prefix, to_le_bytes, u32_mod,
  check_limit, read_prefix,
}

pub from_le_bytes-to_le_bytes :
    (n : ℕ) (rest : List ℕ) → n < u32_mod → split_prefix (to_le_bytes n ++ rest) ≡ some (n, rest)
from_le_bytes-to_le_bytes n rest h =
    let back : from_le_bytes (n % 256) (n / 256 % 256) (n / 65536 % 256) (n / 16777216 % 256) ≡ n =
      omega arith in
    ap (λ k. some (k, rest)) back

pub check_limit-none : (limit n : ℕ) → 0 < n → n ≤ limit → check_limit limit n ≡ none
unfolding check_limit
check_limit-none limit n h g = ground arith

module _ {ℓ} {A : Type ℓ} where
  -- Two ways to cut one list.
  pub take-front :
      (p buf rest tail : List A)
      → buf ++ rest ≡ p ++ tail
      → length p ≤ length buf
      → (take (length p) buf ≡ p) × (drop (length p) buf ++ rest ≡ tail)
  take-front [] buf rest tail h le = (refl, h)
  take-front (x ∷ p) [] rest tail h le = ground arith
  take-front (x ∷ p) (y ∷ buf) rest tail h le =
      let le' : length p ≤ length buf = omega arith in
      let (front, back) = take-front p buf rest tail (cc) le' in (cc, back)

  pub length-short :
      (p buf rest tail : List A) → buf ++ rest ≡ p ++ tail → length buf < length p → rest ≢ []
  length-short p buf rest tail h lt nil =
      let total : length (buf ++ rest) ≡ length (p ++ tail) = ap length h in
      let gone : length rest ≡ 0 = ap length nil in
      omega (arith, length-append buf rest, length-append p tail)

-- The prefix is in the buffer, or its four bytes are not there yet.
pub split_prefix-front :
    (a b c d : ℕ) (buf rest tail : List ℕ)
    → buf ++ rest ≡ a ∷ b ∷ c ∷ d ∷ tail
    → ((split_prefix buf ≡ none) × (length buf < 4))
      ⊎ ((buf' : List ℕ) × (buf ≡ a ∷ b ∷ c ∷ d ∷ buf') × (buf' ++ rest ≡ tail))
split_prefix-front a b c d [] rest tail h = inl (refl, omega arith)
split_prefix-front a b c d (x ∷ []) rest tail h = inl (refl, omega arith)
split_prefix-front a b c d (x ∷ y ∷ []) rest tail h = inl (refl, omega arith)
split_prefix-front a b c d (x ∷ y ∷ z ∷ []) rest tail h = inl (refl, omega arith)
split_prefix-front a b c d (x ∷ y ∷ z ∷ w ∷ buf) rest tail h = inr (buf, cc, cc)

-- A payload that the decoder accepts, with the value it holds.
pub record Frame (json : Json) (limit : ℕ) : Type 0 where
  pub payload : List ℕ
  pub value : json.Value
  pub nonempty : 0 < length payload
  pub within : length payload ≤ limit
  pub reads : parse json payload ≡ ok value

abbrev pub decoder : ℕ → Option ℕ → List ℕ → FrameDecoder
decoder limit len buf = record { max_frame_bytes = limit; buf = buf; current_len = len }

module _ {json : Json} {limit : ℕ} where
  abbrev pub wire : List (Frame json limit) → List ℕ
  wire [] = []
  wire (f ∷ fs) = to_le_bytes (length f.payload) ++ f.payload ++ wire fs

module _ {json : Json} {limit : ℕ} (small : limit < u32_mod) where
  -- The bytes in the decoder and the `rest` that is still to come are these frames.
  pub data Awaits (rest : List ℕ) : FrameDecoder → List (Frame json limit) → Type 0 where
    between :
        (buf : List ℕ) (fs : List (Frame json limit))
        → buf ++ rest ≡ wire fs
        → Awaits rest (decoder limit none buf) fs
    inside :
        (buf : List ℕ) (f : Frame json limit) (fs : List (Frame json limit))
        → buf ++ rest ≡ f.payload ++ wire fs
        → Awaits rest (decoder limit (some (length f.payload)) buf) (f ∷ fs)

  pub data Progress (rest : List ℕ) (d : FrameDecoder) (fs : List (Frame json limit)) : Type 0 where
    waits :
        (d' : FrameDecoder)
        → next_frame json d ≡ (ok none, d')
        → Awaits rest d' fs
        → (rest ≡ [] → fs ≡ [])
        → Progress rest d fs
    yields :
        (f : Frame json limit) (fs' : List (Frame json limit)) (d' : FrameDecoder)
        → fs ≡ f ∷ fs'
        → next_frame json d ≡ (ok (some f.value), d')
        → Awaits rest d' fs'
        → length d'.buf < length d.buf
        → Progress rest d fs

  payload-step :
      (rest buf : List ℕ) (f : Frame json limit) (fs : List (Frame json limit))
      → buf ++ rest ≡ f.payload ++ wire fs
      → Progress rest (decoder limit (some (length f.payload)) buf) (f ∷ fs)
  unfolding next_frame
  payload-step rest buf f fs h = elim (Bool-cases (ltb (length buf) (length f.payload))) [
    | inl short ↦
        waits (decoder limit (some (length f.payload)) buf) (rw short) (inside buf f fs h)
          (λ nil. elim (length-short f.payload buf rest (wire fs) h (ground arith) nil) [ ])
    | inr enough ↦
        let (front, back) = take-front f.payload buf rest (wire fs) h (ground arith) in
        let total : length (buf ++ rest) ≡ length (f.payload ++ wire fs) = ap length h in
        let after : length (drop (length f.payload) buf ++ rest) ≡ length (wire fs) =
          ap length back in
        yields f fs (decoder limit none (drop (length f.payload) buf)) refl
          (rw (enough, front, f.reads)) (between _ fs back)
          (omega (
            arith,
            f.nonempty,
            length-append buf rest,
            length-append f.payload (wire fs),
            length-append (drop (length f.payload) buf) rest,
          ))
  ]

  -- Past the prefix, the decoder goes on as it does inside the frame.
  next_frame-prefix :
      (buf buf' : List ℕ) (f : Frame json limit)
      → buf ≡ to_le_bytes (length f.payload) ++ buf'
      → next_frame json (decoder limit none buf)
        ≡ next_frame json (decoder limit (some (length f.payload)) buf')
  unfolding next_frame
  next_frame-prefix buf buf' f e =
      let read =
        ap split_prefix e
        ∙ from_le_bytes-to_le_bytes (length f.payload) buf' (omega (arith, f.within)) in
      rw (read, read_prefix, check_limit-none limit (length f.payload) f.nonempty f.within)

  prefix-step :
      (rest buf : List ℕ) (fs : List (Frame json limit))
      → buf ++ rest ≡ wire fs
      → Progress rest (decoder limit none buf) fs
  unfolding next_frame
  prefix-step rest [] [] h = waits (decoder limit none []) refl (between [] [] h) (λ nil. refl)
  prefix-step rest (x ∷ buf) [] h = cc
  prefix-step rest buf (f ∷ fs) h =
      elim (split_prefix-front _ _ _ _ buf rest (f.payload ++ wire fs) h) [
        | inl (short, few) ↦
            waits (decoder limit none buf) (rw short) (between buf (f ∷ fs) h) (λ nil.
              elim (length-short (to_le_bytes (length f.payload)) buf rest (f.payload ++ wire fs) h
                few nil) [ ])
        | inr (buf', e, back) ↦
            let same = next_frame-prefix buf buf' f e in
            elim (payload-step rest buf' f fs back) [
              | waits d' q a nil ↦ waits d' (same ∙ q) a nil
              | yields f' fs' d' e' q a less ↦ yields f' fs' d' e' (same ∙ q) a (
                  let longer : length buf ≡ length (to_le_bytes (length f.payload) ++ buf') =
                    ap length e in
                  omega (arith, less))
            ]
      ]

  pub next_frame-Progress :
      (rest : List ℕ) (d : FrameDecoder) (fs : List (Frame json limit))
      → Awaits rest d fs
      → Progress rest d fs
  next_frame-Progress rest _ _ (between buf fs h) = prefix-step rest buf fs h
  next_frame-Progress rest _ _ (inside buf f fs h) = payload-step rest buf f fs h
