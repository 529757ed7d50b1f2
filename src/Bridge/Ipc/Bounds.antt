-- ===== src/Bridge/Ipc/Bounds.antt =====
-- The decoder of frame.rs and the reader of client.rs on arbitrary bytes.
use agent_console.Base.{
  List, Option, Option-cases, [], drop, if_cases, length, none, refl, some, ℕ, suc, zero, ◌<◌, ◌≡◌,
  ◌+◌, take, ◌≤◌, ◌∷◌, arith, ap, ltb, inl, inr, ◌⊎◌, sym,
}
use agent_console.Bridge.Ipc.Decoder.{
  FrameDecoder, FrameError, Json, Result, ok, err, next_frame, next_at, push, check_limit,
  take_payload, split_prefix, parse, parsed, read_prefix, new,
}
use agent_console.Bridge.Ipc.Reader.{
  Drained, Stop, drain, reader_loop, stopped, waiting, out_of_fuel, malformed,
}

-- The frame that is announced is within the limit and not empty.
abbrev pub IsWithin : ℕ → Option ℕ → Type 0
IsWithin limit none = Unit
IsWithin limit (some len) = (0 < len) × (len ≤ limit)

pub record IsBounded (limit : ℕ) (d : FrameDecoder) : Type 0 where
  pub same_limit : d.max_frame_bytes ≡ limit
  pub within : IsWithin limit d.current_len

-- What is left when no frame is complete: less than a prefix, or than one frame.
abbrev pub IsPartial : ℕ → FrameDecoder → Type 0
IsPartial limit d = (length d.buf < 4) ⊎ (length d.buf < limit)

pub check_limit-within : (limit n : ℕ) → check_limit limit n ≡ none → (0 < n) × (n ≤ limit)
unfolding check_limit
check_limit-within limit n h = ground arith

length-drop : (n : ℕ) (xs : List ℕ) → n ≤ length xs → length (drop n xs) + n ≡ length xs
length-drop zero xs h = omega arith
length-drop (suc n) [] h = omega arith
length-drop (suc n) (x ∷ xs) h = omega (arith, length-drop n xs (omega arith))

module _ (json : Json) (limit : ℕ) where
  -- What a call returns on a decoder that holds `size` bytes.
  pub data Next (size : ℕ) (result : Result (Option json.Value) × FrameDecoder) : Type 0 where
    fails : (e : FrameError) (d' : FrameDecoder) → result ≡ (err e, d') → Next size result
    partial :
        (d' : FrameDecoder)
        → result ≡ (ok none, d')
        → IsBounded limit d'
        → IsPartial limit d'
        → Next size result
    frame :
        (v : json.Value) (d' : FrameDecoder)
        → result ≡ (ok (some v), d')
        → IsBounded limit d'
        → length d'.buf < size
        → Next size result

  take_payload-Next :
      (size len : ℕ) (d : FrameDecoder)
      → IsBounded limit d
      → (0 < len) × (len ≤ limit)
      → d.current_len ≡ some len
      → length d.buf ≤ size
      → Next size (take_payload json len d)
  take_payload-Next size len d b w e le =
      if_cases (Next size) (ltb (length d.buf) len) (ok none, d)
        (
          parsed json (parse json (take len d.buf)),
          record d { buf = drop len d.buf; current_len = none },
        )
        (λ short. partial d refl b (inr (ground arith)))
        (λ enough.
          go (parse json (take len d.buf)) refl
            (omega (arith, length-drop len d.buf (ground arith))))
    where
      go :
          (r : Result json.Value)
          → parse json (take len d.buf) ≡ r
          → length (drop len d.buf) < size
          → Next size (parsed json r, record d { buf = drop len d.buf; current_len = none })
      go (ok v) q less =
          frame v (record d { buf = drop len d.buf; current_len = none }) refl
            (record { same_limit = b.same_limit; within = tt }) less
      go (err e) q less = fails e (record d { buf = drop len d.buf; current_len = none }) refl

  split_prefix-cases :
      (buf : List ℕ)
      → ((split_prefix buf ≡ none) × (length buf < 4))
        ⊎ ((len : ℕ) × (rest : List ℕ) × (split_prefix buf ≡ some (len, rest))
            × (length rest < length buf))
  split_prefix-cases [] = inl (refl, omega arith)
  split_prefix-cases (a ∷ []) = inl (refl, omega arith)
  split_prefix-cases (a ∷ b ∷ []) = inl (refl, omega arith)
  split_prefix-cases (a ∷ b ∷ c ∷ []) = inl (refl, omega arith)
  split_prefix-cases (a ∷ b ∷ c ∷ d ∷ rest) = inr (_, rest, refl, omega arith)

  read_prefix-Next :
      (d : FrameDecoder)
      → IsBounded limit d
      → d.current_len ≡ none
      → Next (length d.buf) (read_prefix json (split_prefix d.buf) d)
  read_prefix-Next d b e = elim (split_prefix-cases d.buf) [
    | inl (q, few) ↦ partial d (rw q) b (inl few)
    | inr (len, rest, q, shorter) ↦ elim (Option-cases (check_limit d.max_frame_bytes len)) [
      | inr (bad, q') ↦ fails bad d (rw (q, read_prefix, q'))
      | inl fine ↦
          let w : (0 < len) × (len ≤ limit) =
            rw (sym b.same_limit) (check_limit-within d.max_frame_bytes len fine) in
          let d' : FrameDecoder = record d { buf = rest; current_len = some len } in
          rw (q, read_prefix, fine)
            (take_payload-Next (length d.buf) len d'
              (record { same_limit = b.same_limit; within = w }) w refl (omega arith))
    ]
  ]

  pub next_frame-Next :
      (d : FrameDecoder) → IsBounded limit d → Next (length d.buf) (next_frame json d)
  unfolding next_frame
  next_frame-Next d b = go d.current_len refl b.within
    where
      go :
          (o : Option ℕ)
          → d.current_len ≡ o
          → IsWithin limit o
          → Next (length d.buf) (next_at json o d)
      go none e w = read_prefix-Next d b e
      go (some len) e w = take_payload-Next (length d.buf) len d b w e (omega arith)

-- The decoder that a drained reader keeps.
abbrev pub IsSettled : {S E : Type 0} → ℕ → Drained S E → Type 0
IsSettled limit (waiting d s) = IsBounded limit d × IsPartial limit d
IsSettled limit (stopped reason s) = Unit
IsSettled limit out_of_fuel = ⊥

module _ (json : Json) (limit : ℕ) {S E : Type 0} (dispatch : json.Value → S → Option E × S) where
  -- The inner loop ends within its fuel, and keeps less than a prefix or than one frame.
  pub drain-IsSettled :
      (fuel : ℕ) (d : FrameDecoder) (s : S)
      → IsBounded limit d
      → length d.buf < fuel
      → IsSettled limit (drain json dispatch fuel d s)
  unfolding drain
  drain-IsSettled zero d s b lt = omega arith
  drain-IsSettled (suc fuel) d s b lt = elim (next_frame-Next json limit d b) [
    | fails e d' q ↦ rw (drain, q) tt
    | partial d' q b' p ↦ rw (drain, q, ap (λ p. p.1) q) (b', p)
    | frame v d' q b' less ↦ elim (Option-cases (dispatch v s).0) [
      | inr (e, bad) ↦ rw (drain, q, bad) tt
      | inl fine ↦
          rw (drain, q, fine, ap (λ p. p.1) q)
            (drain-IsSettled fuel d' (dispatch v s).1 b' (omega arith))
    ]
  ]

  push-IsBounded :
      (chunk : List ℕ) (d : FrameDecoder) → IsBounded limit d → IsBounded limit (push chunk d).1
  unfolding push
  push-IsBounded chunk d b = record { same_limit = b.same_limit; within = b.within }

  reader_loop-ends :
      (chunks : List (List ℕ)) (d : FrameDecoder) (s : S)
      → IsBounded limit d
      → (end : Stop E × S) × (reader_loop json dispatch chunks d s ≡ some end)
  unfolding reader_loop
  reader_loop-ends [] d s b = (_, refl)
  reader_loop-ends (chunk ∷ chunks) d s b =
      go (push chunk d).0 refl
        (drain json dispatch (suc (length (push chunk d).1.buf)) (push chunk d).1 s) refl
        (drain-IsSettled (suc (length (push chunk d).1.buf)) (push chunk d).1 s
          (push-IsBounded chunk d b) (omega arith))
        (λ d' s' b'. reader_loop-ends chunks d' s' b')
    where
      go :
          (refused : Option FrameError)
          → (push chunk d).0 ≡ refused
          → (r : Drained S E)
          → drain json dispatch (suc (length (push chunk d).1.buf)) (push chunk d).1 s ≡ r
          → IsSettled limit r
          → ((d' : FrameDecoder) (s' : S)
              → IsBounded limit d'
              → (end : Stop E × S) × (reader_loop json dispatch chunks d' s' ≡ some end))
          → (end : Stop E × S) × (reader_loop json dispatch (chunk ∷ chunks) d s ≡ some end)
      go (some e) q r q' settled next = ((malformed e, s), rw (reader_loop, q))
      go none q (stopped reason s') q' settled next = ((reason, s'), rw (reader_loop, q, q'))
      go none q (waiting d' s') q' settled next =
          let (end, e) = next d' s' settled.0 in (end, rw (reader_loop, q, q') e)
      go none q out_of_fuel q' settled next = elim settled [ ]

  -- Any bytes in any chunks: the loop ends with a reason to stop.
  pub reader_loop-total :
      (chunks : List (List ℕ)) (s : S)
      → (end : Stop E × S) × (reader_loop json dispatch chunks (new limit) s ≡ some end)
  unfolding new
  reader_loop-total chunks s =
      reader_loop-ends chunks (new limit) s (record { same_limit = refl; within = tt })
