-- ===== src/Bridge/Ipc/Draining.antt =====
-- `reader_loop` of client.rs on the front of a stream of frames: what it dispatches, chunk by chunk.
use agent_console.Base.{
  List, Option, Option-cases, [], inl, inr, length, map, none, refl, some, ℕ, suc, zero, ◌++◌, ◌<◌,
  ◌≡◌, ◌∷◌, arith, ap, ◌∙◌, ◌>>=◌,
}
use agent_console.Bridge.Ipc.Decoder.{
  FrameDecoder, Json, push, u32_mod, announced, check_limit, split_prefix,
}
use agent_console.Bridge.Ipc.Reader.{
  Stop, dispatch_failed, drain, peer_closed, reader_loop, stopped, waiting,
}
use agent_console.Bridge.Ipc.Frames.{
  Awaits, between, inside, decoder, Frame, waits, yields, next_frame-Progress, wire,
  check_limit-none, split_prefix-front, from_le_bytes-to_le_bytes,
}
use mathlib.Core.List.{append_assoc}

unfoldable pub concat {ℓ} : {A : Type ℓ} → List (List A) → List A
concat [] = []
concat (xs ∷ xss) = xs ++ concat xss

-- The values in their order, up to the first that cannot be dispatched.
unfoldable pub dispatch_all : {V S E : Type 0} → (V → S → Option E × S) → List V → S → Stop E × S
dispatch_all dispatch [] s = (peer_closed, s)
dispatch_all dispatch (v ∷ vs) s =
    let (failed, s') = dispatch v s in
    elim failed [ some e ↦ (dispatch_failed e, s') | none ↦ dispatch_all dispatch vs s' ]

module _ {json : Json} {limit : ℕ} (small : limit < u32_mod) where
  push-Awaits :
      (chunk rest : List ℕ) (d : FrameDecoder) (fs : List (Frame json limit))
      → Awaits small (chunk ++ rest) d fs
      → (push chunk d ≡ (none, record d { buf = d.buf ++ chunk }))
        × Awaits small rest (record d { buf = d.buf ++ chunk }) fs
  unfolding push
  push-Awaits chunk rest _ _ (between buf fs h) =
      let h' : (buf ++ chunk) ++ rest ≡ wire fs = append_assoc buf chunk rest ∙ h in
      (ap (λ e. (e, decoder limit none (buf ++ chunk))) (go (buf ++ chunk) fs h'), between _ fs h')
    where
      go :
          (bytes : List ℕ) (fs : List (Frame json limit))
          → bytes ++ rest ≡ wire fs
          → (announced none bytes >>= check_limit limit) ≡ none
      go [] [] e = refl
      go (x ∷ bytes) [] e = cc
      go bytes (f ∷ fs) e = elim (split_prefix-front _ _ _ _ bytes rest (f.payload ++ wire fs) e) [
        | inl (short, few) ↦ rw short
        | inr (after, q, back) ↦
            let read =
              ap split_prefix q
              ∙ from_le_bytes-to_le_bytes (length f.payload) after (omega (arith, f.within)) in
            rw read (check_limit-none limit (length f.payload) f.nonempty f.within)
      ]
  push-Awaits chunk rest _ _ (inside buf f fs h) = (
    rw (check_limit-none limit (length f.payload) f.nonempty f.within),
    inside _ f fs (append_assoc buf chunk rest ∙ h),
  )

  module _ {S E : Type 0} (dispatch : json.Value → S → Option E × S) where
    abbrev all : List (Frame json limit) → S → Stop E × S
    all fs s = dispatch_all dispatch (map (λ f. f.value) fs) s

    data Drains (fuel : ℕ) (rest : List ℕ) (d : FrameDecoder) (fs : List (Frame json limit)) (s : S)
        : Type 0 where
      on_to :
          (d' : FrameDecoder) (s' : S) (fs' : List (Frame json limit))
          → drain json dispatch fuel d s ≡ waiting d' s'
          → Awaits small rest d' fs'
          → all fs s ≡ all fs' s'
          → (rest ≡ [] → fs' ≡ [])
          → Drains fuel rest d fs s
      ends :
          (reason : Stop E) (s' : S)
          → drain json dispatch fuel d s ≡ stopped reason s'
          → all fs s ≡ (reason, s')
          → Drains fuel rest d fs s

    drain-Drains :
        (fuel : ℕ) (rest : List ℕ) (d : FrameDecoder) (fs : List (Frame json limit)) (s : S)
        → length d.buf < fuel
        → Awaits small rest d fs
        → Drains fuel rest d fs s
    unfolding drain dispatch_all
    drain-Drains zero rest d fs s lt a = ground arith
    drain-Drains (suc fuel) rest d fs s lt a = elim (next_frame-Progress small rest d fs a) [
      | waits d' q a' nil ↦ on_to d' s fs (rw (drain, q, ap (λ p. p.1) q)) a' refl nil
      | yields f fs' d' e q a' less ↦ elim (Option-cases (dispatch f.value s).0) [
        | inl fine ↦ elim (drain-Drains fuel rest d' fs' (dispatch f.value s).1 (omega arith) a') [
          | on_to d'' s' fs'' q' a'' same nil ↦
              on_to d'' s' fs'' (rw (drain, q, fine, ap (λ p. p.1) q) q') a''
                (rw (e, dispatch_all, fine) same) nil
          | ends reason s' q' same ↦
              ends reason s' (rw (drain, q, fine, ap (λ p. p.1) q) q')
                (rw (e, dispatch_all, fine) same)
        ]
        | inr (failure, bad) ↦
            ends (dispatch_failed failure) (dispatch f.value s).1 (rw (drain, q, bad))
              (rw (e, dispatch_all, bad))
      ]
    ]

    pub reader_loop-Awaits :
        (chunks : List (List ℕ)) (d : FrameDecoder) (fs : List (Frame json limit)) (s : S)
        → Awaits small (concat chunks) d fs
        → (concat chunks ≡ [] → fs ≡ [])
        → reader_loop json dispatch chunks d s ≡ some (all fs s)
    unfolding reader_loop concat dispatch_all
    reader_loop-Awaits [] d fs s a nil = rw (nil refl)
    reader_loop-Awaits (chunk ∷ chunks) d fs s a nil =
        let d' : FrameDecoder = record d { buf = d.buf ++ chunk } in
        let (fits, a') = push-Awaits chunk (concat chunks) d fs a in
        elim (drain-Drains (suc (length d'.buf)) (concat chunks) d' fs s (omega arith) a') [
          | on_to d'' s' fs' q a'' same none_left ↦
              rw (reader_loop, fits, ap (λ p. p.1) fits, q, same)
                (reader_loop-Awaits chunks d'' fs' s' a'' none_left)
          | ends reason s' q same ↦ rw (reader_loop, fits, ap (λ p. p.1) fits, q, same)
        ]
