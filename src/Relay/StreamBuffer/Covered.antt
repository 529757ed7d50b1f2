-- ===== src/Relay/StreamBuffer/Covered.antt =====
-- `retain_uncovered`: a snapshot removes the events that it covers, and nothing else.
use agent_console.Base.{
  All, Bool, Bool-cases, List, String, [], ap, arith, false, inl, inr, keep, length, length-keep-le,
  ltb, nat_eq, not, refl, string_eq, sym, true, ℕ, ◌+◌, ◌-◌, ◌∙◌, ◌∷◌, ◌≡◌,
}
use agent_console.Relay.Frame.Messages.{Frame}
use agent_console.Relay.StreamBuffer.{StreamBuffer, covered, retain_uncovered}
use agent_console.Relay.Coalesce.Contents.{size}
use agent_console.Relay.StreamBuffer.Bounds.{IsExact}

module _ {ℓ} {A : Type ℓ} (p : A → Bool) where
  keep-All : (xs : List A) → All (λ x. p x ≡ true) (keep p xs)
  keep-All [] = tt
  keep-All (x ∷ xs) = elim (Bool-cases (p x)) [
    | inl e ↦ rw e (e, keep-All xs)
    | inr e ↦ rw e (keep-All xs)
  ]

  keep-keep :
      (q : A → Bool) (xs : List A)
      → ((x : A) → q x ≡ true → p x ≡ true)
      → keep q (keep p xs) ≡ keep q xs
  keep-keep q [] h = refl
  keep-keep q (x ∷ xs) h = ground (arith, h x, keep-keep q xs h)

  keep_all : (xs : List A) → length (keep p xs) ≡ length xs → keep p xs ≡ xs
  keep_all [] h = refl
  keep_all (x ∷ xs) h = ground (arith, keep_all xs, length-keep-le p xs)

All-map {ℓ κ μ} :
    {A : Type ℓ} {P : A → Type κ} {Q : A → Type μ} (xs : List A)
    → ((x : A) → P x → Q x)
    → All P xs
    → All Q xs
All-map [] f h = tt
All-map (x ∷ xs) f h = (f x h.0, All-map xs f h.1)

module _ {M : Type 0} where
  -- Where the byte count is exact, it stays so; the number returned is that of the frames that
  -- left; no frame that stays is covered; and any class of uncovered frames stays whole, in order.
  pub retain_uncovered_lem :
      (device : String) (seq : ℕ) (b : StreamBuffer M) (q : Frame M → Bool)
      → IsExact b
      → ((f : Frame M) → q f ≡ true → covered device seq f ≡ false)
      → let r = retain_uncovered device seq b in
        IsExact r.0
        × (length r.0.items + r.1 ≡ length b.items)
        × All (λ f. covered device seq f ≡ false) r.0.items
        × (keep q r.0.items ≡ keep q b.items)
  unfolding retain_uncovered
  retain_uncovered_lem device seq b q h x =
      let p = λ (f : Frame M). not (covered device seq f) in
      let le = length-keep-le p b.items in
      (
        elim (Bool-cases (ltb 0 (length b.items - length (keep p b.items)))) [
          | inl e ↦ rw e
          | inr e ↦ rw e (h ∙ ap size (sym (keep_all p b.items (ground arith))))
        ],
        omega arith,
        All-map (keep p b.items) (λ f x. ground arith) (keep-All p b.items),
        keep-keep p q b.items (λ f y. rw (x f y)),
      )
