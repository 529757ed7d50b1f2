-- ===== src/Relay/StreamBuffer/Queue.antt =====
-- What the steps of `insert` do to the frames that the queue holds.
use mathlib.Core.List.{reverse, reverse-cons, reverse-reverse, append-nil}
use mathlib.Core.Path.{subst}
use agent_console.Base.{
  All, All-append, All-init, All-rest, split_last-some, Bool, Bool-cases, List, Option,
  Option-cases, String, [], ap, arith, false, if◌then◌else◌, inl, inr, is_none, keep, keep-append,
  length, ltb, nat_eq, none, refl, some, split_last, string_eq, suc, sym, true, zero, ℕ, ◌++◌, ◌-◌,
  ◌∙◌, ◌∷◌, ◌≡◌, ◌≤◌,
}
use agent_console.Relay.Frame.Messages.{
  Envelope, FrameKind, same_kind, MergeInfo, append_info, replace_latest, Frame,
}
use agent_console.Relay.StreamBuffer.{
  StreamBuffer, recent_window, within, evict_expired, take_first, drop_replaced, evict_kind, place,
}
use agent_console.Relay.Coalesce.{replaces}
use agent_console.Relay.Coalesce.Contents.{
  is_critical, criticals, IsPlain, not_critical, merge-plain, not_critical-IsPlain,
}
use agent_console.Relay.Frame.Merge.{merge_pair}

-- Lists seen from the other end.
module _ {ℓ κ} {A : Type ℓ} (P : A → Type κ) where
  All-reverse : (xs : List A) → All P xs → All P (reverse xs)
  All-reverse [] h = tt
  All-reverse (x ∷ xs) h =
      rw (reverse-cons x xs) (All-append P (reverse xs) (x ∷ []) (All-reverse xs h.1) (h.0, tt))

  pub All-map {μ} : {Q : A → Type μ} (xs : List A) → ((x : A) → P x → Q x) → All P xs → All Q xs
  All-map [] f h = tt
  All-map (x ∷ xs) f h = (f x h.0, All-map xs f h.1)

keep-reverse {ℓ} :
    {A : Type ℓ} (p : A → Bool) (xs : List A) → keep p (reverse xs) ≡ reverse (keep p xs)
keep-reverse p [] = refl
keep-reverse p (x ∷ xs) = elim (Bool-cases (p x)) [
  | inl e ↦
      rw (reverse-cons x xs, keep-append p (reverse xs) (x ∷ []), keep-reverse p xs)
        (rw e (sym (reverse-cons x (keep p xs))))
  | inr e ↦
      rw (reverse-cons x xs, keep-append p (reverse xs) (x ∷ []), keep-reverse p xs)
        (rw e (append-nil (reverse (keep p xs))))
]

module _ {M : Type 0} where
  module _ (P : Frame M → Type 0) where
    pub take_first-All :
        (w : ℕ) (p : Frame M → Bool) (fs rest : List (Frame M)) (g : Frame M)
        → take_first w p fs ≡ some (g, rest)
        → All P fs
        → All P rest
    unfolding take_first
    take_first-All zero p fs rest g h a = cc
    take_first-All (suc w) p [] rest g h a = cc
    take_first-All (suc w) p (f ∷ fs) rest g h a = elim (Bool-cases (p f)) [
      | inl e ↦ let q : fs ≡ rest = ground arith in subst (All P) q a.1
      | inr e ↦ elim (Option-cases (take_first w p fs)) [
        | inl x ↦ absurd (ground arith)
        | inr ((g', rest'), x) ↦
            let q : f ∷ rest' ≡ rest = ground arith in
            subst (All P) q (a.0, take_first-All w p fs rest' g' x a.1)
      ]
    ]

    pub evict_expired-All :
        (now retention : ℕ) (fs : List (Frame M)) (n : ℕ)
        → All P fs
        → All P (evict_expired now retention fs n).0
    unfolding evict_expired
    evict_expired-All now retention [] n a = tt
    evict_expired-All now retention (f ∷ fs) n a = elim (Bool-cases (ltb retention (now - f.ts))) [
      | inl e ↦ rw (e, evict_expired) (evict_expired-All now retention fs (n - f.bytes_len) a.1)
      | inr e ↦ rw (e, evict_expired) a
    ]

    pub evict_kind-All :
        (fuel : ℕ) (kind : FrameKind) (b : StreamBuffer M)
        → All P b.items
        → All P (evict_kind fuel kind b).items
    unfolding evict_kind
    evict_kind-All zero kind b a = a
    evict_kind-All (suc fuel) kind b a = elim (Bool-cases (within b)) [
      | inl e ↦ rw (e, evict_kind) a
      | inr e ↦
          elim (Option-cases (take_first (length b.items) (λ f. same_kind f.kind kind) b.items)) [
            | inl x ↦ rw (e, evict_kind) (rw x a)
            | inr ((g, rest), x) ↦
                rw (e, evict_kind)
                  (rw x (
                    evict_kind-All fuel kind _
                      (take_first-All _ (λ f. same_kind f.kind kind) b.items rest g x a)))
          ]
    ]

  pub take_first-criticals :
      (w : ℕ) (p : Frame M → Bool) (fs rest : List (Frame M)) (g : Frame M)
      → take_first w p fs ≡ some (g, rest)
      → All (λ f. p f ≡ true → is_critical f ≡ false) fs
      → criticals rest ≡ criticals fs
  unfolding take_first
  take_first-criticals zero p fs rest g h a = cc
  take_first-criticals (suc w) p [] rest g h a = cc
  take_first-criticals (suc w) p (f ∷ fs) rest g h a = elim (Bool-cases (p f)) [
    | inl e ↦ let q : fs ≡ rest = ground arith in rw (a.0 e) (ap criticals (sym q))
    | inr e ↦ elim (Option-cases (take_first w p fs)) [
      | inl x ↦ absurd (ground arith)
      | inr ((g', rest'), x) ↦
          let q : f ∷ rest' ≡ rest = ground arith in
          subst (λ r. criticals r ≡ criticals (f ∷ fs)) q
            (ap (λ l. if is_critical f then f ∷ l else l)
              (take_first-criticals w p fs rest' g' x a.1))
    ]
  ]

  pub take_first-none :
      (w : ℕ) (p : Frame M → Bool) (fs : List (Frame M))
      → length fs ≤ w
      → take_first w p fs ≡ none
      → All (λ f. p f ≡ false) fs
  unfolding take_first
  take_first-none w p [] l h = tt
  take_first-none zero p (f ∷ fs) l h = absurd (omega arith)
  take_first-none (suc w) p (f ∷ fs) l h = elim (Bool-cases (p f)) [
    | inl e ↦ absurd (ground arith)
    | inr e ↦ (e, take_first-none w p fs (omega arith) (ground arith))
  ]

  -- A frame with a merge key of either sort is not critical.
  replaces-not_critical :
      (key : String) (f : Frame M) → IsPlain f → replaces key f.merge ≡ true → is_critical f ≡ false
  replaces-not_critical key f h r = not_critical f h (keyed f.merge r)
    where
      keyed : (m : Option MergeInfo) → replaces key m ≡ true → is_none m ≡ false
      keyed none q = cc
      keyed (some m) q = refl

  drop_replaced-criticals :
      (m : Option MergeInfo) (fs : List (Frame M)) (n : ℕ)
      → All IsPlain fs
      → criticals (drop_replaced m fs n).0 ≡ criticals fs
  drop_replaced-criticals (some (replace_latest key)) fs n a =
      elim (Option-cases (take_first recent_window (λ f. replaces key f.merge) (reverse fs))) [
        | inl e ↦ rw (e, drop_replaced)
        | inr ((old, rest), e) ↦
            rw (e, drop_replaced)
              (keep-reverse is_critical rest
                ∙ ap reverse (
                    take_first-criticals _ (λ f. replaces key f.merge) (reverse fs) rest old e
                      (All-map IsPlain (reverse fs) (replaces-not_critical key)
                        (All-reverse IsPlain fs a)))
                ∙ ap reverse (keep-reverse is_critical fs)
                ∙ reverse-reverse (criticals fs))
      ]
  drop_replaced-criticals (some (append_info i)) fs n a = refl
  drop_replaced-criticals none fs n a = refl

  pub drop_replaced-All :
      (P : Frame M → Type 0) (m : Option MergeInfo) (fs : List (Frame M)) (n : ℕ)
      → All P fs
      → All P (drop_replaced m fs n).0
  drop_replaced-All P (some (replace_latest key)) fs n a =
      elim (Option-cases (take_first recent_window (λ f. replaces key f.merge) (reverse fs))) [
        | inl e ↦ rw (e, drop_replaced) a
        | inr ((old, rest), e) ↦
            rw (e, drop_replaced)
              (All-reverse P rest (
                take_first-All P _ (λ f. replaces key f.merge) (reverse fs) rest old e
                  (All-reverse P fs a)))
      ]
  drop_replaced-All P (some (append_info i)) fs n a = a
  drop_replaced-All P none fs n a = a

  module _ (encoded_len : Envelope M → ℕ) where
    merged-criticals :
        (now : ℕ) (front : List (Frame M)) (prev frame m : Frame M)
        → merge_pair encoded_len now prev frame ≡ some m
        → IsPlain frame
        → All IsPlain (front ++ prev ∷ [])
        → criticals (front ++ m ∷ []) ≡ criticals (front ++ prev ∷ []) ++ criticals (frame ∷ [])
    merged-criticals now front prev frame m e h a =
        let p = (All-rest IsPlain front (prev ∷ []) a).0 in
        let (x, y, z) = merge-plain encoded_len now prev frame m e p h in
        rw (keep-append is_critical front (m ∷ []), keep-append is_critical front (prev ∷ []))
          (rw (x, y, z) (sym (append-nil _)))

    merged-IsPlain :
        (now : ℕ) (front : List (Frame M)) (prev frame m : Frame M)
        → merge_pair encoded_len now prev frame ≡ some m
        → IsPlain frame
        → All IsPlain (front ++ prev ∷ [])
        → All IsPlain (front ++ m ∷ [])
    merged-IsPlain now front prev frame m e h a =
        let p = (All-rest IsPlain front (prev ∷ []) a).0 in
        let (x, y, z) = merge-plain encoded_len now prev frame m e p h in
        All-append IsPlain front (m ∷ []) (All-init IsPlain front (prev ∷ []) a)
          (not_critical-IsPlain m z, tt)

    pub place-criticals :
        (now : ℕ) (frame : Frame M) (fs : List (Frame M)) (n : ℕ)
        → IsPlain frame
        → All IsPlain fs
        → criticals (place encoded_len now frame fs n).0 ≡ criticals fs ++ criticals (frame ∷ [])
    unfolding place
    place-criticals now frame fs n h a =
        let apart =
          keep-append is_critical (drop_replaced frame.merge fs n).0 (frame ∷ [])
          ∙ ap (λ l. l ++ criticals (frame ∷ [])) (drop_replaced-criticals frame.merge fs n a) in
        elim (Option-cases (split_last fs)) [
          | inl e ↦ rw (e, place) apart
          | inr ((front, prev), e) ↦ elim (Option-cases (merge_pair encoded_len now prev frame)) [
            | inl x ↦ rw (e, place) (rw x apart)
            | inr (m, x) ↦
                rw (e, place)
                  (rw x (
                    subst (λ l. criticals (front ++ m ∷ []) ≡ criticals l ++ criticals (frame ∷ []))
                      (sym (split_last-some fs front prev e))
                      (merged-criticals now front prev frame m x h
                        (subst (All IsPlain) (split_last-some fs front prev e) a))))
          ]
        ]

    pub place-IsPlain :
        (now : ℕ) (frame : Frame M) (fs : List (Frame M)) (n : ℕ)
        → IsPlain frame
        → All IsPlain fs
        → All IsPlain (place encoded_len now frame fs n).0
    unfolding place
    place-IsPlain now frame fs n h a =
        let apart =
          All-append IsPlain (drop_replaced frame.merge fs n).0 (frame ∷ [])
            (drop_replaced-All IsPlain frame.merge fs n a) (h, tt) in
        elim (Option-cases (split_last fs)) [
          | inl e ↦ rw (e, place) apart
          | inr ((front, prev), e) ↦ elim (Option-cases (merge_pair encoded_len now prev frame)) [
            | inl x ↦ rw (e, place) (rw x apart)
            | inr (m, x) ↦
                rw (e, place)
                  (rw x (
                    merged-IsPlain now front prev frame m x h
                      (subst (All IsPlain) (split_last-some fs front prev e) a)))
          ]
        ]
