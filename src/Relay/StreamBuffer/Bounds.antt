-- ===== src/Relay/StreamBuffer/Bounds.antt =====
-- The stream buffer keeps its limits and counts its bytes.
use mathlib.Core.List.{reverse, reverse-cons}
use agent_console.Base.{
  split_last-some, Bool, Bool-cases, List, Option, Option-cases, [], ap, arith, inl, inr, length,
  ltb, nat_eq, none, refl, some, split_last, string_eq, suc, total-append, true, zero, ℕ, ◌++◌, ◌+◌,
  ◌-◌, ◌∙◌, ◌∷◌, ◌≡◌, ◌≤◌,
}
use agent_console.Relay.Frame.Messages.{
  Envelope, FrameKind, recoverable, mergeable, same_kind, MergeInfo, append_info, replace_latest,
  Frame,
}
use agent_console.Relay.StreamBuffer.{
  StreamBuffer, recent_window, within, evict_expired, take_first, drop_replaced, push_back,
  evict_kind, evict_all, evict_or_reset, place, with_queue, placed, relieve, insert_frame,
}
use agent_console.Relay.Coalesce.{replaces, coalesce}
use agent_console.Relay.Coalesce.Contents.{size, size-coalesce}
use agent_console.Relay.Frame.Merge.{merge_pair}

-- The byte count is that of the frames in the queue.
abbrev pub IsExact : {M : Type 0} → StreamBuffer M → Type 0
IsExact b = b.bytes ≡ size b.items

module _ {M : Type 0} where
  evict_or_reset-within : (b : StreamBuffer M) → within (evict_or_reset b).0 ≡ true
  unfolding evict_or_reset
  evict_or_reset-within b = elim (Bool-cases (within (evict_all mergeable b))) [
    | inl e ↦ rw e e
    | inr e ↦ elim (Bool-cases (within (evict_all recoverable (evict_all mergeable b)))) [
      | inl g ↦ rw (e, g) g
      | inr g ↦ rw (e, g) (ground arith)
    ]
  ]

  abbrev pub SameLimits : StreamBuffer M → StreamBuffer M → Type 0
  SameLimits b c = (c.max_events ≡ b.max_events) × (c.max_bytes ≡ b.max_bytes)

  pub evict_kind-SameLimits :
      (fuel : ℕ) (kind : FrameKind) (b : StreamBuffer M) → SameLimits b (evict_kind fuel kind b)
  unfolding evict_kind
  evict_kind-SameLimits zero kind b = (refl, refl)
  evict_kind-SameLimits (suc fuel) kind b = elim (Bool-cases (within b)) [
    | inl e ↦ rw (e, evict_kind) (refl, refl)
    | inr e ↦
        elim (Option-cases (take_first (length b.items) (λ f. same_kind f.kind kind) b.items)) [
          | inl x ↦ rw (e, evict_kind) (rw x (refl, refl))
          | inr ((g, rest), x) ↦ rw (e, evict_kind) (rw x (evict_kind-SameLimits fuel kind _))
        ]
  ]

  pub evict_or_reset-SameLimits : (b : StreamBuffer M) → SameLimits b (evict_or_reset b).0
  unfolding evict_or_reset
  evict_or_reset-SameLimits b =
      let b1 = evict_all mergeable b in
      let (x, y) = evict_kind-SameLimits (length b.items) mergeable b in
      let (z, w) = evict_kind-SameLimits (length b1.items) recoverable b1 in
      elim (Bool-cases (within b1)) [
        | inl e ↦ rw e (x, y)
        | inr e ↦ elim (Bool-cases (within (evict_all recoverable b1))) [
          | inl g ↦ rw (e, g) (z ∙ x, w ∙ y)
          | inr g ↦ rw (e, g) (z ∙ x, w ∙ y)
        ]
      ]

  bounds_of :
      (c : StreamBuffer M) {max_events max_bytes : ℕ}
      → within c ≡ true
      → IsExact c
      → c.max_events ≡ max_events
      → c.max_bytes ≡ max_bytes
      → (length c.items ≤ max_events) × (size c.items ≤ max_bytes)
  bounds_of c h x p q = ground arith

  evict_expired-size :
      (now retention : ℕ) (fs : List (Frame M)) (n : ℕ)
      → n ≡ size fs
      → (evict_expired now retention fs n).1 ≡ size (evict_expired now retention fs n).0
  unfolding evict_expired
  evict_expired-size now retention [] n h = h
  evict_expired-size now retention (f ∷ fs) n h = elim (Bool-cases (ltb retention (now - f.ts))) [
    | inl e ↦
        rw (e, evict_expired) (evict_expired-size now retention fs (n - f.bytes_len) (omega arith))
    | inr e ↦ rw (e, evict_expired) h
  ]

  pub take_first-size :
      (w : ℕ) (p : Frame M → Bool) (fs rest : List (Frame M)) (g : Frame M)
      → take_first w p fs ≡ some (g, rest)
      → size fs ≡ g.bytes_len + size rest
  unfolding take_first
  take_first-size zero p fs rest g h = cc
  take_first-size (suc w) p [] rest g h = cc
  take_first-size (suc w) p (f ∷ fs) rest g h = elim (Bool-cases (p f)) [
    | inl e ↦ ground arith
    | inr e ↦ elim (Option-cases (take_first w p fs)) [
      | inl x ↦ ground arith
      | inr ((g', rest'), x) ↦ ground (arith, take_first-size w p fs rest' g' x)
    ]
  ]

  size-append : (xs ys : List (Frame M)) → size (xs ++ ys) ≡ size xs + size ys
  size-append xs ys = total-append (λ f. f.bytes_len) xs ys

  size-reverse : (fs : List (Frame M)) → size (reverse fs) ≡ size fs
  size-reverse [] = refl
  size-reverse (f ∷ fs) =
      rw (reverse-cons f fs) (omega (arith, size-append (reverse fs) (f ∷ []), size-reverse fs))

  drop_replaced-size :
      (m : Option MergeInfo) (fs : List (Frame M)) (n : ℕ)
      → n ≡ size fs
      → (drop_replaced m fs n).1 ≡ size (drop_replaced m fs n).0
  drop_replaced-size (some (replace_latest key)) fs n h =
      elim (Option-cases (take_first recent_window (λ f. replaces key f.merge) (reverse fs))) [
        | inl e ↦ rw (e, drop_replaced) h
        | inr ((old, rest), e) ↦
            rw (e, drop_replaced)
              (omega (
                arith,
                size-reverse rest,
                size-reverse fs,
                take_first-size _ (λ f. replaces key f.merge) (reverse fs) rest old e,
              ))
      ]
  drop_replaced-size (some (append_info a)) fs n h = h
  drop_replaced-size none fs n h = h

  pub evict_kind-IsExact :
      (fuel : ℕ) (kind : FrameKind) (b : StreamBuffer M)
      → IsExact b
      → IsExact (evict_kind fuel kind b)
  unfolding evict_kind
  evict_kind-IsExact zero kind b h = h
  evict_kind-IsExact (suc fuel) kind b h = elim (Bool-cases (within b)) [
    | inl e ↦ rw (e, evict_kind) h
    | inr e ↦
        elim (Option-cases (take_first (length b.items) (λ f. same_kind f.kind kind) b.items)) [
          | inl x ↦ rw (e, evict_kind) (rw x h)
          | inr ((g, rest), x) ↦
              rw (e, evict_kind)
                (rw x (
                  evict_kind-IsExact fuel kind _ (
                    omega
                      (arith, take_first-size _ (λ f. same_kind f.kind kind) b.items rest g x))))
        ]
  ]

  evict_or_reset-IsExact : (b : StreamBuffer M) → IsExact b → IsExact (evict_or_reset b).0
  unfolding evict_or_reset
  evict_or_reset-IsExact b h =
      let one = evict_kind-IsExact (length b.items) mergeable b h in
      elim (Bool-cases (within (evict_all mergeable b))) [
        | inl e ↦ rw e one
        | inr e ↦ elim (Bool-cases (within (evict_all recoverable (evict_all mergeable b)))) [
          | inl g ↦
              rw (e, g)
                (evict_kind-IsExact (length (evict_all mergeable b).items) recoverable
                  (evict_all mergeable b) one)
          | inr g ↦ rw (e, g) refl
        ]
      ]

  push_back-size :
      (f : Frame M) (q : List (Frame M) × ℕ)
      → q.1 ≡ size q.0
      → (push_back f q).1 ≡ size (push_back f q).0
  push_back-size f q h = omega (arith, size-append q.0 (f ∷ []))

  module _ (encoded_len : Envelope M → ℕ) where
    place-size :
        (now : ℕ) (frame : Frame M) (fs : List (Frame M)) (n : ℕ)
        → n ≡ size fs
        → (place encoded_len now frame fs n).1 ≡ size (place encoded_len now frame fs n).0
    unfolding place
    place-size now frame fs n h = elim (Option-cases (split_last fs)) [
      | inl e ↦ rw (e, place) (push_back-size frame _ (drop_replaced-size frame.merge fs n h))
      | inr ((front, prev), e) ↦ elim (Option-cases (merge_pair encoded_len now prev frame)) [
        | inl x ↦
            rw (e, place) (rw x (push_back-size frame _ (drop_replaced-size frame.merge fs n h)))
        | inr (m, x) ↦
            rw (e, place)
              (rw x (
                omega (
                  arith,
                  size-append front (m ∷ []),
                  size-append front (prev ∷ []),
                  ap size (split_last-some fs front prev e),
                )))
      ]
    ]

    pub placed-IsExact :
        (now : ℕ) (frame : Frame M) (b : StreamBuffer M)
        → IsExact b
        → IsExact (placed encoded_len now frame b)
    unfolding placed
    placed-IsExact now frame b h =
        place-size now frame _ _ (evict_expired-size now b.retention b.items b.bytes h)

    relieve-IsExact : (now : ℕ) (b : StreamBuffer M) → IsExact (relieve encoded_len now b).0
    unfolding relieve
    relieve-IsExact now b =
        let b1 = with_queue encoded_len b (coalesce encoded_len now b.items) in
        let exact : IsExact b1 = size-coalesce encoded_len now b.items in
        elim (Bool-cases (within b1)) [
          | inl e ↦ rw e exact
          | inr e ↦ rw e (evict_or_reset-IsExact b1 exact)
        ]

    -- The count of bytes stays exact through every branch of `insert`: expiry, merging, replacing,
    -- coalescing, eviction and reset.
    pub insert_frame-IsExact :
        (now : ℕ) (frame : Frame M) (b : StreamBuffer M)
        → IsExact b
        → IsExact (insert_frame encoded_len now frame b).0
    unfolding insert_frame
    insert_frame-IsExact now frame b h =
        let b1 = placed encoded_len now frame b in
        elim (Bool-cases (within b1)) [
          | inl e ↦ rw e (placed-IsExact now frame b h)
          | inr e ↦ rw e (relieve-IsExact now b1)
        ]

    relieve-within : (now : ℕ) (b : StreamBuffer M) → within (relieve encoded_len now b).0 ≡ true
    unfolding relieve
    relieve-within now b =
        let b1 = with_queue encoded_len b (coalesce encoded_len now b.items) in
        elim (Bool-cases (within b1)) [ inl e ↦ rw e e | inr e ↦ rw e (evict_or_reset-within b1) ]

    insert_frame-within :
        (now : ℕ) (frame : Frame M) (b : StreamBuffer M)
        → within (insert_frame encoded_len now frame b).0 ≡ true
    unfolding insert_frame
    insert_frame-within now frame b =
        let b1 = placed encoded_len now frame b in
        elim (Bool-cases (within b1)) [ inl e ↦ rw e e | inr e ↦ rw e (relieve-within now b1) ]

    insert_frame-SameLimits :
        (now : ℕ) (frame : Frame M) (b : StreamBuffer M)
        → SameLimits b (insert_frame encoded_len now frame b).0
    unfolding insert_frame relieve placed
    insert_frame-SameLimits now frame b =
        let b1 = placed encoded_len now frame b in
        let b2 = with_queue encoded_len b1 (coalesce encoded_len now b1.items) in
        elim (Bool-cases (within b1)) [
          | inl e ↦ rw e (refl, refl)
          | inr e ↦ elim (Bool-cases (within b2)) [
            | inl g ↦ rw (e, g) (refl, refl)
            | inr g ↦ rw (e, g) (evict_or_reset-SameLimits b2)
          ]
        ]

    -- After any `insert` into a buffer whose byte count is exact, the frames of the queue are at
    -- most `max_events`, and their sizes together at most `max_bytes`.
    pub insert_frame_bounds :
        (now : ℕ) (frame : Frame M) (b : StreamBuffer M)
        → IsExact b
        → let q = (insert_frame encoded_len now frame b).0.items in
          (length q ≤ b.max_events) × (size q ≤ b.max_bytes)
    insert_frame_bounds now frame b h =
        let s = insert_frame-SameLimits now frame b in
        bounds_of (insert_frame encoded_len now frame b).0 (insert_frame-within now frame b)
          (insert_frame-IsExact now frame b h) s.0 s.1
