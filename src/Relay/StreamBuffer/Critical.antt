-- ===== src/Relay/StreamBuffer/Critical.antt =====
-- The stream buffer never drops a critical frame in silence.
use agent_console.Base.{
  All, Bool, Bool-cases, List, Option-cases, [], ap, arith, false, inl, inr, length, nat_eq, refl,
  some, string_eq, suc, sym, true, zero, ℕ, ◌++◌, ◌∙◌, ◌∷◌, ◌≡◌, ◌≤◌, ◌⊎◌,
}
use agent_console.Relay.Frame.Messages.{
  Envelope, FrameKind, critical, recoverable, mergeable, same_kind, Frame,
}
use agent_console.Relay.StreamBuffer.{
  StreamBuffer, InsertOutcome, buffered, overflow_reset, within, take_first, evict_kind, evict_all,
  clear, evict_or_reset, with_queue, live_queue, placed, relieve, insert_frame,
}
use agent_console.Relay.Coalesce.{coalesce}
use agent_console.Relay.Coalesce.Contents.{
  is_critical, criticals, IsPlain, size, size-coalesce, criticals-coalesce,
}
use mathlib.Core.Bool.{false≢true}
use mathlib.Core.Path.{subst}
use agent_console.Relay.StreamBuffer.Bounds.{IsExact, evict_kind-SameLimits, evict_kind-IsExact}
use agent_console.Relay.StreamBuffer.Queue.{
  take_first-criticals, take_first-none, evict_kind-All, evict_expired-All, place-criticals,
  place-IsPlain,
}

module _ {M : Type 0} where
  abbrev Lacks : FrameKind → List (Frame M) → Type 0
  Lacks kind = All (λ f. same_kind f.kind kind ≡ false)

  kind_not_critical :
      (kind : FrameKind) (f : Frame M)
      → same_kind kind critical ≡ false
      → same_kind f.kind kind ≡ true
      → is_critical f ≡ false
  kind_not_critical kind f n h = ground arith

  All-true : (P : Frame M → Type 0) (fs : List (Frame M)) → ((f : Frame M) → P f) → All P fs
  All-true P [] h = tt
  All-true P (f ∷ fs) h = (h f, All-true P fs h)

  evict_kind-criticals :
      (fuel : ℕ) (kind : FrameKind) (b : StreamBuffer M)
      → same_kind kind critical ≡ false
      → criticals (evict_kind fuel kind b).items ≡ criticals b.items
  unfolding evict_kind
  evict_kind-criticals zero kind b n = refl
  evict_kind-criticals (suc fuel) kind b n = elim (Bool-cases (within b)) [
    | inl e ↦ rw (e, evict_kind)
    | inr e ↦
        elim (Option-cases (take_first (length b.items) (λ f. same_kind f.kind kind) b.items)) [
          | inl x ↦ rw (e, evict_kind) (rw x)
          | inr ((g, rest), x) ↦
              rw (e, evict_kind)
                (rw x (
                  evict_kind-criticals fuel kind _ n
                  ∙ take_first-criticals _ (λ f. same_kind f.kind kind) b.items rest g x
                      (All-true _ b.items (λ f. kind_not_critical kind f n))))
        ]
  ]

  take_first-length :
      (w : ℕ) (p : Frame M → Bool) (fs rest : List (Frame M)) (g : Frame M)
      → take_first w p fs ≡ some (g, rest)
      → length fs ≡ suc (length rest)
  unfolding take_first
  take_first-length zero p fs rest g h = cc
  take_first-length (suc w) p [] rest g h = cc
  take_first-length (suc w) p (f ∷ fs) rest g h = elim (Bool-cases (p f)) [
    | inl e ↦ ground arith
    | inr e ↦ elim (Option-cases (take_first w p fs)) [
      | inl x ↦ ground arith
      | inr ((g', rest'), x) ↦ ground (arith, take_first-length w p fs rest' g' x)
    ]
  ]

  -- With fuel for each frame the loop ends by one of its two tests.
  evict_kind-ends :
      (fuel : ℕ) (kind : FrameKind) (b : StreamBuffer M)
      → length b.items ≤ fuel
      → (within (evict_kind fuel kind b) ≡ true) ⊎ Lacks kind (evict_kind fuel kind b).items
  unfolding evict_kind
  evict_kind-ends zero kind b l = inr (empty_lacks b.items l)
    where
      empty_lacks : (fs : List (Frame M)) → length fs ≤ 0 → Lacks kind fs
      empty_lacks [] h = tt
      empty_lacks (f ∷ fs) h = absurd (omega arith)
  evict_kind-ends (suc fuel) kind b l = elim (Bool-cases (within b)) [
    | inl e ↦ rw (e, evict_kind) (inl e)
    | inr e ↦
        elim (Option-cases (take_first (length b.items) (λ f. same_kind f.kind kind) b.items)) [
          | inl x ↦ rw (e, evict_kind) (rw x (inr (take_first-none _ _ b.items (omega arith) x)))
          | inr ((g, rest), x) ↦
              rw (e, evict_kind)
                (rw x (
                  evict_kind-ends fuel kind _ (
                    omega
                      (arith, take_first-length _ (λ f. same_kind f.kind kind) b.items rest g x))))
        ]
  ]

  only_criticals :
      (fs : List (Frame M)) → Lacks mergeable fs → Lacks recoverable fs → criticals fs ≡ fs
  only_criticals [] m r = refl
  only_criticals (f ∷ fs) m r =
      let c : is_critical f ≡ true = kind_left f m.0 r.0 in
      rw c (ap (λ l. f ∷ l) (only_criticals fs m.1 r.1))
    where
      kind_left :
          (f : Frame M)
          → same_kind f.kind mergeable ≡ false
          → same_kind f.kind recoverable ≡ false
          → is_critical f ≡ true
      kind_left f x y = ground arith

  -- What an insertion owes: the critical frames `wanted`, or an admission that they cannot fit.
  abbrev pub Owes : List (Frame M) → ℕ → ℕ → StreamBuffer M × InsertOutcome → Type 0
  Owes wanted max_events max_bytes (b, buffered) = criticals b.items ≡ wanted
  Owes wanted max_events max_bytes (b, overflow_reset) =
      (b.items ≡ []) × ¬ ((length wanted ≤ max_events) × (size wanted ≤ max_bytes))

  not_within :
      (c : StreamBuffer M) (wanted : List (Frame M)) (max_events max_bytes : ℕ)
      → within c ≡ false
      → IsExact c
      → c.items ≡ wanted
      → c.max_events ≡ max_events
      → c.max_bytes ≡ max_bytes
      → ¬ ((length wanted ≤ max_events) × (size wanted ≤ max_bytes))
  not_within c wanted max_events max_bytes w x i p q (l, s) = ground (arith, ap length i, ap size i)

  evict_or_reset-Owes :
      (b : StreamBuffer M)
      → IsExact b
      → Owes (criticals b.items) b.max_events b.max_bytes (evict_or_reset b)
  unfolding evict_or_reset clear
  evict_or_reset-Owes b x =
      let b1 = evict_all mergeable b in
      let b2 = evict_all recoverable b1 in
      let (p, q) = evict_kind-SameLimits (length b.items) mergeable b in
      let (r, s) = evict_kind-SameLimits (length b1.items) recoverable b1 in
      let one = evict_kind-criticals (length b.items) mergeable b refl in
      let two = evict_kind-criticals (length b1.items) recoverable b1 refl ∙ one in
      elim (Bool-cases (within b1)) [
        | inl e ↦ rw e one
        | inr e ↦ elim (Bool-cases (within b2)) [
          | inl g ↦ rw (e, g) two
          | inr g ↦
              rw (e, g)
                (
                  refl,
                  not_within b2 (criticals b.items) b.max_events b.max_bytes g
                      (evict_kind-IsExact _ recoverable b1 (evict_kind-IsExact _ mergeable b x))
                      (sym (
                          only_criticals b2.items
                            (evict_kind-All _ (length b1.items) recoverable b1
                              (left mergeable b1 (evict_kind-ends _ mergeable b (omega arith)) e))
                            (left recoverable b2 (evict_kind-ends _ recoverable b1 (omega arith))
                              g))
                        ∙ two)
                      (r ∙ p) (s ∙ q),
                )
        ]
      ]
    where
      left :
          (kind : FrameKind) (c : StreamBuffer M)
          → (within c ≡ true) ⊎ Lacks kind c.items
          → within c ≡ false
          → Lacks kind c.items
      left kind c (inl t) f = absurd (false≢true (sym f ∙ t))
      left kind c (inr l) f = l

  module _ (encoded_len : Envelope M → ℕ) where
    relieve-Owes :
        (now : ℕ) (b : StreamBuffer M)
        → All IsPlain b.items
        → Owes (criticals b.items) b.max_events b.max_bytes (relieve encoded_len now b)
    unfolding relieve
    relieve-Owes now b a =
        let b1 = with_queue encoded_len b (coalesce encoded_len now b.items) in
        let same : criticals b1.items ≡ criticals b.items =
          criticals-coalesce encoded_len now b.items a in
        elim (Bool-cases (within b1)) [
          | inl e ↦ rw e same
          | inr e ↦ rw e (
              subst (λ w. Owes w b.max_events b.max_bytes (evict_or_reset b1)) same
                (evict_or_reset-Owes b1 (size-coalesce encoded_len now b.items)))
        ]

    -- The critical frames that a buffer should hold after an insertion: those that had not
    -- expired, and the new one if it is critical.
    pub wanted : ℕ → Frame M → StreamBuffer M → List (Frame M)
    wanted now frame b = criticals (live_queue encoded_len now b).0 ++ criticals (frame ∷ [])

    -- Where critical frames take part in no merge, as `classify` makes them: if `insert` answers
    -- `Buffered`, the critical frames of the queue are the unexpired ones from before and the new
    -- one, in order; if it answers `OverflowReset`, the queue is empty and those frames alone are
    -- beyond one of the limits.
    pub insert_frame-Owes :
        (now : ℕ) (frame : Frame M) (b : StreamBuffer M)
        → IsPlain frame
        → All IsPlain b.items
        → Owes (wanted now frame b) b.max_events b.max_bytes (insert_frame encoded_len now frame b)
    unfolding insert_frame wanted placed
    insert_frame-Owes now frame b h a =
        let b1 = placed encoded_len now frame b in
        let (fs, n) = live_queue encoded_len now b in
        let live = evict_expired-All IsPlain now b.retention b.items b.bytes a in
        let same = place-criticals encoded_len now frame fs n h live in
        elim (Bool-cases (within b1)) [
          | inl e ↦ rw e same
          | inr e ↦ rw e (
              subst (λ w. Owes w b.max_events b.max_bytes (relieve encoded_len now b1)) same
                (relieve-Owes now b1 (place-IsPlain encoded_len now frame fs n h live)))
        ]
