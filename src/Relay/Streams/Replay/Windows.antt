-- ===== src/Relay/Streams/Replay/Windows.antt =====
-- The window that `full_replay` hands out: its order, its contents and its numbers.
use mathlib.Core.List.{Perm}
use mathlib.Core.List.Perm
use mathlib.Core.Path.{subst}
use agent_console.Base.{
  All, any, arith, Bool-cases, eqb, false, inl, inr, leb, length, List, nat_eq, some, string_eq,
  true, [], ℕ, ◌++◌, ◌+◌, ◌-◌, ◌<◌, ◌∷◌, ◌≡◌, ◌≤◌, ◌⊎◌,
}
use agent_console.Relay.Frame.Messages.{Frame}
use agent_console.Relay.Streams.State.{DStream}
use agent_console.Relay.Streams.Replay.{
  complete, contiguous_from, full_replay, full_window, insert_by_seq, replay_base, seq_of,
  sort_by_seq, surviving_frames,
}

module _ {M : Type 0} where
  -- Ascending numbers, equal ones allowed.
  abbrev pub IsAscending : List (Frame M) → Type 0
  IsAscending [] = Unit
  IsAscending (f ∷ fs) = All (λ g. seq_of f ≤ seq_of g) fs × IsAscending fs

  -- The numbers from one on, without a gap.
  abbrev pub IsNumbered : ℕ → List (Frame M) → Type 0
  IsNumbered n [] = Unit
  IsNumbered n (f ∷ fs) = (seq_of f ≡ n) × IsNumbered (n + 1) fs

  insert_by_seq-All {κ} :
      (P : Frame M → Type κ) (f : Frame M) (gs : List (Frame M))
      → P f
      → All P gs
      → All P (insert_by_seq f gs)
  unfolding insert_by_seq
  insert_by_seq-All P f [] p a = (p, tt)
  insert_by_seq-All P f (g ∷ gs) p a = elim (Bool-cases (leb (seq_of f) (seq_of g))) [
    | inl q ↦ rw (q, insert_by_seq) (p, a)
    | inr q ↦ rw (q, insert_by_seq) (a.0, insert_by_seq-All P f gs p a.1)
  ]

  All-above :
      (f g : Frame M) (gs : List (Frame M))
      → seq_of f ≤ seq_of g
      → All (λ h. seq_of g ≤ seq_of h) gs
      → All (λ h. seq_of f ≤ seq_of h) gs
  All-above f g [] l a = tt
  All-above f g (h ∷ hs) l a = (omega (arith, l, a.0), All-above f g hs l a.1)

  insert_by_seq-IsAscending :
      (f : Frame M) (gs : List (Frame M)) → IsAscending gs → IsAscending (insert_by_seq f gs)
  unfolding insert_by_seq
  insert_by_seq-IsAscending f [] a = (tt, tt)
  insert_by_seq-IsAscending f (g ∷ gs) a = elim (Bool-cases (leb (seq_of f) (seq_of g))) [
    | inl q ↦
        let l : seq_of f ≤ seq_of g = ground arith in
        rw (q, insert_by_seq) ((l, All-above f g gs l a.0), a)
    | inr q ↦
        let l : seq_of g ≤ seq_of f = ground arith in
        rw (q, insert_by_seq)
          (
            insert_by_seq-All (λ h. seq_of g ≤ seq_of h) f gs l a.0,
            insert_by_seq-IsAscending f gs a.1,
          )
  ]

  pub sort_by_seq-IsAscending : (fs : List (Frame M)) → IsAscending (sort_by_seq fs)
  unfolding sort_by_seq
  sort_by_seq-IsAscending [] = tt
  sort_by_seq-IsAscending (f ∷ fs) =
      insert_by_seq-IsAscending f (sort_by_seq fs) (sort_by_seq-IsAscending fs)

  insert_by_seq-perm : (f : Frame M) (gs : List (Frame M)) → Perm (insert_by_seq f gs) (f ∷ gs)
  unfolding insert_by_seq
  insert_by_seq-perm f [] = Perm.rfl
  insert_by_seq-perm f (g ∷ gs) = elim (Bool-cases (leb (seq_of f) (seq_of g))) [
    | inl q ↦ rw (q, insert_by_seq) Perm.rfl
    | inr q ↦
        rw (q, insert_by_seq)
          (Perm.trans (Perm.cons g (insert_by_seq-perm f gs)) (Perm.swap f g gs))
  ]

  pub sort_by_seq-perm : (fs : List (Frame M)) → Perm (sort_by_seq fs) fs
  unfolding sort_by_seq
  sort_by_seq-perm [] = Perm.rfl
  sort_by_seq-perm (f ∷ fs) =
      Perm.trans (insert_by_seq-perm f (sort_by_seq fs)) (Perm.cons f (sort_by_seq-perm fs))

  pub contiguous_from-IsNumbered :
      (n : ℕ) (fs : List (Frame M)) → contiguous_from n fs ≡ true → IsNumbered n fs
  unfolding contiguous_from
  contiguous_from-IsNumbered n [] h = tt
  contiguous_from-IsNumbered n (f ∷ fs) h =
      (ground arith, contiguous_from-IsNumbered (n + 1) fs (ground arith))

  -- A replay window without a gap, up to the last number that was given out.
  abbrev pub IsFull : DStream M → ℕ → List (Frame M) → Type 0
  IsFull d base frames =
      Perm frames (d.snapshots ++ d.buffer.items)
      × ((lo : ℕ) × IsNumbered lo frames
          × (0 < length frames)
          × (lo + length frames ≡ d.next_seq)
          × (((base ≡ lo) × (any (λ s. eqb (seq_of s) lo) d.snapshots ≡ true))
              ⊎ ((base ≡ lo - 1) × (any (λ s. eqb (seq_of s) lo) d.snapshots ≡ false))))

  pub replay_base-cases :
      (d : DStream M) (f : Frame M)
      → ((replay_base d f ≡ seq_of f) × (any (λ s. eqb (seq_of s) (seq_of f)) d.snapshots ≡ true))
        ⊎ ((replay_base d f ≡ seq_of f - 1)
            × (any (λ s. eqb (seq_of s) (seq_of f)) d.snapshots ≡ false))
  unfolding replay_base
  replay_base-cases d f = elim (Bool-cases (any (λ s. eqb (seq_of s) (seq_of f)) d.snapshots)) [
    | inl q ↦ inl (rw (q, replay_base), q)
    | inr q ↦ inr (rw (q, replay_base), q)
  ]

  complete-IsNumbered :
      (lo next : ℕ) (fs : List (Frame M))
      → complete lo next fs ≡ true
      → (lo + length fs ≡ next) × IsNumbered lo fs
  complete-IsNumbered lo next fs h =
      let l : (leb lo next ≡ true) × (eqb (length fs) (next - lo) ≡ true) = ground arith in
      (ground (arith, l), contiguous_from-IsNumbered lo fs (ground arith))

  abbrev Same : ℕ × List (Frame M) → ℕ × List (Frame M) → Type 0
  Same p q = p ≡ q

  full_window-IsFull :
      (d : DStream M) (fs frames : List (Frame M)) (base : ℕ)
      → Perm fs (d.snapshots ++ d.buffer.items)
      → full_window d fs ≡ some (base, frames)
      → IsFull d base frames
  full_window-IsFull d [] frames base p h = cc
  full_window-IsFull d (f ∷ fs) frames base p h =
      elim (Bool-cases (complete (seq_of f) d.next_seq (f ∷ fs))) [
        | inr q ↦ absurd (ground arith)
        | inl q ↦
            let (n, c) = complete-IsNumbered (seq_of f) d.next_seq (f ∷ fs) q in
            let same : Same (replay_base d f, f ∷ fs) (base, frames) = ground arith in
            subst (λ r. IsFull d r.0 r.1) same
              (p, (seq_of f, c, omega arith, n, replay_base-cases d f))
      ]

  pub full_replay-IsFull :
      (d : DStream M) (base : ℕ) (frames : List (Frame M))
      → full_replay d ≡ some (base, frames)
      → IsFull d base frames
  unfolding full_replay surviving_frames
  full_replay-IsFull d base frames h =
      full_window-IsFull d (surviving_frames d) frames base
        (sort_by_seq-perm (d.snapshots ++ d.buffer.items)) h
