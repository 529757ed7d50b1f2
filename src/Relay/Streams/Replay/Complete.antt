-- ===== src/Relay/Streams/Replay/Complete.antt =====
-- When `full_replay` finds a window.
use mathlib.Core.List.{Perm}
use mathlib.Core.List.Perm
use mathlib.Core.Path.{subst}
use agent_console.Base.{
  All, arith, eqb, inl, inr, leb, length, List, map, none, Option-cases, refl, some, sym, true, [],
  ℕ, ◌++◌, ◌+◌, ◌-◌, ◌<◌, ◌∷◌, ◌≡◌, ◌≢◌, ◌≤◌, ◌⊎◌,
}
use agent_console.Relay.Frame.Messages.{Frame}
use agent_console.Relay.Streams.State.{DStream}
use agent_console.Relay.Streams.Replay.{
  complete, contiguous_from, full_replay, full_window, seq_of, sort_by_seq, surviving_frames,
}
use agent_console.Relay.Streams.Replay.Unique.{Ascends, ascending_unique}
use agent_console.Relay.Streams.Replay.Windows.{
  full_replay-IsFull, IsAscending, IsFull, IsNumbered, sort_by_seq-IsAscending, sort_by_seq-perm,
}

module _ {M : Type 0} where
  IsAscending-Ascends : (fs : List (Frame M)) → IsAscending fs → Ascends (map seq_of fs)
  IsAscending-Ascends [] a = tt
  IsAscending-Ascends (f ∷ fs) a = (all_numbers fs a.0, IsAscending-Ascends fs a.1)
    where
      all_numbers :
          (gs : List (Frame M))
          → All (λ g. seq_of f ≤ seq_of g) gs
          → All (λ n. seq_of f ≤ n) (map seq_of gs)
      all_numbers [] b = tt
      all_numbers (g ∷ gs) b = (b.0, all_numbers gs b.1)

  IsNumbered-above :
      (n m : ℕ) (fs : List (Frame M)) → n ≤ m → IsNumbered m fs → All (λ k. n ≤ k) (map seq_of fs)
  IsNumbered-above n m [] l c = tt
  IsNumbered-above n m (f ∷ fs) l c =
      (omega (arith, l, c.0), IsNumbered-above n (m + 1) fs (omega (arith, l)) c.1)

  IsNumbered-Ascends : (n : ℕ) (fs : List (Frame M)) → IsNumbered n fs → Ascends (map seq_of fs)
  IsNumbered-Ascends n [] c = tt
  IsNumbered-Ascends n (f ∷ fs) c = (
    IsNumbered-above (seq_of f) (n + 1) fs (omega (arith, c.0)) c.1,
    IsNumbered-Ascends (n + 1) fs c.1,
  )

  IsNumbered-alike :
      (n : ℕ) (fs gs : List (Frame M))
      → map seq_of fs ≡ map seq_of gs
      → IsNumbered n gs
      → IsNumbered n fs
  IsNumbered-alike n [] gs e c = tt
  IsNumbered-alike n (f ∷ fs) [] e c = cc
  IsNumbered-alike n (f ∷ fs) (g ∷ gs) e c =
      let head : seq_of f ≡ seq_of g = ground arith in
      let tail : map seq_of fs ≡ map seq_of gs = ground arith in
      (omega (arith, head, c.0), IsNumbered-alike (n + 1) fs gs tail c.1)

  same_length : (fs gs : List (Frame M)) → map seq_of fs ≡ map seq_of gs → length fs ≡ length gs
  same_length [] [] e = refl
  same_length [] (g ∷ gs) e = cc
  same_length (f ∷ fs) [] e = cc
  same_length (f ∷ fs) (g ∷ gs) e =
      let tail : map seq_of fs ≡ map seq_of gs = ground arith in
      omega (arith, same_length fs gs tail)

  -- Ascending frames that are a rearrangement of numbered ones are numbered alike.
  IsNumbered-perm :
      (n : ℕ) (fs gs : List (Frame M))
      → IsAscending fs
      → IsNumbered n gs
      → Perm fs gs
      → IsNumbered n fs × (length fs ≡ length gs)
  IsNumbered-perm n fs gs a c p =
      let same =
        ascending_unique (map seq_of fs) (map seq_of gs) (IsAscending-Ascends fs a)
          (IsNumbered-Ascends n gs c) (Perm.map seq_of p) in
      (IsNumbered-alike n fs gs same c, same_length fs gs same)

  pub contiguous_from-of_IsNumbered :
      (n : ℕ) (fs : List (Frame M)) → IsNumbered n fs → contiguous_from n fs ≡ true
  unfolding contiguous_from
  contiguous_from-of_IsNumbered n [] c = refl
  contiguous_from-of_IsNumbered n (f ∷ fs) c =
      ground (arith, c.0, contiguous_from-of_IsNumbered (n + 1) fs c.1)

  complete-of_IsNumbered :
      (n next : ℕ) (fs : List (Frame M))
      → IsNumbered n fs
      → n + length fs ≡ next
      → complete n next fs ≡ true
  complete-of_IsNumbered n next fs c l =
      let run = contiguous_from-of_IsNumbered n fs c in
      let below : leb n next ≡ true = ground (arith, l) in
      let same : eqb (length fs) (next - n) ≡ true = ground (arith, l) in rw (below, same, run) refl

  full_window-of_IsNumbered :
      (d : DStream M) (n : ℕ) (fs : List (Frame M))
      → IsNumbered n fs
      → 0 < length fs
      → n + length fs ≡ d.next_seq
      → full_window d fs ≢ none
  full_window-of_IsNumbered d n [] c p l = absurd (omega (arith, p))
  full_window-of_IsNumbered d n (f ∷ fs) c p l =
      let whole : complete (seq_of f) d.next_seq (f ∷ fs) ≡ true =
        subst (λ k. complete k d.next_seq (f ∷ fs) ≡ true) (sym c.0)
          (complete-of_IsNumbered n d.next_seq (f ∷ fs) c l) in
      rw whole (λ h. cc)

  full_replay-none :
      (d : DStream M) (base : ℕ) (frames : List (Frame M))
      → full_replay d ≡ none
      → ¬ IsFull d base frames
  unfolding full_replay surviving_frames
  full_replay-none d base frames h (p, (n, c, l, e, b)) =
      let all = d.snapshots ++ d.buffer.items in
      let (run, size) =
        IsNumbered-perm n (sort_by_seq all) frames (sort_by_seq-IsAscending all) c
          (Perm.trans (sort_by_seq-perm all) (Perm.symm p)) in
      full_window-of_IsNumbered d n (sort_by_seq all) run (omega (arith, size, l))
        (omega (arith, size, e)) h

  -- `full_replay` finds a window exactly when there is one: it returns the base and the frames of
  -- a window that has no gap, that holds each surviving frame once and that ends before the next
  -- number; or it returns nothing, and then no arrangement of the surviving frames is such a
  -- window.
  pub full_replay-decides :
      (d : DStream M)
      → (((base : ℕ) × (frames : List (Frame M)) × (full_replay d ≡ some (base, frames))
            × IsFull d base frames)
          ⊎ ((full_replay d ≡ none)
              × ¬ ((base : ℕ) × (frames : List (Frame M)) × IsFull d base frames)))
  full_replay-decides d = elim (Option-cases (full_replay d)) [
    | inl e ↦ inr (e, λ w. full_replay-none d w.0 w.1 e w.2)
    | inr ((base, frames), e) ↦ inl (base, frames, e, full_replay-IsFull d base frames e)
  ]
