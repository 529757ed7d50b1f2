-- ===== src/Relay/Streams/Replay/Anchored.antt =====
-- The window that `anchored_replay` hands out: its order, its contents and its base.
use mathlib.Core.List.{Perm, append-nil}
use mathlib.Core.List.Perm
use agent_console.Base.{
  any, arith, Bool-cases, eqb, false, inl, inr, length, List, nat_eq, refl, true, [], ℕ, ◌&&◌, ◌++◌,
  ◌+◌, ◌-◌, ◌∷◌, ◌≡◌, ◌⊎◌,
}
use agent_console.Relay.Frame.Messages.{Frame}
use agent_console.Relay.Streams.State.{DStream}
use agent_console.Relay.Streams.Replay.{
  anchor_of, anchored_replay, anchored_tail, base_of, contiguous_from, seq_of, sort_by_seq,
  tail_after,
}
use agent_console.Relay.Streams.Replay.Windows.{
  contiguous_from-IsNumbered, IsAscending, IsNumbered, replay_base-cases, sort_by_seq-IsAscending,
  sort_by_seq-perm,
}
use agent_console.Relay.Streams.Replay.Complete.{contiguous_from-of_IsNumbered}

module _ {M : Type 0} where
  -- Every number after the latest snapshot that was given out is that of a frame in the buffer.
  abbrev pub IsWhole : DStream M → Type 0
  IsWhole d =
      IsNumbered (anchor_of d + 1) (tail_after (anchor_of d) d)
      × (length (tail_after (anchor_of d) d) ≡ d.next_seq - (anchor_of d + 1))

  -- The base is the number of the first frame if that is a cached snapshot's, and one less if not;
  -- it is zero if there is no frame.
  abbrev pub IsBased : DStream M → ℕ → List (Frame M) → Type 0
  IsBased d base [] = base ≡ 0
  IsBased d base (f ∷ fs) =
      ((base ≡ seq_of f) × (any (λ s. eqb (seq_of s) (seq_of f)) d.snapshots ≡ true))
      ⊎ ((base ≡ seq_of f - 1) × (any (λ s. eqb (seq_of s) (seq_of f)) d.snapshots ≡ false))

  -- The anchored window: every cached snapshot in order, with all the buffered frames after the
  -- latest one exactly if they are there without a gap.
  abbrev pub IsAnchored : DStream M → ℕ × List (Frame M) → Type 0
  IsAnchored d r =
      IsAscending r.1
      × IsBased d r.0 r.1
      × ((IsWhole d × Perm r.1 (d.snapshots ++ tail_after (anchor_of d) d))
          ⊎ ((¬ IsWhole d) × Perm r.1 d.snapshots))

  base_of-IsBased : (d : DStream M) (fs : List (Frame M)) → IsBased d (base_of d fs) fs
  base_of-IsBased d [] = refl
  base_of-IsBased d (f ∷ fs) = replay_base-cases d f

  anchored_tail-cases :
      (d : DStream M)
      → (IsWhole d × (anchored_tail (anchor_of d) d ≡ tail_after (anchor_of d) d))
        ⊎ ((¬ IsWhole d) × (anchored_tail (anchor_of d) d ≡ []))
  unfolding anchored_tail
  anchored_tail-cases d =
      let anchor = anchor_of d in
      let tail = tail_after anchor d in
      elim (Bool-cases
        (eqb (length tail) (d.next_seq - (anchor + 1)) && contiguous_from (anchor + 1) tail)) [
          | inr q ↦ inr (not_whole d q, rw q refl)
          | inl q ↦ inl (
            (contiguous_from-IsNumbered (anchor + 1) tail (ground arith), ground arith),
            rw q refl,
          )
        ]
    where
      not_whole :
          (d : DStream M)
          → (eqb (length (tail_after (anchor_of d) d)) (d.next_seq - (anchor_of d + 1))
              && contiguous_from (anchor_of d + 1) (tail_after (anchor_of d) d))
            ≡ false
          → ¬ IsWhole d
      not_whole d q (c, l) =
          let run =
            contiguous_from-of_IsNumbered (anchor_of d + 1) (tail_after (anchor_of d) d) c in
          absurd (ground (arith, run, l, q))

  -- `anchored_replay` always returns its frames in ascending order, and the base that belongs to
  -- the first. If the buffered frames after the latest snapshot are numbered on from it without a
  -- gap to the last number given out, the frames are all cached snapshots and all of those;
  -- otherwise they are the cached snapshots alone.
  pub anchored_replay-IsAnchored : (d : DStream M) → IsAnchored d (anchored_replay d)
  unfolding anchored_replay
  anchored_replay-IsAnchored d =
      let frames = d.snapshots ++ anchored_tail (anchor_of d) d in
      let sorted = sort_by_seq-perm frames in
      (
        sort_by_seq-IsAscending frames,
        base_of-IsBased d (sort_by_seq frames),
        elim (anchored_tail-cases d) [
          | inl (whole, e) ↦ inl (whole, Perm.trans sorted (rw e Perm.rfl))
          | inr (broken, e) ↦
              inr (broken, Perm.trans sorted (rw (e, append-nil d.snapshots) Perm.rfl))
        ],
      )
