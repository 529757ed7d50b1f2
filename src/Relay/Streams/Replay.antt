-- ===== src/Relay/Streams/Replay.antt =====
-- The snapshot cache of a stream and the windows that it replays, in
-- apps/relay/src/realtime/mod.rs. `sort_by_key` is a stable insertion sort here. A frame is known
-- by its sequence number: no two frames of a stream share one, so that `replay_base` compares
-- numbers where the source compares pointers.
pub mod Unique
pub mod Windows
pub mod Complete
pub mod Anchored
use agent_console.Base.{
  any, Bool, eqb, if◌then◌else◌, keep, leb, length, List, ltb, nat_eq, none, not, Option, some,
  split_last, string_eq, suc, true, [], ℕ, ◌&&◌, ◌++◌, ◌+◌, ◌-◌, ◌==◌, ◌∷◌,
}
use agent_console.Relay.Frame.Messages.{Frame}
use agent_console.Relay.Streams.State.{DStream, snapshot_cache_max}

abbrev pub or_zero : Option ℕ → ℕ
or_zero none = 0
or_zero (some n) = n

module _ {M : Type 0} where
  abbrev pub seq_of : Frame M → ℕ
  seq_of f = f.env.sequence

  -- `pop_front` while the cache is too long.
  unfoldable pub trim_snapshots : List (Frame M) → List (Frame M)
  trim_snapshots [] = []
  trim_snapshots (f ∷ fs) =
      let rest = trim_snapshots fs in
      if ltb snapshot_cache_max (length (f ∷ fs)) then rest else f ∷ fs

  unfoldable pub cache_snapshot : Frame M → DStream M → DStream M
  unfolding trim_snapshots
  cache_snapshot f d = record d {
    snapshots =
        trim_snapshots (keep (λ s. not (s.env.device_id == f.env.device_id)) d.snapshots ++ f ∷ []);
  }

  unfoldable pub latest_snapshot_seq : DStream M → Option ℕ
  unfolding split_last
  latest_snapshot_seq d = elim (split_last d.snapshots) [
    | none ↦ none
    | some (front, f) ↦ some (seq_of f)
  ]

  -- Before the frames with the same or a higher number, which keeps the sort stable.
  unfoldable pub insert_by_seq : Frame M → List (Frame M) → List (Frame M)
  insert_by_seq f [] = f ∷ []
  insert_by_seq f (g ∷ gs) =
      let rest = insert_by_seq f gs in if leb (seq_of f) (seq_of g) then f ∷ g ∷ gs else g ∷ rest

  unfoldable pub sort_by_seq : List (Frame M) → List (Frame M)
  unfolding insert_by_seq
  sort_by_seq [] = []
  sort_by_seq (f ∷ fs) = insert_by_seq f (sort_by_seq fs)

  unfoldable pub surviving_frames : DStream M → List (Frame M)
  unfolding sort_by_seq
  surviving_frames d = sort_by_seq (d.snapshots ++ d.buffer.items)

  unfoldable pub replay_base : DStream M → Frame M → ℕ
  replay_base d first =
      if any (λ s. eqb (seq_of s) (seq_of first)) d.snapshots
      then seq_of first
      else seq_of first - 1

  -- The numbers count up from `n`.
  unfoldable pub contiguous_from : ℕ → List (Frame M) → Bool
  contiguous_from n [] = true
  contiguous_from n (f ∷ fs) = eqb (seq_of f) n && contiguous_from (n + 1) fs

  -- A subtraction below zero is `None`.
  abbrev pub complete : ℕ → ℕ → List (Frame M) → Bool
  complete lo next frames =
      (leb lo next && eqb (length frames) (next - lo)) && contiguous_from lo frames

  abbrev pub full_window : DStream M → List (Frame M) → Option (ℕ × List (Frame M))
  full_window d [] = none
  full_window d (f ∷ fs) =
      if complete (seq_of f) d.next_seq (f ∷ fs) then some (replay_base d f, f ∷ fs) else none

  unfoldable pub full_replay : DStream M → Option (ℕ × List (Frame M))
  unfolding surviving_frames replay_base contiguous_from
  full_replay d = full_window d (surviving_frames d)

  abbrev pub anchor_of : DStream M → ℕ
  anchor_of d = or_zero (latest_snapshot_seq d)

  abbrev pub tail_after : ℕ → DStream M → List (Frame M)
  tail_after anchor d = keep (λ f. ltb anchor (seq_of f)) d.buffer.items

  -- The buffered frames after the anchor, if none is missing.
  unfoldable pub anchored_tail : ℕ → DStream M → List (Frame M)
  unfolding contiguous_from
  anchored_tail anchor d =
      let tail = tail_after anchor d in
      if eqb (length tail) (d.next_seq - (anchor + 1)) && contiguous_from (anchor + 1) tail
      then tail
      else []

  abbrev pub base_of : DStream M → List (Frame M) → ℕ
  base_of d [] = 0
  base_of d (f ∷ fs) = replay_base d f

  unfoldable pub anchored_replay : DStream M → ℕ × List (Frame M)
  unfolding sort_by_seq replay_base latest_snapshot_seq anchored_tail
  anchored_replay d =
      let frames = sort_by_seq (d.snapshots ++ anchored_tail (anchor_of d) d) in
      (base_of d frames, frames)

  abbrev pub or_anchored : DStream M → Option (ℕ × List (Frame M)) → ℕ × List (Frame M)
  or_anchored d (some r) = r
  or_anchored d none = anchored_replay d

  -- The window that a handler replays: the full one, or the anchored one.
  unfoldable pub replay : DStream M → ℕ × List (Frame M)
  unfolding full_replay anchored_replay
  replay d = or_anchored d (full_replay d)
