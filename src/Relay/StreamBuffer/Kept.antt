-- ===== src/Relay/StreamBuffer/Kept.antt =====
-- A property of frames that merging keeps is kept by `insert`.
use mathlib.Core.Path.{subst}
use agent_console.Base.{
  ◌∷◌, ◌≡◌, All, All-append, All-init, All-rest, if_cases, inl, inr, length, List, Option-cases,
  some, split_last, split_last-some, [], ℕ,
}
use agent_console.Relay.Frame.Messages.{Envelope, Frame, mergeable, recoverable}
use agent_console.Relay.Frame.Merge.{merge_pair}
use agent_console.Relay.Coalesce.{coalesce, drop_superseded, merge_adjacent, merge_scan, superseded}
use agent_console.Relay.StreamBuffer.{
  drop_replaced, evict_all, evict_or_reset, insert_frame, InsertOutcome, live_queue, place, placed,
  relieve, StreamBuffer, with_queue, within,
}
use agent_console.Relay.StreamBuffer.Queue.{drop_replaced-All, evict_expired-All, evict_kind-All}

module _ {M : Type 0} (encoded_len : Envelope M → ℕ) (P : Frame M → Type 0) where
  abbrev pub IsMergeStable : Type 0
  IsMergeStable =
      (now : ℕ) (a b m : Frame M) → merge_pair encoded_len now a b ≡ some m → P a → P b → P m

  drop_superseded-All : (fs : List (Frame M)) → All P fs → All P (drop_superseded fs)
  unfolding drop_superseded
  drop_superseded-All [] a = tt
  drop_superseded-All (f ∷ fs) a =
      if_cases (All P) (superseded f.merge fs) _ _ (λ _. drop_superseded-All fs a.1)
        (λ _. (a.0, drop_superseded-All fs a.1))

  module _ (stable : IsMergeStable) where
    merge_scan-All :
        (now : ℕ) (last : Frame M) (n : ℕ) (fs : List (Frame M))
        → P last
        → All P fs
        → All P (merge_scan encoded_len now last n fs).0
    unfolding merge_scan
    merge_scan-All now last n [] p a = (p, tt)
    merge_scan-All now last n (f ∷ fs) p a =
        elim (Option-cases (merge_pair encoded_len now last f)) [
          | inl e ↦ rw (e, merge_scan) (p, merge_scan-All now f _ fs a.0 a.1)
          | inr (m, e) ↦
              rw (e, merge_scan) (merge_scan-All now m _ fs (stable now last f m e p a.0) a.1)
        ]

    coalesce-All :
        (now : ℕ) (fs : List (Frame M)) → All P fs → All P (coalesce encoded_len now fs).0
    unfolding coalesce
    coalesce-All now fs a = merged (drop_superseded fs) (drop_superseded-All fs a)
      where
        merged : (gs : List (Frame M)) → All P gs → All P (merge_adjacent encoded_len now gs).0
        merged [] b = tt
        merged (g ∷ gs) b = merge_scan-All now g g.bytes_len gs b.0 b.1

    place-All :
        (now : ℕ) (frame : Frame M) (fs : List (Frame M)) (n : ℕ)
        → P frame
        → All P fs
        → All P (place encoded_len now frame fs n).0
    unfolding place
    place-All now frame fs n p a =
        let apart =
          All-append P (drop_replaced frame.merge fs n).0 (frame ∷ [])
            (drop_replaced-All P frame.merge fs n a) (p, tt) in
        elim (Option-cases (split_last fs)) [
          | inl e ↦ rw (e, place) apart
          | inr ((front, prev), e) ↦
              let parts = subst (All P) (split_last-some fs front prev e) a in
              elim (Option-cases (merge_pair encoded_len now prev frame)) [
                | inl x ↦ rw (e, place) (rw x apart)
                | inr (m, x) ↦
                    rw (e, place)
                      (rw x (
                        All-append P front (m ∷ []) (All-init P front (prev ∷ []) parts)
                          (stable now prev frame m x (All-rest P front (prev ∷ []) parts).0 p, tt)))
              ]
        ]

    evict_or_reset-All : (b : StreamBuffer M) → All P b.items → All P (evict_or_reset b).0.items
    unfolding evict_or_reset
    evict_or_reset-All b a =
        let first = evict_kind-All P (length b.items) mergeable b a in
        let b1 = evict_all mergeable b in
        let Q = λ (r : StreamBuffer M × InsertOutcome). All P r.0.items in
        if_cases Q (within b1) _ _ (λ _. first)
          λ _.
            if_cases Q (within (evict_all recoverable b1)) _ _
              (λ _. evict_kind-All P (length b1.items) recoverable b1 first) (λ _. tt)

    -- What the frames of a buffer and the new one have, and merging keeps, the frames have that
    -- the insertion leaves.
    pub insert_frame-All :
        (now : ℕ) (frame : Frame M) (b : StreamBuffer M)
        → P frame
        → All P b.items
        → All P (insert_frame encoded_len now frame b).0.items
    unfolding insert_frame placed relieve
    insert_frame-All now frame b p a =
        let q = live_queue encoded_len now b in
        let b1 = with_queue encoded_len b (place encoded_len now frame q.0 q.1) in
        let live = evict_expired-All P now b.retention b.items b.bytes a in
        let joined = place-All now frame q.0 q.1 p live in
        let b2 = with_queue encoded_len b1 (coalesce encoded_len now b1.items) in
        let merged = coalesce-All now b1.items joined in
        let Q = λ (r : StreamBuffer M × InsertOutcome). All P r.0.items in
        if_cases Q (within b1) _ _ (λ _. joined)
          λ _. if_cases Q (within b2) _ _ (λ _. merged) (λ _. evict_or_reset-All b2 merged)
