-- ===== src/Relay/Streams/Sound.antt =====
-- What holds of a stream at all times, and that the parts of the handlers keep it.
use agent_console.Base.{
  ◌++◌, ◌==◌, ◌∷◌, ◌≡◌, ◌<◌, ◌≤◌, ◌+◌, All, All-append, arith, Bool, if_cases, insert, keep, length,
  List, ltb, nat_eq, not, refl, String, string_eq, true, [], ℕ,
}
use agent_console.Relay.Frame.Messages.{Envelope, Event, Frame}
use agent_console.Relay.Frame.Merge.{with_upstream_seq}
use agent_console.Relay.Frame.Lossless.{merge-Continues}
use agent_console.Relay.StreamBuffer.{clear, covered, retain_uncovered, StreamBuffer}
use agent_console.Relay.StreamBuffer
use agent_console.Relay.StreamBuffer.Kept.{insert_frame-All, IsMergeStable}
use agent_console.Relay.StreamBuffer.Queue.{All-map}
use agent_console.Relay.Streams.State.{DKey, DStream, new, snapshot_cache_max, UpstreamBinding}
use agent_console.Relay.Streams.Stash.{clear_pending}
use agent_console.Relay.Streams.Stash.Budget.{IsCounted}
use agent_console.Relay.Streams.Replay.{cache_snapshot, seq_of, trim_snapshots}
use agent_console.Relay.Streams.Hub.{forget}
use agent_console.Relay.Streams.Publish.{numbered}
use agent_console.Relay.Streams.Upstream.{snapshot_frame, with_snapshot}

module _ {M : Type 0} where
  -- Every frame has a number that has been given out.
  abbrev pub AreBelow : ℕ → List (Frame M) → Type 0
  AreBelow n fs = All (λ f. seq_of f < n) fs

  module _ (event_len : Event M → ℕ) where
    -- The counts of the stash are exact, the cached and the buffered frames have numbers below the
    -- next one, and the cache of snapshots is within its limit.
    pub record IsSound (d : DStream M) : Type 0 where
      pub counted : IsCounted event_len d
      pub snapshots_below : AreBelow d.next_seq d.snapshots
      pub buffer_below : AreBelow d.next_seq d.buffer.items
      pub cached : length d.snapshots ≤ snapshot_cache_max

    -- Only the named parts of the state matter.
    pub new-IsSound : (id : String) (key : DKey) → IsSound (new id key)
    unfolding new StreamBuffer.new
    new-IsSound id key = record {
      counted = (refl, refl);
      snapshots_below = tt;
      buffer_below = tt;
      cached = omega arith;
    }

    pub forget-IsSound : (d : DStream M) → IsSound (forget d)
    unfolding forget clear clear_pending
    forget-IsSound d = record {
      counted = (refl, refl);
      snapshots_below = tt;
      buffer_below = tt;
      cached = omega arith;
    }

  AreBelow-later : (n : ℕ) (fs : List (Frame M)) → AreBelow n fs → AreBelow (n + 1) fs
  AreBelow-later n fs a = All-map (λ f. seq_of f < n) fs (λ f l. omega (arith, l)) a

  AreBelow-keep :
      (n : ℕ) (p : Frame M → Bool) (fs : List (Frame M)) → AreBelow n fs → AreBelow n (keep p fs)
  AreBelow-keep n p [] a = tt
  AreBelow-keep n p (f ∷ fs) a =
      if_cases (AreBelow n) (p f) _ _ (λ _. (a.0, AreBelow-keep n p fs a.1))
        (λ _. AreBelow-keep n p fs a.1)

  trim_snapshots-AreBelow :
      (n : ℕ) (fs : List (Frame M)) → AreBelow n fs → AreBelow n (trim_snapshots fs)
  unfolding trim_snapshots
  trim_snapshots-AreBelow n [] a = tt
  trim_snapshots-AreBelow n (f ∷ fs) a =
      if_cases (AreBelow n) (ltb snapshot_cache_max (length (f ∷ fs))) _ _
        (λ _. trim_snapshots-AreBelow n fs a.1) (λ _. a)

  trim_snapshots-le : (fs : List (Frame M)) → length (trim_snapshots fs) ≤ snapshot_cache_max
  unfolding trim_snapshots
  trim_snapshots-le [] = omega arith
  trim_snapshots-le (f ∷ fs) =
      if_cases (λ (gs : List (Frame M)). length gs ≤ snapshot_cache_max)
        (ltb snapshot_cache_max (length (f ∷ fs))) _ _ (λ _. trim_snapshots-le fs)
        (λ e. ground arith)

  cache_snapshot-AreBelow :
      (n : ℕ) (f : Frame M) (d : DStream M)
      → seq_of f < n
      → AreBelow n d.snapshots
      → AreBelow n (cache_snapshot f d).snapshots
  unfolding cache_snapshot
  cache_snapshot-AreBelow n f d l a =
      let others = keep (λ s. not (s.env.device_id == f.env.device_id)) d.snapshots in
      trim_snapshots-AreBelow n (others ++ f ∷ [])
        (All-append (λ g. seq_of g < n) others (f ∷ []) (AreBelow-keep n _ d.snapshots a) (l, tt))

  cache_snapshot-le :
      (f : Frame M) (d : DStream M) → length (cache_snapshot f d).snapshots ≤ snapshot_cache_max
  unfolding cache_snapshot
  cache_snapshot-le f d =
      trim_snapshots-le (keep (λ s. not (s.env.device_id == f.env.device_id)) d.snapshots ++ f ∷ [])

  cached_on :
      (event_len : Event M → ℕ) (f : Frame M) (d : DStream M)
      → IsCounted event_len d
      → AreBelow d.next_seq (cache_snapshot f d).snapshots
      → AreBelow d.next_seq d.buffer.items
      → IsSound event_len (cache_snapshot f d)
  unfolding cache_snapshot
  cached_on event_len f d c a b = record {
    counted = c;
    snapshots_below = a;
    buffer_below = b;
    cached = cache_snapshot-le f d;
  }

  module _ (encoded_len : Envelope M → ℕ) (now : ℕ) where
    below_stable : (n : ℕ) → IsMergeStable encoded_len (λ f. seq_of f < n)
    below_stable n at a b m e p q =
        let same = (merge-Continues encoded_len at a b m e).sequence in omega (arith, same, p)

    -- A frame with the next number joins.
    pub numbered-IsSound :
        (event_len : Event M → ℕ) (f : Frame M) (d : DStream M)
        → seq_of f ≡ d.next_seq
        → IsSound event_len d
        → IsSound event_len (numbered encoded_len now f d).0
    numbered-IsSound event_len f d e s = record {
      counted = s.counted;
      snapshots_below = AreBelow-later d.next_seq d.snapshots s.snapshots_below;
      buffer_below =
          insert_frame-All encoded_len (λ g. seq_of g < d.next_seq + 1)
            (below_stable (d.next_seq + 1)) now f d.buffer (omega (arith, e))
            (AreBelow-later d.next_seq d.buffer.items s.buffer_below);
      cached = s.cached;
    }

    pub with_snapshot-IsSound :
        (event_len : Event M → ℕ) (uid : String) (env : Envelope M) (b : UpstreamBinding)
        (d : DStream M)
        → IsSound event_len d
        → IsSound event_len (with_snapshot encoded_len now uid env b d)
    unfolding with_snapshot snapshot_frame with_upstream_seq clear_pending retain_uncovered
    with_snapshot-IsSound event_len uid env b d s =
        let f = snapshot_frame encoded_len now env d in
        let e = record (clear_pending d) {
          upstreams = insert uid (record b { snapshot_received = true }) d.upstreams;
          buffer = (retain_uncovered env.device_id b.snapshot_covers d.buffer).0;
          next_seq = d.next_seq + 1;
        } in
        let caches =
          cache_snapshot-AreBelow (d.next_seq + 1) f e (omega arith)
            (AreBelow-later d.next_seq d.snapshots s.snapshots_below) in
        cached_on event_len f e (refl, refl) caches
          (AreBelow-keep (d.next_seq + 1) (λ g. not (covered env.device_id b.snapshot_covers g))
            d.buffer.items (AreBelow-later d.next_seq d.buffer.items s.buffer_below))
