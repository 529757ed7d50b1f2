-- ===== src/Relay/Streams/Handlers.antt =====
-- Each handler of a stream keeps what holds of the streams at all times.
use agent_console.Base.{
  ◌∷◌, ◌≡◌, Bool, Bool-cases, if_cases, inl, inr, List, lookup, Option-cases, refl, remove, String,
  string_eq, suc, Table, zero, [], ℕ,
}
use agent_console.Relay.Frame.Messages.{Envelope, Event, Frame}
use agent_console.Relay.Frame.Merge.{with_upstream_seq}
use agent_console.Relay.Outbox.{Outbox}
use agent_console.Relay.StreamBuffer.{buffered, InsertOutcome, overflow_reset}
use agent_console.Relay.Streams.State.{
  DKey, DStream, dkey_eq, PendingUpstreamBatch, SubscriberState, UpstreamBinding,
}
use agent_console.Relay.Streams.Stash.{
  evicted, evict_one, over_budget, push_pending, relieve_pending, stashed,
}
use agent_console.Relay.Streams.Stash.Budget.{push_pending-Settles}
use agent_console.Relay.Streams.Hub.{
  Control, detach_all, detach_failed_subscriber, forget, keys, View,
}
use agent_console.Relay.Streams.Publish.{
  event_frame, Incoming, numbered, publish, publish_all, spread,
}
use agent_console.Relay.Streams.Upstream.{
  deliver_snapshot, flush, flush_one, hand_to, publish_batch, refresh_snapshot_envs, settle,
}
use agent_console.Relay.Streams.Replay.{replay}
use agent_console.Relay.Streams.Sound.{forget-IsSound, IsSound, numbered-IsSound}

module _ {M : Type 0} (event_len : Event M → ℕ) where
  -- Neither the subscribers nor the upstreams nor the epoch matter.
  pub reseat-IsSound :
      (d : DStream M) (subs : Table String SubscriberState) (ups : Table String UpstreamBinding)
      (epoch : ℕ)
      → IsSound event_len d
      → IsSound event_len (record d { subscribers = subs; upstreams = ups; epoch = epoch })
  reseat-IsSound d subs ups epoch s = record {
    counted = s.counted;
    snapshots_below = s.snapshots_below;
    buffer_below = s.buffer_below;
    cached = s.cached;
  }

  pub refresh-IsSound :
      (force : Bool) (d : DStream M) → IsSound event_len (refresh_snapshot_envs force d).0
  unfolding refresh_snapshot_envs
  refresh-IsSound force d =
      let e = forget d in reseat-IsSound e e.subscribers _ e.epoch (forget-IsSound event_len d)

  -- What the loop of the stash leaves alone.
  IsElsewhereSame : DStream M → DStream M → Type 0
  IsElsewhereSame d e =
      (e.snapshots ≡ d.snapshots) × (e.buffer ≡ d.buffer) × (e.next_seq ≡ d.next_seq)

  relieve_pending-IsElsewhereSame :
      (fuel : ℕ) (d : DStream M) → IsElsewhereSame d (relieve_pending event_len fuel d).0
  unfolding relieve_pending IsElsewhereSame
  relieve_pending-IsElsewhereSame zero d = (refl, refl, refl)
  relieve_pending-IsElsewhereSame (suc fuel) d = elim (Bool-cases (over_budget d)) [
    | inr o ↦ rw (o, relieve_pending) (refl, refl, refl)
    | inl o ↦ elim (Option-cases (evict_one d.pending_batches)) [
      | inl n ↦ rw (o, relieve_pending) (rw n (refl, refl, refl))
      | inr ((e, rest), n) ↦
          rw (o, relieve_pending)
            (rw n (relieve_pending-IsElsewhereSame fuel (evicted event_len e rest d)))
    ]
  ]

  pub push_pending-IsSound :
      (batch : PendingUpstreamBatch M) (d : DStream M)
      → IsSound event_len d
      → IsSound event_len (push_pending event_len batch d).0
  unfolding push_pending IsElsewhereSame
  push_pending-IsSound batch d s =
      let e = stashed event_len batch d in
      let (x, y, z) = relieve_pending-IsElsewhereSame (suc e.pending_events) e in
      record {
        counted = (push_pending-Settles event_len batch d s.counted).0;
        snapshots_below = rw (x, z) s.snapshots_below;
        buffer_below = rw (y, z) s.buffer_below;
        cached = rw x s.cached;
      }

  module _ (encode_direct : Control → List ℕ) where
    pub detach_all-IsSound :
        (key : DKey) (cs : List String) (v : View M)
        → IsSound event_len v.stream
        → IsSound event_len (detach_all encode_direct key cs v).stream
    unfolding detach_all detach_failed_subscriber
    detach_all-IsSound key [] v s = s
    detach_all-IsSound key (c ∷ cs) v s =
        detach_all-IsSound key cs (detach_failed_subscriber encode_direct key c v) (
          reseat-IsSound v.stream (remove c v.stream.subscribers) v.stream.upstreams v.stream.epoch
            s)

    settle-IsSound :
        (c : String) (s : SubscriberState) (k : Bool × Outbox M) (r : View M × List String)
        → IsSound event_len r.0.stream
        → IsSound event_len (settle c s k r).0.stream
    settle-IsSound c s k r h =
        let d = r.0.stream in
        if_cases (λ (q : View M × List String). IsSound event_len q.0.stream) k.0 _ _
          (λ _. reseat-IsSound d _ d.upstreams d.epoch h) (λ _. h)

    flush-IsSound :
        (f : Frame M) (window : ℕ × List (Frame M)) (cs : List String) (r : View M × List String)
        → IsSound event_len r.0.stream
        → IsSound event_len (flush encode_direct f window cs r).0.stream
    unfolding flush flush_one
    flush-IsSound f window [] r h = h
    flush-IsSound f window (c ∷ cs) r h =
        flush-IsSound f window cs (flush_one encode_direct f window c r) one
      where
        one : IsSound event_len (flush_one encode_direct f window c r).0.stream
        one = elim (Option-cases (lookup c r.0.browsers)) [
          | inl n ↦ rw (n, flush_one) h
          | inr (o, n) ↦ elim (Option-cases (lookup c r.0.stream.subscribers)) [
            | inl m ↦ rw (n, flush_one) (rw m h)
            | inr (s, m) ↦
                rw (n, flush_one)
                  (rw m (settle-IsSound c s (hand_to encode_direct f window r.0.stream s o) r h))
          ]
        ]

    pub deliver_snapshot-IsSound :
        (key : DKey) (f : Frame M) (v : View M)
        → IsSound event_len v.stream
        → IsSound event_len (deliver_snapshot encode_direct key f v).stream
    unfolding deliver_snapshot
    deliver_snapshot-IsSound key f v s =
        let r = flush encode_direct f (replay v.stream) (keys v.stream.subscribers) (v, []) in
        detach_all-IsSound key r.1 r.0
          (flush-IsSound f (replay v.stream) (keys v.stream.subscribers) (v, []) s)

    module _ (encoded_len : Envelope M → ℕ) (message_id : ℕ → String) (now : ℕ) where
      spread-IsSound :
          (f : Frame M) (k : DStream M × InsertOutcome) (r : View M × List String)
          → IsSound event_len k.0
          → IsSound event_len (spread encode_direct f k r).0.stream
      spread-IsSound f (d, overflow_reset) r s = s
      spread-IsSound f (d, buffered) r s = s

      publish_all-IsSound :
          (inc : Incoming) (es : List (Event M)) (r : View M × List String)
          → IsSound event_len r.0.stream
          → IsSound event_len
              (publish_all encoded_len encode_direct message_id now inc es r).0.stream
      unfolding publish_all publish event_frame with_upstream_seq
      publish_all-IsSound inc [] r s = s
      publish_all-IsSound inc (e ∷ es) r s =
          let f = event_frame encoded_len message_id now inc r.0.stream e in
          publish_all-IsSound inc es _ (
            spread-IsSound f (numbered encoded_len now f r.0.stream) r
              (numbered-IsSound encoded_len now event_len f r.0.stream refl s))

      pub publish_batch-IsSound :
          (key : DKey) (inc : Incoming) (es : List (Event M)) (v : View M)
          → IsSound event_len v.stream
          → IsSound event_len
              (publish_batch encoded_len event_len encode_direct message_id now key inc es v).stream
      unfolding publish_batch
      publish_batch-IsSound key inc es v s =
          let r = publish_all encoded_len encode_direct message_id now inc es (v, []) in
          detach_all-IsSound key r.1 r.0 (publish_all-IsSound inc es (v, []) s)
