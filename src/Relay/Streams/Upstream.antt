-- ===== src/Relay/Streams/Upstream.antt =====
-- The handlers of what a bridge sends for a stream, in apps/relay/src/realtime/mod.rs:
-- `fan_out_events` and `handle_upstream_snapshot`. The push triggers that they collect for the web
-- push are left out.
use agent_console.Base.{
  ◌&&◌, ◌++◌, ◌+◌, ◌||◌, ◌∷◌, Bool, eqb, if◌then◌else◌, insert, is_none, keep, List, lookup, map,
  nat_eq, none, not, Option, some, String, string_eq, true, [], ℕ,
}
use agent_console.Relay.Frame.Messages.{critical, Envelope, Event, Frame}
use agent_console.Relay.Frame.Merge.{with_upstream_seq}
use agent_console.Relay.Outbox.{Outbox, PushError, push_frame}
use agent_console.Relay.StreamBuffer.{retain_uncovered}
use agent_console.Relay.Streams.State.{
  DKey, DStream, dkey_eq, PendingUpstreamBatch, SubscriberState, TargetTag, UpstreamBinding,
}
use agent_console.Relay.Streams.Stash.{clear_pending, push_pending}
use agent_console.Relay.Streams.Replay.{cache_snapshot, replay}
use agent_console.Relay.Streams.Hub.{
  announce_resync, ask, Control, detach_all, forget, goes_live, Hub, keys, put_view, rebound,
  replay_to, subscribed, update_all, View, view_of,
}
use agent_console.Relay.Streams.Publish.{Incoming, is_empty, placed_in, publish_all, seen}

module _ {M : Type 0} where
  abbrev pub find_upstream : String → Hub M → Option (DKey × DStream M × UpstreamBinding)
  find_upstream uid h = elim (lookup uid h.upstream_index) [
    | none ↦ none
    | some key ↦ elim (lookup key h.streams) [
      | none ↦ none
      | some d ↦ elim (lookup uid d.upstreams) [ none ↦ none | some b ↦ some (key, d, b) ]
    ]
  ]

  -- The subscriptions that `refresh_snapshot_envs` asks for.
  abbrev pub refresh_requests : Bool → DStream M → List (String × TargetTag)
  refresh_requests force d =
      map (λ e. (e.1.device, d.key.tag)) (keep (λ e. force || e.1.snapshot_received) d.upstreams)

  unfoldable pub refresh_snapshot_envs : Bool → DStream M → DStream M × List (String × TargetTag)
  unfolding forget
  refresh_snapshot_envs force d = (
    record (forget d) {
      upstreams =
          update_all (λ b. if force || b.snapshot_received then rebound b else b) d.upstreams;
    },
    refresh_requests force d,
  )

  abbrev pub batch_of : String → Incoming → List (Event M) → PendingUpstreamBatch M
  batch_of uid inc events = record {
    upstream_id = uid;
    upstream_seq = inc.sequence;
    sent_at = inc.sent_at;
    device_id = inc.device_id;
    events = events;
  }

  -- The upstream's mark moves on to the batch, if it has a number.
  abbrev pub advance : String → Incoming → UpstreamBinding → DStream M → DStream M
  advance uid inc b d =
      if eqb inc.sequence 0
      then d
      else record d { upstreams = insert uid (record b { last_seq = inc.sequence }) d.upstreams }

  -- The result of a delivery to one subscriber; a failed one is to be detached.
  abbrev pub settle :
      String → SubscriberState → Bool × Outbox M → View M × List String → View M × List String
  settle conn s (ok, o) (v, failed) =
      let d = v.stream in
      let w = record v { browsers = insert conn o v.browsers } in
      if ok
      then (
        record w { stream = record d { subscribers = insert conn (goes_live s) d.subscribers } },
        failed,
      )
      else (w, failed ++ conn ∷ [])

  abbrev pub accepted_by : Option PushError × Outbox M → Bool × Outbox M
  accepted_by (e, o) = (is_none e, o)

  abbrev pub incoming_of : PendingUpstreamBatch M → Incoming
  incoming_of p = record { sequence = p.upstream_seq; sent_at = p.sent_at; device_id = p.device_id }

  abbrev pub covers_of : DKey → String → Hub M → ℕ
  covers_of key uid h = elim (lookup key h.streams) [
    | none ↦ 0
    | some d ↦ elim (lookup uid d.upstreams) [ none ↦ 0 | some b ↦ b.snapshot_covers ]
  ]

  module _ (encode_direct : Control → List ℕ) where
    -- A waiting subscriber gets the answer and the window, a live one the snapshot's frame.
    abbrev pub hand_to :
        Frame M → ℕ × List (Frame M) → DStream M → SubscriberState → Outbox M → Bool × Outbox M
    hand_to f (base, frames) d s o =
        if s.awaiting_snapshot
        then replay_to (encode_direct (subscribed d.stream_id d.epoch base s.subscribe_correlation))
            frames o
        else accepted_by (push_frame f o)

    unfoldable pub flush_one :
        Frame M → ℕ × List (Frame M) → String → View M × List String → View M × List String
    unfolding lookup insert replay_to push_frame
    flush_one f window conn r = elim (lookup conn r.0.browsers) [
      | none ↦ r
      | some o ↦ elim (lookup conn r.0.stream.subscribers) [
        | none ↦ r
        | some s ↦ settle conn s (hand_to f window r.0.stream s o) r
      ]
    ]

    unfoldable pub flush :
        Frame M → ℕ × List (Frame M) → List String → View M × List String → View M × List String
    unfolding flush_one
    flush f window [] r = r
    flush f window (c ∷ cs) r = flush f window cs (flush_one f window c r)

    -- Every subscriber is served, then those whose delivery failed are detached.
    unfoldable pub deliver_snapshot : DKey → Frame M → View M → View M
    unfolding flush replay detach_all
    deliver_snapshot key f v =
        let (w, failed) = flush f (replay v.stream) (keys v.stream.subscribers) (v, []) in
        detach_all encode_direct key failed w

  module _ (encoded_len : Envelope M → ℕ) (now : ℕ) where
    -- The frame of a snapshot takes the next number of the stream.
    unfoldable pub snapshot_frame : Envelope M → DStream M → Frame M
    unfolding with_upstream_seq
    snapshot_frame env d = with_upstream_seq encoded_len now (placed_in d env) critical none none

    -- The stream after a snapshot: the stash is taken out, covered frames leave the buffer.
    unfoldable pub with_snapshot : String → Envelope M → UpstreamBinding → DStream M → DStream M
    unfolding cache_snapshot snapshot_frame retain_uncovered clear_pending insert
    with_snapshot uid env b d =
        let e = clear_pending d in
        cache_snapshot (snapshot_frame env d) (record e {
          upstreams = insert uid (record b { snapshot_received = true }) d.upstreams;
          buffer = (retain_uncovered env.device_id b.snapshot_covers d.buffer).0;
          next_seq = d.next_seq + 1;
        })

  module _ (encoded_len : Envelope M → ℕ) (event_len : Event M → ℕ) where
    module _ (encode_direct : Control → List ℕ) (message_id : ℕ → String) (now : ℕ) where
      -- Over the budget of the stash: everybody waits for a new snapshot of every upstream.
      abbrev pub recover : DKey → DStream M → Hub M → Hub M
      recover key d h =
          let (e, requests) = refresh_snapshot_envs true d in
          let told = announce_resync encode_direct d.stream_id (keys d.subscribers) h.browsers in
          ask requests (record h { streams = insert key e h.streams; browsers = told })

      unfoldable pub stash : DKey → DStream M → PendingUpstreamBatch M → Hub M → Hub M
      unfolding push_pending refresh_snapshot_envs announce_resync insert
      stash key d batch h =
          let (e, over) = push_pending event_len batch d in
          if over then recover key e h else record h { streams = insert key e h.streams }

      unfoldable pub publish_batch : DKey → Incoming → List (Event M) → View M → View M
      unfolding publish_all detach_all
      publish_batch key inc events v =
          let (w, slow) = publish_all encoded_len encode_direct message_id now inc events (v, []) in
          detach_all encode_direct key slow w

      abbrev pub fan_out_at :
          DKey → DStream M → UpstreamBinding → String → Incoming → List (Event M) → Hub M → Hub M
      fan_out_at key d b uid inc events h =
          if seen inc.sequence b.last_seq || is_empty events
          then h
          else if not b.snapshot_received && is_empty d.snapshots
          then stash key d (batch_of uid inc events) h
          else put_view key (publish_batch key inc events (view_of (advance uid inc b d) h)) h

      unfoldable pub fan_out_events : String → Incoming → List (Event M) → Hub M → Hub M
      unfolding stash publish_batch lookup insert
      fan_out_events uid inc events h = elim (find_upstream uid h) [
        | none ↦ h
        | some (key, d, b) ↦ fan_out_at key d b uid inc events h
      ]

      -- The stashed batches that their snapshots do not cover follow, in order.
      unfoldable pub flush_pending : DKey → List (PendingUpstreamBatch M) → Hub M → Hub M
      unfolding fan_out_events lookup
      flush_pending key [] h = h
      flush_pending key (p ∷ ps) h = flush_pending key ps (
          if seen p.upstream_seq (covers_of key p.upstream_id h)
          then h
          else fan_out_events p.upstream_id (incoming_of p) p.events h)

      unfoldable pub handle_upstream_snapshot : String → Envelope M → Hub M → Hub M
      unfolding with_snapshot deliver_snapshot flush_pending snapshot_frame insert lookup
      handle_upstream_snapshot uid env h = elim (find_upstream uid h) [
        | none ↦ h
        | some (key, d, b) ↦
            let v =
              deliver_snapshot encode_direct key (snapshot_frame encoded_len now env d)
                (view_of (with_snapshot encoded_len now uid env b d) h) in
            flush_pending key d.pending_batches (put_view key v h)
      ]
