-- ===== src/Relay/Streams/Invariant/Bridges.antt =====
-- The handlers of what a bridge sends keep the invariant of the hub.
use agent_console.Base.{
  ◌&&◌, ◌∷◌, ◌||◌, eqb, if_cases, inl, inr, insert, List, not, Option-cases, String, string_eq,
  true, [], ℕ,
}
use agent_console.Relay.Frame.Messages.{Envelope, Event}
use agent_console.Relay.Streams.State.{
  DKey, DStream, dkey_eq, PendingUpstreamBatch, UpstreamBinding,
}
use agent_console.Relay.Streams.Stash.{push_pending}
use agent_console.Relay.Streams.Hub.{Control, forget, Hub, view_of}
use agent_console.Relay.Streams.Publish.{Incoming, is_empty, seen}
use agent_console.Relay.Streams.Upstream.{
  advance, batch_of, covers_of, fan_out_events, find_upstream, flush_pending,
  handle_upstream_snapshot, incoming_of, snapshot_frame, stash, with_snapshot,
}
use agent_console.Relay.Streams.Subscribed.{
  epoch_changed, fixed, handle_upstream_subscribed, reset_for,
}
use agent_console.Relay.Streams.Sound.{forget-IsSound, IsSound, with_snapshot-IsSound}
use agent_console.Relay.Streams.Handlers.{
  deliver_snapshot-IsSound, publish_batch-IsSound, push_pending-IsSound, refresh-IsSound,
  reseat-IsSound,
}
use agent_console.Relay.Streams.Invariant.Tables.{AreSound, find_upstream-IsSound, put-AreSound}

module _ {M : Type 0} (event_len : Event M → ℕ) where
  module _ (encode_direct : Control → List ℕ) where
    reset_for-IsSound : (uid : String) (d : DStream M) → IsSound event_len (reset_for uid d)
    unfolding reset_for
    reset_for-IsSound uid d =
        let e = forget d in
        reseat-IsSound event_len e e.subscribers _ _ (forget-IsSound event_len d)

    pub handle_upstream_subscribed-AreSound :
        (uid : String) (epoch base : ℕ) (h : Hub M)
        → AreSound event_len h
        → AreSound event_len (handle_upstream_subscribed encode_direct uid epoch base h)
    unfolding handle_upstream_subscribed
    handle_upstream_subscribed-AreSound uid epoch base h a =
        elim (Option-cases (find_upstream uid h)) [
          | inl q ↦ rw (handle_upstream_subscribed, q) a
          | inr ((key, d, b), q) ↦
              let s = find_upstream-IsSound event_len uid h key d b q a in
              let e = record d { upstreams = insert uid (fixed epoch base b) d.upstreams } in
              rw (handle_upstream_subscribed, q)
                (if_cases (AreSound event_len) (not (epoch_changed epoch b)) _ _
                  (λ _.
                    put-AreSound event_len key _ h.streams
                      (reseat-IsSound event_len d d.subscribers _ d.epoch s) a)
                  (λ _. put-AreSound event_len key _ h.streams (reset_for-IsSound uid e) a))
        ]

    module _ (encoded_len : Envelope M → ℕ) (message_id : ℕ → String) (now : ℕ) where
      stash-AreSound :
          (key : DKey) (d : DStream M) (batch : PendingUpstreamBatch M) (h : Hub M)
          → IsSound event_len d
          → AreSound event_len h
          → AreSound event_len
              (stash encoded_len event_len encode_direct message_id now key d batch h)
      unfolding stash
      stash-AreSound key d batch h s a =
          let r = push_pending event_len batch d in
          if_cases (AreSound event_len) r.1 _ _
            (λ _. put-AreSound event_len key _ h.streams (refresh-IsSound event_len true r.0) a)
            (λ _.
              put-AreSound event_len key r.0 h.streams (push_pending-IsSound event_len batch d s) a)

      advance-IsSound :
          (uid : String) (inc : Incoming) (b : UpstreamBinding) (d : DStream M)
          → IsSound event_len d
          → IsSound event_len (advance uid inc b d)
      advance-IsSound uid inc b d s =
          if_cases (IsSound event_len) (eqb inc.sequence 0) _ _ (λ _. s)
            (λ _. reseat-IsSound event_len d d.subscribers _ d.epoch s)

      pub fan_out_events-AreSound :
          (uid : String) (inc : Incoming) (es : List (Event M)) (h : Hub M)
          → AreSound event_len h
          → AreSound event_len
              (fan_out_events encoded_len event_len encode_direct message_id now uid inc es h)
      unfolding fan_out_events
      fan_out_events-AreSound uid inc es h a = elim (Option-cases (find_upstream uid h)) [
        | inl q ↦ rw (fan_out_events, q) a
        | inr ((key, d, b), q) ↦
            let s = find_upstream-IsSound event_len uid h key d b q a in
            rw (fan_out_events, q)
              (if_cases (AreSound event_len) (seen inc.sequence b.last_seq || is_empty es) _ _
                (λ _. a)
                λ _.
                  if_cases (AreSound event_len) (not b.snapshot_received && is_empty d.snapshots) _
                    _ (λ _. stash-AreSound key d (batch_of uid inc es) h s a)
                    (λ _.
                      put-AreSound event_len key _ h.streams
                        (publish_batch-IsSound event_len encode_direct encoded_len message_id now
                          key inc es (view_of (advance uid inc b d) h)
                          (advance-IsSound uid inc b d s))
                        a))
      ]

      flush_pending-AreSound :
          (key : DKey) (ps : List (PendingUpstreamBatch M)) (h : Hub M)
          → AreSound event_len h
          → AreSound event_len
              (flush_pending encoded_len event_len encode_direct message_id now key ps h)
      unfolding flush_pending
      flush_pending-AreSound key [] h a = a
      flush_pending-AreSound key (p ∷ ps) h a = flush_pending-AreSound key ps _ (
          if_cases (AreSound event_len) (seen p.upstream_seq (covers_of key p.upstream_id h)) _ _
            (λ _. a) (λ _. fan_out_events-AreSound p.upstream_id (incoming_of p) p.events h a))

      pub handle_upstream_snapshot-AreSound :
          (uid : String) (env : Envelope M) (h : Hub M)
          → AreSound event_len h
          → AreSound event_len (
              handle_upstream_snapshot encoded_len event_len encode_direct message_id now uid env h)
      unfolding handle_upstream_snapshot
      handle_upstream_snapshot-AreSound uid env h a = elim (Option-cases (find_upstream uid h)) [
        | inl q ↦ rw (handle_upstream_snapshot, q) a
        | inr ((key, d, b), q) ↦
            let e = with_snapshot encoded_len now uid env b d in
            let s =
              with_snapshot-IsSound encoded_len now event_len uid env b d
                (find_upstream-IsSound event_len uid h key d b q a) in
            rw (handle_upstream_snapshot, q)
              (flush_pending-AreSound key d.pending_batches _ (
                put-AreSound event_len key _ h.streams
                  (deliver_snapshot-IsSound event_len encode_direct key
                    (snapshot_frame encoded_len now env d) (view_of e h) s)
                  a))
      ]
