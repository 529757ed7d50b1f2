-- ===== src/Relay/Streams/Invariant/Browsers.antt =====
-- The browsers' calls keep the invariant of the hub.
use agent_console.Base.{
  ◌&&◌, ◌∷◌, ◌||◌, false, if_cases, inl, inr, is_none, List, lookup, none, Option-cases, remove,
  some, String, string_eq, Table, [], ℕ,
}
use agent_console.Relay.Frame.Messages.{Event}
use agent_console.Relay.Outbox.{Outbox}
use agent_console.Relay.Streams.State.{DKey, DStream, dkey_eq, SubscriberState, TargetTag}
use agent_console.Relay.Streams.Replay.{replay}
use agent_console.Relay.Streams.Hub.{
  Control, detach_failed_subscriber, forget, Hub, put_view, replay_to, subscribed,
  upstream_stream_id, View, view_of,
}
use agent_console.Relay.Streams.Publish.{is_empty}
use agent_console.Relay.Streams.Browsers.{
  attach, browser_ack, browser_resync, browser_subscribe, browser_unsubscribe, detach_subscriber,
  find_stream, leave_all, remove_browser, restore, resync_at,
}
use agent_console.Relay.Streams.Bindings.{
  ensure_all, ensure_binding, has_snapshot, is_session, need_binding, need_bindings, renew_upstream,
  stream_at,
}
use agent_console.Relay.Streams.Sound.{forget-IsSound, IsSound}
use agent_console.Relay.Streams.Handlers.{refresh-IsSound, reseat-IsSound}
use agent_console.Relay.Streams.Invariant.Tables.{
  AllValues, AreSound, lookup-AllValues, put-AreSound, stream_at-IsSound, update-AllValues,
}

module _ {M : Type 0} (event_len : Event M → ℕ) where
  need_binding-AreSound :
      (fresh : String) (key : DKey) (n : String × TargetTag) (h : Hub M)
      → AreSound event_len h
      → AreSound event_len (need_binding fresh key n h)
  unfolding need_binding
  need_binding-AreSound fresh key (device, tag) h a =
      let uid = upstream_stream_id device tag in
      let d = stream_at fresh key h in
      let s = stream_at-IsSound event_len fresh key h a in
      if_cases (AreSound event_len) (is_none (lookup uid d.upstreams)) _ _
        (λ _.
          put-AreSound event_len key _ h.streams
            (reseat-IsSound event_len d d.subscribers _ d.epoch s) a)
        λ _.
          if_cases (AreSound event_len) (is_session key.tag && has_snapshot uid d.upstreams) _ _
            (λ _.
              put-AreSound event_len key (renew_upstream uid d) h.streams
                (reseat-IsSound event_len (forget d) _ _ _ (forget-IsSound event_len d)) a)
            (λ _. put-AreSound event_len key d h.streams s a)

  pub need_bindings-AreSound :
      (fresh : String) (key : DKey) (ns : List (String × TargetTag)) (h : Hub M)
      → AreSound event_len h
      → AreSound event_len (need_bindings fresh key ns h)
  unfolding need_bindings
  need_bindings-AreSound fresh key [] h a = a
  need_bindings-AreSound fresh key (n ∷ ns) h a =
      need_bindings-AreSound fresh key ns (need_binding fresh key n h)
        (need_binding-AreSound fresh key n h a)

  pub ensure_all-AreSound :
      (device : String) (ks : List DKey) (h : Hub M)
      → AreSound event_len h
      → AreSound event_len (ensure_all device ks h)
  unfolding ensure_all ensure_binding
  ensure_all-AreSound device [] h a = a
  ensure_all-AreSound device (k ∷ ks) h a =
      ensure_all-AreSound device ks (ensure_binding device k h) one
    where
      one : AreSound event_len (ensure_binding device k h)
      one = elim (Option-cases (lookup k h.streams)) [
        | inl q ↦ rw (ensure_binding, q) a
        | inr (d, q) ↦
            let s = lookup-AllValues (IsSound event_len) k d h.streams q a in
            rw (ensure_binding, q)
              (if_cases (AreSound event_len)
                (is_none (lookup (upstream_stream_id device k.tag) d.upstreams)) _ _
                (λ _.
                  put-AreSound event_len k _ h.streams
                    (reseat-IsSound event_len d d.subscribers _ d.epoch s) a)
                (λ _. a))
      ]

  leave_all-AllValues :
      (conn : String) (ks : List DKey) (t : Table DKey (DStream M))
      → AllValues (IsSound event_len) t
      → AllValues (IsSound event_len) (leave_all conn ks t)
  unfolding leave_all
  leave_all-AllValues conn [] t a = a
  leave_all-AllValues conn (k ∷ ks) t a = leave_all-AllValues conn ks _ (
      update-AllValues (IsSound event_len) k _ t
        (λ d s. reseat-IsSound event_len d (remove conn d.subscribers) d.upstreams d.epoch s) a)

  pub remove_browser-AreSound :
      (conn : String) (h : Hub M)
      → AreSound event_len h
      → AreSound event_len (remove_browser conn h)
  unfolding remove_browser detach_subscriber
  remove_browser-AreSound conn h a = elim (Option-cases (lookup conn h.browser_streams)) [
    | inl q ↦ rw (detach_subscriber, q) a
    | inr (ks, q) ↦ rw (detach_subscriber, q) (leave_all-AllValues conn ks h.streams a)
  ]

  pub browser_unsubscribe-AreSound :
      (conn id : String) (h : Hub M)
      → AreSound event_len h
      → AreSound event_len (browser_unsubscribe conn id h)
  unfolding browser_unsubscribe
  browser_unsubscribe-AreSound conn id h a = elim (Option-cases (find_stream id h)) [
    | inl q ↦ rw (browser_unsubscribe, q) a
    | inr (k, q) ↦
        rw (browser_unsubscribe, q)
          (update-AllValues (IsSound event_len) k _ h.streams
            (λ d s. reseat-IsSound event_len d (remove conn d.subscribers) d.upstreams d.epoch s) a)
  ]

  pub browser_ack-AreSound :
      (conn id : String) (n : ℕ) (h : Hub M)
      → AreSound event_len h
      → AreSound event_len (browser_ack conn id n h)
  unfolding browser_ack
  browser_ack-AreSound conn id n h a = elim (Option-cases (find_stream id h)) [
    | inl q ↦ rw (browser_ack, q) a
    | inr (k, q) ↦
        rw (browser_ack, q)
          (update-AllValues (IsSound event_len) k _ h.streams
            (λ d s. reseat-IsSound event_len d _ d.upstreams d.epoch s) a)
  ]

  module _ (encode_direct : Control → List ℕ) where
    restore-IsSound :
        (key : DKey) (conn correlation : String) (s : SubscriberState) (o : Outbox M) (v : View M)
        → IsSound event_len v.stream
        → IsSound event_len (restore encode_direct key conn correlation s o v).stream
    unfolding restore detach_failed_subscriber
    restore-IsSound key conn correlation s o v h =
        let d = v.stream in
        let r = replay d in
        let answer = encode_direct (subscribed d.stream_id d.epoch r.0 correlation) in
        if_cases (λ (w : View M). IsSound event_len w.stream) (replay_to answer r.1 o).0 _ _
          (λ _. reseat-IsSound event_len d _ d.upstreams d.epoch h)
          (λ _. reseat-IsSound event_len d _ d.upstreams d.epoch h)

    attach-AreSound :
        (key : DKey) (conn correlation : String) (o : Outbox M) (d : DStream M) (h : Hub M)
        → IsSound event_len d
        → AreSound event_len h
        → AreSound event_len (attach encode_direct key conn correlation o d h)
    attach-AreSound key conn correlation o d h s a =
        let seated = reseat-IsSound event_len d _ d.upstreams d.epoch s in
        put-AreSound event_len key _ h.streams
          (if_cases (λ (w : View M). IsSound event_len w.stream) (is_empty d.snapshots) _ _
            (λ _. seated) (λ _. restore-IsSound key conn correlation _ o _ seated))
          a

    pub browser_subscribe-AreSound :
        (fresh conn : String) (key : DKey) (needs : List (String × TargetTag))
        (correlation : String) (h : Hub M)
        → AreSound event_len h
        → AreSound event_len (browser_subscribe encode_direct fresh conn key needs correlation h)
    unfolding browser_subscribe
    browser_subscribe-AreSound fresh conn key needs correlation h a =
        let g = need_bindings fresh key needs h in
        let b = need_bindings-AreSound fresh key needs h a in
        elim (Option-cases (lookup conn h.browsers)) [
          | inl q ↦ rw (browser_subscribe, q) a
          | inr (o, q) ↦
              rw (browser_subscribe, q)
                (attach-AreSound key conn correlation o (stream_at fresh key g) g
                  (stream_at-IsSound event_len fresh key g b) b)
        ]

    resync_at-AreSound :
        (key : DKey) (d : DStream M) (conn correlation : String) (h : Hub M)
        → IsSound event_len d
        → AreSound event_len h
        → AreSound event_len (resync_at encode_direct key d conn correlation h)
    resync_at-AreSound key d conn correlation h s a =
        elim (Option-cases (lookup conn d.subscribers)) [
          | inl q ↦ rw (resync_at, q) a
          | inr (x, q) ↦
              rw (resync_at, q)
                (if_cases (AreSound event_len) (is_session key.tag || is_empty d.snapshots) _ _
                  (λ _.
                    put-AreSound event_len key _ h.streams (refresh-IsSound event_len false d) a)
                  (λ _. again x))
        ]
      where
        again :
            (x : SubscriberState)
            → AreSound event_len (elim (lookup conn h.browsers) [
              | none ↦ h
              | some o ↦
                  put_view key (restore encode_direct key conn correlation x o (view_of d h)) h
            ])
        again x = elim (Option-cases (lookup conn h.browsers)) [
          | inl q ↦ rw q a
          | inr (o, q) ↦ rw q (
              put-AreSound event_len key _ h.streams
                (restore-IsSound key conn correlation x o (view_of d h) s) a)
        ]

    pub browser_resync-AreSound :
        (conn id correlation : String) (h : Hub M)
        → AreSound event_len h
        → AreSound event_len (browser_resync encode_direct conn id correlation h)
    unfolding browser_resync
    browser_resync-AreSound conn id correlation h a = elim (Option-cases (find_stream id h)) [
      | inl q ↦ rw (browser_resync, q) a
      | inr (k, q) ↦ elim (Option-cases (lookup k h.streams)) [
        | inl r ↦ rw (browser_resync, q) (rw r a)
        | inr (d, r) ↦
            rw (browser_resync, q)
              (rw r (
                resync_at-AreSound k d conn correlation h
                  (lookup-AllValues (IsSound event_len) k d h.streams r a) a))
      ]
    ]
