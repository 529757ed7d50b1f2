-- ===== src/Relay/Streams/Browsers.antt =====
-- The browsers' side of the streams in apps/relay/src/realtime/mod.rs: subscribing, resuming,
-- acknowledging and leaving. `fresh` is the id drawn for a new stream.
use agent_console.Base.{
  ◌==◌, ◌||◌, ◌∷◌, Bool, false, if◌then◌else◌, insert, keep, List, lookup, nat_eq, none, not,
  Option, remove, some, String, string_eq, Table, [], ℕ,
}
use Prim.Native.Nat.{max}
use agent_console.Relay.Outbox.{Outbox}
use agent_console.Relay.Streams.State.{DKey, DStream, dkey_eq, new, SubscriberState, TargetTag}
use agent_console.Relay.Streams.Replay.{replay}
use agent_console.Relay.Streams.Bindings.{is_session, need_bindings, stream_at}
use agent_console.Relay.Streams.Hub.{
  ask, Control, detach_failed_subscriber, goes_live, Hub, keys, put_view, replay_to, subscribed,
  update, View, view_of,
}
use agent_console.Relay.Streams.Publish.{is_empty}
use agent_console.Relay.Streams.Upstream.{refresh_snapshot_envs}

-- The keys of a table whose value a test finds.
abbrev pub keys_where {ℓ κ} : {K : Type ℓ} {V : Type κ} → (V → Bool) → Table K V → List K
keys_where p t = keys (keep (λ e. p e.1) t)

abbrev pub head_of {ℓ} : {A : Type ℓ} → List A → Option A
head_of [] = none
head_of (x ∷ xs) = some x

abbrev pub acknowledge : ℕ → SubscriberState → SubscriberState
acknowledge sequence s = record s { acked = max s.acked sequence }

abbrev pub joined : String → DKey → Table String (List DKey) → Table String (List DKey)
joined conn key t = elim (lookup conn t) [
  | none ↦ insert conn (key ∷ []) t
  | some ks ↦ insert conn (key ∷ keep (λ k. not (k == key)) ks) t
]

-- The subscriber's entry: a new one starts without an acknowledgement.
abbrev pub entry_for : String → Bool → Option SubscriberState → SubscriberState
entry_for correlation awaiting none = record {
  awaiting_snapshot = awaiting;
  acked = 0;
  subscribe_correlation = correlation;
}
entry_for correlation awaiting (some s) = record s {
  awaiting_snapshot = awaiting;
  subscribe_correlation = correlation;
}

module _ {M : Type 0} where
  -- `find(|(_, ds)| ds.stream_id == stream_id)`
  abbrev pub find_stream : String → Hub M → Option DKey
  find_stream stream_id h = head_of (keys_where (λ d. d.stream_id == stream_id) h.streams)

  abbrev pub leave_stream : String → DKey → Hub M → Hub M
  leave_stream conn key h = record h {
    streams = update key (λ d. record d { subscribers = remove conn d.subscribers }) h.streams;
    browser_streams = update conn (keep (λ k. not (k == key))) h.browser_streams;
  }

  unfoldable pub browser_unsubscribe : String → String → Hub M → Hub M
  unfolding lookup insert remove
  browser_unsubscribe conn stream_id h = elim (find_stream stream_id h) [
    | none ↦ h
    | some key ↦ leave_stream conn key h
  ]

  unfoldable pub browser_ack : String → String → ℕ → Hub M → Hub M
  unfolding lookup insert
  browser_ack conn stream_id sequence h = elim (find_stream stream_id h) [
    | none ↦ h
    | some key ↦ record h {
      streams =
          update key
            (λ d. record d { subscribers = update conn (acknowledge sequence) d.subscribers })
            h.streams;
    }
  ]

  -- `detach_subscriber`: the connection leaves every stream that it had joined.
  unfoldable pub leave_all : String → List DKey → Table DKey (DStream M) → Table DKey (DStream M)
  unfolding lookup insert remove
  leave_all conn [] t = t
  leave_all conn (k ∷ ks) t =
      leave_all conn ks (update k (λ d. record d { subscribers = remove conn d.subscribers }) t)

  unfoldable pub detach_subscriber : String → Hub M → Hub M
  unfolding leave_all lookup remove
  detach_subscriber conn h = elim (lookup conn h.browser_streams) [
    | none ↦ h
    | some ks ↦ record h {
      streams = leave_all conn ks h.streams;
      browser_streams = remove conn h.browser_streams;
    }
  ]

  unfoldable pub remove_browser : String → Hub M → Hub M
  unfolding detach_subscriber remove
  remove_browser conn h = detach_subscriber conn (record h { browsers = remove conn h.browsers })

  -- `conn` is the fresh id of the connection.
  unfoldable pub register_browser : String → Outbox M → Hub M → Hub M
  unfolding insert
  register_browser conn o h = record h { browsers = insert conn o h.browsers }

  module _ (encode_direct : Control → List ℕ) where
    -- The answer and the window for one subscriber, and what becomes of it.
    unfoldable pub restore : DKey → String → String → SubscriberState → Outbox M → View M → View M
    unfolding replay replay_to detach_failed_subscriber insert
    restore key conn correlation s o v =
        let d = v.stream in
        let (base, frames) = replay d in
        let answer = encode_direct (subscribed d.stream_id d.epoch base correlation) in
        let (ok, o1) = replay_to answer frames o in
        let w = record v { browsers = insert conn o1 v.browsers } in
        if ok
        then record w {
          stream = record d { subscribers = insert conn (goes_live s) d.subscribers };
        }
        else detach_failed_subscriber encode_direct key conn w

    abbrev pub attach : DKey → String → String → Outbox M → DStream M → Hub M → Hub M
    attach key conn correlation o d h =
        let awaiting = is_empty d.snapshots in
        let s = entry_for correlation awaiting (lookup conn d.subscribers) in
        let e = record d { subscribers = insert conn s d.subscribers } in
        let v = record (view_of e h) { browser_streams = joined conn key h.browser_streams } in
        put_view key (if awaiting then v else restore key conn correlation s o v) h

    -- The lock is given up between the two halves; no other call is modelled between them.
    unfoldable pub browser_subscribe :
        String → String → DKey → List (String × TargetTag) → String → Hub M → Hub M
    unfolding need_bindings restore new lookup insert
    browser_subscribe fresh conn key needs correlation h = elim (lookup conn h.browsers) [
      | none ↦ h
      | some o ↦
          let g = need_bindings fresh key needs h in
          attach key conn correlation o (stream_at fresh key g) g
    ]

    abbrev pub resync_at : DKey → DStream M → String → String → Hub M → Hub M
    resync_at key d conn correlation h = elim (lookup conn d.subscribers) [
      | none ↦ h
      | some s ↦
          if is_session key.tag || is_empty d.snapshots
          then ask (refresh_snapshot_envs false d).1
              (record h { streams = insert key (refresh_snapshot_envs false d).0 h.streams })
          else elim (lookup conn h.browsers) [
            | none ↦ h
            | some o ↦ put_view key (restore key conn correlation s o (view_of d h)) h
          ]
    ]

    unfoldable pub browser_resync : String → String → String → Hub M → Hub M
    unfolding restore refresh_snapshot_envs lookup insert
    browser_resync conn stream_id correlation h = elim (find_stream stream_id h) [
      | none ↦ h
      | some key ↦ elim (lookup key h.streams) [
        | none ↦ h
        | some d ↦ resync_at key d conn correlation h
      ]
    ]
