-- ===== src/Relay/Streams/Hub.antt =====
-- The tables of the hub in apps/relay/src/realtime/mod.rs that its stream handlers change, and the
-- steps that several handlers share. The handlers hold the hub's lock, so each is one step. What
-- they hand to `send_to_bridge` is a list; whether the channel takes it is not looked at. A table
-- is gone through in the order of its entries, where the source leaves the order open. The message
-- id and the time of a control message stand in the parameter `encode_direct`.
use Prim.Native.String.{◌++◌ as str_append}
use agent_console.Base.{
  decimal, ◌++◌, ◌==◌, ◌∷◌, Bool, Eq, false, if◌then◌else◌, insert, is_none, keep, List, lookup,
  map, none, not, remove, some, String, string_eq, Table, true, [], ℕ,
}
use agent_console.Relay.Frame.Messages.{Frame}
use agent_console.Relay.Outbox.{Outbox, push_direct, push_frame, close}
use agent_console.Relay.StreamBuffer.{clear}
use agent_console.Relay.Streams.State.{
  DKey, DStream, dkey_eq, list_target, session_target, SubscriberState, TargetTag, UpstreamBinding,
}
use agent_console.Relay.Streams.Stash.{clear_pending}

pub record Hub (M : Type 0) : Type 0 where
  pub streams : Table DKey (DStream M)
  pub upstream_index : Table String DKey
  pub browsers : Table String (Outbox M)
  pub browser_streams : Table String (List DKey)
  -- the subscriptions asked of bridges
  pub asked : List (String × TargetTag)

-- What a handler works on once it has found the stream.
pub record View (M : Type 0) : Type 0 where
  pub stream : DStream M
  pub browsers : Table String (Outbox M)
  pub browser_streams : Table String (List DKey)

-- The envelopes of `subscribed_env` and `resync_required_env`.
pub data Control : Type 0 where
  -- the stream, its epoch, the base and the correlation
  subscribed : String → ℕ → ℕ → String → Control
  resync_required : String → Control

-- The id of the upstream of a device for a target: a session's id names its own device.
unfoldable pub upstream_stream_id : String → TargetTag → String
unfolding decimal
upstream_stream_id device list_target = str_append "u-" (str_append device "-list")
upstream_stream_id device (session_target d agent_kind native) =
    str_append "u-"
      (str_append d (str_append "-sess-" (str_append (decimal agent_kind) (str_append "-" native))))

-- `keys()`
abbrev pub keys {ℓ κ} : {K : Type ℓ} {V : Type κ} → Table K V → List K
keys t = map (λ e. e.0) t

-- `get_mut`
abbrev pub update {ℓ κ} : {K : Type ℓ} {V : Type κ} ⦃e : Eq K⦄ → K → (V → V) → Table K V → Table K V
update k f t = elim (lookup k t) [ none ↦ t | some v ↦ insert k (f v) t ]

-- `values_mut`
abbrev pub update_all {ℓ κ} : {K : Type ℓ} {V : Type κ} → (V → V) → Table K V → Table K V
update_all f t = map (λ e. (e.0, f e.1)) t

abbrev pub awaits : SubscriberState → SubscriberState
awaits s = record s { awaiting_snapshot = true }

abbrev pub goes_live : SubscriberState → SubscriberState
goes_live s = record s { awaiting_snapshot = false }

-- A binding that waits for the answer to a new subscription.
abbrev pub rebound : UpstreamBinding → UpstreamBinding
rebound b = record b { epoch = 0; last_seq = 0; snapshot_covers = 0; snapshot_received = false }

module _ {M : Type 0} where
  abbrev pub view_of : DStream M → Hub M → View M
  view_of d h = record { stream = d; browsers = h.browsers; browser_streams = h.browser_streams }

  abbrev pub put_view : DKey → View M → Hub M → Hub M
  put_view key v h = record h {
    streams = insert key v.stream h.streams;
    browsers = v.browsers;
    browser_streams = v.browser_streams;
  }

  abbrev pub ask : List (String × TargetTag) → Hub M → Hub M
  ask requests h = record h { asked = h.asked ++ requests }

  -- The caches of a stream are given up and every subscriber waits for a snapshot.
  unfoldable pub forget : DStream M → DStream M
  unfolding clear clear_pending
  forget d =
      let e = clear_pending d in
      record e {
        snapshots = [];
        buffer = clear d.buffer;
        subscribers = update_all awaits d.subscribers;
      }

  -- `push_frame` for each frame, up to the first that is refused.
  unfoldable pub deliver : List (Frame M) → Outbox M → Bool × Outbox M
  unfolding push_frame
  deliver [] o = (true, o)
  deliver (f ∷ fs) o =
      let (e, o1) = push_frame f o in
      let rest = deliver fs o1 in if is_none e then rest else (false, o1)

  -- The answer to a subscription, followed by the window.
  unfoldable pub replay_to : List ℕ → List (Frame M) → Outbox M → Bool × Outbox M
  unfolding push_direct deliver
  replay_to bytes frames o =
      let (ok, o1) = push_direct bytes o in if ok then deliver frames o1 else (false, o1)

  module _ (encode_direct : Control → List ℕ) where
    -- Announce a recovery to one subscriber.
    abbrev pub resync_to : String → String → Table String (Outbox M) → Table String (Outbox M)
    resync_to stream_id conn t =
        update conn (λ o. (push_direct (encode_direct (resync_required stream_id)) o).1) t

    unfoldable pub announce_resync :
        String → List String → Table String (Outbox M) → Table String (Outbox M)
    unfolding lookup insert push_direct
    announce_resync stream_id [] t = t
    announce_resync stream_id (c ∷ cs) t = announce_resync stream_id cs (resync_to stream_id c t)

    abbrev pub turn_away : String → Outbox M → Outbox M
    turn_away stream_id o =
        close "RESYNC_REQUIRED" (push_direct (encode_direct (resync_required stream_id)) o).1

    unfoldable pub detach_failed_subscriber : DKey → String → View M → View M
    unfolding lookup insert remove push_direct close
    detach_failed_subscriber key conn v =
        let d = v.stream in
        record v {
          stream = record d { subscribers = remove conn d.subscribers };
          browsers = update conn (turn_away d.stream_id) v.browsers;
          browser_streams = update conn (keep (λ k. not (k == key))) v.browser_streams;
        }

    unfoldable pub detach_all : DKey → List String → View M → View M
    unfolding detach_failed_subscriber
    detach_all key [] v = v
    detach_all key (c ∷ cs) v = detach_all key cs (detach_failed_subscriber key c v)
