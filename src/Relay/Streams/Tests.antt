-- ===== src/Relay/Streams/Tests.antt =====
-- The theorems on the streams of apps/relay/src/realtime/mod.rs at concrete streams and hubs. An
-- encoded envelope is taken to have sixteen bytes and an encoded event one.
use agent_console.Base.{
  [], arith, false, List, lookup, none, refl, some, String, string_eq, true, ℕ, ◌++◌, ◌∷◌, ◌≡◌, ◌⊎◌,
}
use agent_console.Relay.Frame.Messages.{
  critical, Envelope, Event, Frame, other_payload, turn_lifecycle,
}
use agent_console.Relay.Outbox.{Outbox}
use agent_console.Relay.Streams.State.{
  TargetTag, session_target, DKey, dkey_eq, DStream, list_target, PendingUpstreamBatch,
  SubscriberState, UpstreamBinding,
}
use agent_console.Relay.Streams.Stash.{push_pending}
use agent_console.Relay.Streams.Stash.Budget.{lasting, push_pending-Settles, Settles}
use agent_console.Relay.Streams.Replay.{anchored_replay, full_replay}
use agent_console.Relay.Streams.Replay.Windows.{IsFull}
use agent_console.Relay.Streams.Replay.Anchored.{anchored_replay-IsAnchored, IsAnchored}
use agent_console.Relay.Streams.Replay.Complete.{full_replay-decides}
use agent_console.Relay.Streams.Hub.{Control, Hub, resync_required, subscribed, View}
use agent_console.Relay.Streams.Publish.{Incoming}
use agent_console.Relay.Streams.Upstream.{deliver_snapshot, fan_out_events, publish_batch}
use agent_console.Relay.Streams.Subscribed.{handle_upstream_subscribed}
use agent_console.Relay.Streams.Browsers.{browser_subscribe}
use agent_console.Relay.Streams.Seats.{IsDetached, subscriber}
use agent_console.Relay.Streams.Restored.{deliver_snapshot-restores, due, IsServed}
use agent_console.Relay.Streams.Resumed.{browser_subscribe-Joins, Joins}
use agent_console.Relay.Streams.Bindings.{need_bindings, stream_at}
use agent_console.Relay.Streams.Spared.{HasSpared}
use agent_console.Relay.Streams.Unheard.{publish_batch-spares}
use agent_console.Relay.Streams.Duplicates.{fan_out_events-once}
use agent_console.Relay.Streams.Restart.{handle_upstream_subscribed-Restarts, Restarts}
use agent_console.Relay.Streams.History.{
  Call, comes_online, empty_hub, is_subscribed, perform_all, receives, registers, sends_events,
  shows_presence, sweeps_memory, sends_snapshot, subscribes,
}
use agent_console.Relay.Streams.Invariant.Tables.{AreSound}
use agent_console.Relay.Streams.Invariant.{history-AreSound}

abbrev envelope_size : Envelope ℕ → ℕ
envelope_size env = 16

abbrev event_size : Event ℕ → ℕ
event_size e = 1

abbrev coded : Control → List ℕ
coded (subscribed id epoch base correlation) = 1 ∷ epoch ∷ base ∷ []
coded (resync_required id) = 0 ∷ []

abbrev ids : ℕ → String
ids n = "m"

abbrev envelope : ℕ → Envelope ℕ
envelope seq = record {
  protocol_version = 1;
  message_id = "m";
  correlation_id = "";
  sent_at = none;
  device_id = "dev";
  agent_kind = 1;
  stream_id = "u-dev-list";
  stream_epoch = 1;
  sequence = seq;
  payload = some (other_payload 3);
  provider_extension = none;
}

abbrev frame_at : ℕ → Frame ℕ
frame_at seq = record {
  env = envelope seq;
  kind = critical;
  merge = none;
  upstream_seq = some seq;
  ts = 5;
  bytes_len = 16;
}

abbrev waiting : SubscriberState
waiting = record { awaiting_snapshot = true; acked = 0; subscribe_correlation = "c" }

abbrev live : SubscriberState
live = record { awaiting_snapshot = false; acked = 0; subscribe_correlation = "d" }

abbrev binding : UpstreamBinding
binding = record {
  device = "dev";
  epoch = 1;
  last_seq = 4;
  snapshot_covers = 4;
  snapshot_received = true;
}

abbrev key : DKey
key = record { owner = "o"; tag = list_target }

-- A snapshot with the number three, and an event after it.
abbrev stream : DStream ℕ
stream = record {
  key = key;
  stream_id = "s-1";
  epoch = 1;
  next_seq = 5;
  snapshots = frame_at 3 ∷ [];
  pending_batches = [];
  pending_bytes = 0;
  pending_events = 0;
  buffer = record {
    items = frame_at 4 ∷ [];
    bytes = 16;
    max_events = 10;
    max_bytes = 1000;
    retention = 100;
  };
  subscribers = ("a", waiting) ∷ ("b", live) ∷ [];
  upstreams = ("u-dev-list", binding) ∷ [];
}

abbrev box : Outbox ℕ
box = record { capacity = 10; max_bytes = 1000; items = []; frames = 0; bytes = 0; closed = false }

abbrev view : View ℕ
view = record {
  stream = stream;
  browsers = ("a", box) ∷ ("b", box) ∷ [];
  browser_streams = ("a", key ∷ []) ∷ ("b", key ∷ []) ∷ [];
}

abbrev hub : Hub ℕ
hub = record {
  streams = (key, stream) ∷ [];
  upstream_index = ("u-dev-list", key) ∷ [];
  browsers = view.browsers;
  browser_streams = view.browser_streams;
  asked = [];
}

abbrev batch : ℕ → Incoming
batch n = record { sequence = n; sent_at = none; device_id = "dev" }

abbrev stashed_batch : PendingUpstreamBatch ℕ
stashed_batch = record {
  upstream_id = "u-dev-list";
  upstream_seq = 5;
  sent_at = none;
  device_id = "dev";
  events = turn_lifecycle 1 ∷ turn_lifecycle 2 ∷ [];
}

abbrev calls : List (Call ℕ)
calls =
    registers "a" box
    ∷ comes_online "dev" "o"
    ∷ subscribes "s-1" "a" key (("dev", list_target) ∷ []) "c"
    ∷ is_subscribed "u-dev-list" 1 4
    ∷ sends_events 6 "u-dev-list" (batch 5) (turn_lifecycle 1 ∷ [])
    ∷ sends_snapshot 7 "u-dev-list" (envelope 0)
    ∷ receives "a"
    ∷ sends_events 8 "u-dev-list" (batch 6) (turn_lifecycle 2 ∷ [])
    ∷ shows_presence 9 "dev" "o" 3
    ∷ sweeps_memory
    ∷ []

deliver_snapshot-restores_example :
    IsServed "a" waiting box
      (due coded (frame_at 3) stream waiting)
      (deliver_snapshot coded key (frame_at 3) view)
    ⊎ IsDetached "a" (deliver_snapshot coded key (frame_at 3) view)
unfolding lookup
deliver_snapshot-restores_example =
    deliver_snapshot-restores coded key (frame_at 3) view "a" waiting box (refl, (refl, tt)) refl
      refl

abbrev needs : List (String × TargetTag)
needs = ("dev", list_target) ∷ []

browser_subscribe-Joins_example :
    let d = stream_at "s-1" key (need_bindings "s-1" key needs hub) in
    let g = browser_subscribe coded "s-1" "a" key needs "e" hub in
    (u : View ℕ) × (lookup key g.streams ≡ some u.stream)
    × (g.browsers ≡ u.browsers)
    × Joins coded "a" "e" box d u
unfolding lookup
browser_subscribe-Joins_example = browser_subscribe-Joins coded "s-1" "a" key needs "e" hub box refl

publish_batch-spares_example :
    (subscriber "a" (
        publish_batch envelope_size event_size coded ids 9 key
          (batch 5)
          (turn_lifecycle 1 ∷ [])
          view)
      ≡ some waiting)
    × HasSpared "a" box
        (publish_batch envelope_size event_size coded ids 9 key
          (batch 5)
          (turn_lifecycle 1 ∷ [])
          view).browsers
unfolding lookup
publish_batch-spares_example =
    publish_batch-spares coded envelope_size ids 9 event_size key (batch 5) (turn_lifecycle 1 ∷ [])
      view "a" waiting box (refl, (refl, tt)) refl refl refl

fan_out_events-once_example :
    fan_out_events envelope_size event_size coded ids 9 "u-dev-list"
      (batch 5)
      (turn_lifecycle 1 ∷ [])
      (fan_out_events envelope_size event_size coded ids 9 "u-dev-list"
        (batch 6)
        (turn_lifecycle 2 ∷ [])
        hub)
    ≡ fan_out_events envelope_size event_size coded ids 9 "u-dev-list"
        (batch 6)
        (turn_lifecycle 2 ∷ [])
        hub
unfolding lookup
fan_out_events-once_example =
    fan_out_events-once envelope_size event_size coded ids 9 "u-dev-list" (batch 6) (batch 5)
      (turn_lifecycle 2) [] (turn_lifecycle 1 ∷ []) hub key stream binding (refl, refl, refl) refl
      (ground arith) (omega arith)

abbrev session_key : DKey
session_key = record key { tag = session_target "dev" 1 "s" }

handle_upstream_subscribed-Restarts_example :
    let g = handle_upstream_subscribed coded "u-dev-list" 2 7 hub in
    (lookup session_key g.streams ≡ lookup session_key hub.streams)
    × ((e : DStream ℕ) × (lookup key g.streams ≡ some e)
        × Restarts 2 7 "u-dev-list" "u-x-list" key binding stream e hub g)
unfolding lookup
handle_upstream_subscribed-Restarts_example =
    handle_upstream_subscribed-Restarts coded "u-dev-list" "u-x-list" 2 7 hub key session_key stream
      binding (refl, refl, refl) refl refl

full_replay-decides_example :
    ((base : ℕ) × (frames : List (Frame ℕ)) × (full_replay stream ≡ some (base, frames))
      × IsFull stream base frames)
    ⊎ ((full_replay stream ≡ none)
        × ¬ ((base : ℕ) × (frames : List (Frame ℕ)) × IsFull stream base frames))
full_replay-decides_example = full_replay-decides stream

anchored_replay-IsAnchored_example : IsAnchored stream (anchored_replay stream)
anchored_replay-IsAnchored_example = anchored_replay-IsAnchored stream

push_pending-Settles_example :
    Settles event_size
      (lasting ([] ++ stashed_batch ∷ []))
      (push_pending event_size stashed_batch stream)
push_pending-Settles_example = push_pending-Settles event_size stashed_batch stream (refl, refl)

history-AreSound_example :
    AreSound event_size (perform_all envelope_size event_size coded ids calls empty_hub)
history-AreSound_example = history-AreSound event_size envelope_size coded ids calls
