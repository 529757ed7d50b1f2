-- ===== src/Relay/Streams/History.antt =====
-- Histories of a hub: any calls of browsers and bridges, and the hub's own
-- actions, in any order. A browser's connection takes
-- items out of its outbox between the calls.
use agent_console.Base.{insert, List, lookup, String, string_eq, [], ℕ, ◌∷◌}
use agent_console.Relay.Frame.Messages.{Envelope, Event}
use agent_console.Relay.Outbox.{Outbox, recv}
use agent_console.Relay.Streams.State.{DKey, TargetTag}
use agent_console.Relay.Streams.Hub.{Control, Hub, update}
use agent_console.Relay.Streams.Publish.{Incoming}
use agent_console.Relay.Streams.Upstream.{fan_out_events, handle_upstream_snapshot}
use agent_console.Relay.Streams.Subscribed.{handle_upstream_subscribed}
use agent_console.Relay.Streams.Browsers.{
  browser_ack, browser_resync, browser_subscribe, browser_unsubscribe, register_browser,
  remove_browser,
}
use agent_console.Relay.Streams.Bindings.{ensure_bindings_for_device}
use agent_console.Relay.Streams.Upkeep.{close_browser, fan_out_presence, sweep_global_memory}

pub data Call (M : Type 0) : Type 0 where
  registers : String → Outbox M → Call M
  receives : String → Call M
  subscribes : String → String → DKey → List (String × TargetTag) → String → Call M
  resyncs : String → String → String → Call M
  acks : String → String → ℕ → Call M
  unsubscribes : String → String → Call M
  leaves : String → Call M
  comes_online : String → String → Call M
  -- the upstream, its epoch and its base
  is_subscribed : String → ℕ → ℕ → Call M
  -- the clock stands at the number
  sends_snapshot : ℕ → String → Envelope M → Call M
  sends_events : ℕ → String → Incoming → List (Event M) → Call M
  -- the device, its owner and what the event says
  shows_presence : ℕ → String → String → M → Call M
  closes_browser : String → String → Call M
  sweeps_memory : Call M

module _ {M : Type 0} (encoded_len : Envelope M → ℕ) (event_len : Event M → ℕ)
    (encode_direct : Control → List ℕ) (message_id : ℕ → String) where
  unfoldable pub perform : Call M → Hub M → Hub M
  unfolding browser_ack browser_resync browser_subscribe browser_unsubscribe
      ensure_bindings_for_device fan_out_events handle_upstream_snapshot handle_upstream_subscribed
      register_browser remove_browser fan_out_presence close_browser sweep_global_memory recv insert
      lookup
  perform (registers conn o) h = register_browser conn o h
  perform (receives conn) h = record h { browsers = update conn (λ o. (recv o).1) h.browsers }
  perform (subscribes fresh conn key needs correlation) h =
      browser_subscribe encode_direct fresh conn key needs correlation h
  perform (resyncs conn id correlation) h = browser_resync encode_direct conn id correlation h
  perform (acks conn id sequence) h = browser_ack conn id sequence h
  perform (unsubscribes conn id) h = browser_unsubscribe conn id h
  perform (leaves conn) h = remove_browser conn h
  perform (comes_online device owner) h = ensure_bindings_for_device device owner h
  perform (is_subscribed uid epoch base) h =
      handle_upstream_subscribed encode_direct uid epoch base h
  perform (sends_snapshot now uid env) h =
      handle_upstream_snapshot encoded_len event_len encode_direct message_id now uid env h
  perform (sends_events now uid inc events) h =
      fan_out_events encoded_len event_len encode_direct message_id now uid inc events h
  perform (shows_presence now device owner presence) h =
      fan_out_presence encoded_len encode_direct message_id now device owner presence h
  perform (closes_browser conn reason) h = (close_browser conn reason h).0
  perform sweeps_memory h = (sweep_global_memory encode_direct h).0

  unfoldable pub perform_all : List (Call M) → Hub M → Hub M
  unfolding perform
  perform_all [] h = h
  perform_all (c ∷ cs) h = perform_all cs (perform c h)

abbrev pub empty_hub : {M : Type 0} → Hub M
empty_hub = record {
  streams = [];
  upstream_index = [];
  browsers = [];
  browser_streams = [];
  asked = [];
}
