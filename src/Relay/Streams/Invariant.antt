-- ===== src/Relay/Streams/Invariant.antt =====
-- What holds of every stream of a hub after any history.
pub mod Tables
pub mod Browsers
pub mod Bridges
pub mod Upkeep
use agent_console.Base.{◌∷◌, keep, List, String, string_eq, [], ℕ}
use agent_console.Relay.Frame.Messages.{Envelope, Event}
use agent_console.Relay.Streams.State.{dkey_eq}
use agent_console.Relay.Streams.Hub.{Control, Hub, keys}
use agent_console.Relay.Streams.Browsers.{register_browser}
use agent_console.Relay.Streams.Bindings.{ensure_bindings_for_device, serves}
use agent_console.Relay.Streams.History.{
  acks, Call, closes_browser, comes_online, shows_presence, sweeps_memory, empty_hub, is_subscribed,
  leaves, perform, perform_all, receives, registers, resyncs, sends_events, sends_snapshot,
  subscribes, unsubscribes,
}
use agent_console.Relay.Streams.Invariant.Tables.{AreSound}
use agent_console.Relay.Streams.Invariant.Browsers.{
  browser_ack-AreSound, browser_resync-AreSound, browser_subscribe-AreSound,
  browser_unsubscribe-AreSound, ensure_all-AreSound, remove_browser-AreSound,
}
use agent_console.Relay.Streams.Invariant.Bridges.{
  fan_out_events-AreSound, handle_upstream_snapshot-AreSound, handle_upstream_subscribed-AreSound,
}
use agent_console.Relay.Streams.Invariant.Upkeep.{
  close_browser-AreSound, fan_out_presence-AreSound, sweep_global_memory-AreSound,
}

module _ {M : Type 0} (event_len : Event M → ℕ) where
  module _ (encoded_len : Envelope M → ℕ) (encode_direct : Control → List ℕ)
      (message_id : ℕ → String) where
    perform-AreSound :
        (c : Call M) (h : Hub M)
        → AreSound event_len h
        → AreSound event_len (perform encoded_len event_len encode_direct message_id c h)
    unfolding perform register_browser ensure_bindings_for_device
    perform-AreSound (registers conn o) h a = a
    perform-AreSound (receives conn) h a = a
    perform-AreSound (subscribes fresh conn key needs correlation) h a =
        browser_subscribe-AreSound event_len encode_direct fresh conn key needs correlation h a
    perform-AreSound (resyncs conn id correlation) h a =
        browser_resync-AreSound event_len encode_direct conn id correlation h a
    perform-AreSound (acks conn id n) h a = browser_ack-AreSound event_len conn id n h a
    perform-AreSound (unsubscribes conn id) h a = browser_unsubscribe-AreSound event_len conn id h a
    perform-AreSound (leaves conn) h a = remove_browser-AreSound event_len conn h a
    perform-AreSound (comes_online device owner) h a =
        ensure_all-AreSound event_len device (keep (serves device owner) (keys h.streams)) h a
    perform-AreSound (is_subscribed uid epoch base) h a =
        handle_upstream_subscribed-AreSound event_len encode_direct uid epoch base h a
    perform-AreSound (sends_snapshot now uid env) h a =
        handle_upstream_snapshot-AreSound event_len encode_direct encoded_len message_id now uid env
          h a
    perform-AreSound (sends_events now uid inc es) h a =
        fan_out_events-AreSound event_len encode_direct encoded_len message_id now uid inc es h a
    perform-AreSound (shows_presence now device owner presence) h a =
        fan_out_presence-AreSound event_len encode_direct encoded_len message_id now device owner
          presence h a
    perform-AreSound (closes_browser conn reason) h a =
        close_browser-AreSound event_len conn reason h a
    perform-AreSound sweeps_memory h a = sweep_global_memory-AreSound event_len encode_direct h a

    perform_all-AreSound :
        (cs : List (Call M)) (h : Hub M)
        → AreSound event_len h
        → AreSound event_len (perform_all encoded_len event_len encode_direct message_id cs h)
    unfolding perform_all
    perform_all-AreSound [] h a = a
    perform_all-AreSound (c ∷ cs) h a =
        perform_all-AreSound cs (perform encoded_len event_len encode_direct message_id c h)
          (perform-AreSound c h a)

    -- After any history of an empty hub every stream is sound: the counts of its stash are exact,
    -- its cached and buffered frames have numbers below the next one, and its cache of snapshots
    -- is within its limit.
    pub history-AreSound :
        (cs : List (Call M))
        → AreSound event_len
            (perform_all encoded_len event_len encode_direct message_id cs empty_hub)
    history-AreSound cs = perform_all-AreSound cs empty_hub tt
