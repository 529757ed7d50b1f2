-- ===== src/Relay/Streams/Subscribed.antt =====
-- `handle_upstream_subscribed` of apps/relay/src/realtime/mod.rs: an upstream answers a subscription
-- with its epoch and the number from which its snapshot holds.
use agent_console.Base.{
  ◌&&◌, ◌+◌, ◌-◌, ◌==◌, ◌∷◌, Bool, eqb, false, if◌then◌else◌, insert, keep, List, lookup, map,
  nat_eq, none, not, some, String, string_eq, Table, [], ℕ,
}
use agent_console.Relay.Streams.State.{DStream, dkey_eq, TargetTag, UpstreamBinding}
use agent_console.Relay.Streams.Hub.{
  announce_resync, ask, Control, forget, Hub, keys, rebound, update, upstream_stream_id,
}
use agent_console.Relay.Streams.Upstream.{find_upstream}

-- The upstream's new epoch and its mark, one below the base.
abbrev pub fixed : ℕ → ℕ → UpstreamBinding → UpstreamBinding
fixed stream_epoch base_sequence b = record b {
  epoch = stream_epoch;
  last_seq = base_sequence - 1;
  snapshot_covers = base_sequence;
  snapshot_received = false;
}

abbrev pub epoch_changed : ℕ → UpstreamBinding → Bool
epoch_changed stream_epoch b = b.snapshot_received && not (eqb b.epoch stream_epoch)

unfoldable pub rebind_all :
    List String → TargetTag → Table String UpstreamBinding → Table String UpstreamBinding
unfolding insert lookup
rebind_all [] tag t = t
rebind_all (device ∷ ds) tag t =
    rebind_all ds tag (update (upstream_stream_id device tag) rebound t)

module _ {M : Type 0} where
  -- The other upstreams of the stream, which are subscribed to again.
  abbrev pub others : String → DStream M → Table String UpstreamBinding
  others uid d = keep (λ e. not (e.0 == uid)) d.upstreams

  abbrev pub rebind : String → DStream M → DStream M
  rebind uid d = record d {
    upstreams = rebind_all (map (λ o. o.1.device) (others uid d)) d.key.tag d.upstreams;
  }

  unfoldable pub reset_for : String → DStream M → DStream M
  unfolding forget rebind_all
  reset_for uid d = let e = forget d in rebind uid (record e { epoch = d.epoch + 1 })

  module _ (encode_direct : Control → List ℕ) where
    unfoldable pub handle_upstream_subscribed : String → ℕ → ℕ → Hub M → Hub M
    unfolding forget announce_resync reset_for insert lookup
    handle_upstream_subscribed uid stream_epoch base_sequence h = elim (find_upstream uid h) [
      | none ↦ h
      | some (key, d, b) ↦
          let e = record d {
            upstreams = insert uid (fixed stream_epoch base_sequence b) d.upstreams;
          } in
          if not (epoch_changed stream_epoch b)
          then record h { streams = insert key e h.streams }
          else ask (map (λ o. (o.1.device, key.tag)) (others uid e)) (record h {
            streams = insert key (reset_for uid e) h.streams;
            browsers = announce_resync encode_direct e.stream_id (keys e.subscribers) h.browsers;
          })
    ]
