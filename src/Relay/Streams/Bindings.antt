-- ===== src/Relay/Streams/Bindings.antt =====
-- The bindings of a stream to its upstreams in apps/relay/src/realtime/mod.rs: those that a
-- subscription needs, and those of a device that comes online. `fresh` is the id drawn for a new
-- stream.
use agent_console.Base.{
  ◌&&◌, ◌==◌, ◌∷◌, Bool, false, if◌then◌else◌, insert, is_none, keep, List, lookup, nat_eq, none,
  some, String, string_eq, Table, true, [],
}
use agent_console.Relay.Streams.State.{
  DKey, DStream, dkey_eq, list_target, new, session_target, TargetTag, UpstreamBinding,
}
use agent_console.Relay.Streams.Hub.{ask, forget, Hub, keys, rebound, update, upstream_stream_id}

abbrev pub is_session : TargetTag → Bool
is_session list_target = false
is_session (session_target d a n) = true

abbrev pub new_binding : String → UpstreamBinding
new_binding device = record {
  device = device;
  epoch = 0;
  last_seq = 0;
  snapshot_covers = 0;
  snapshot_received = false;
}

-- An upstream that has its snapshot.
abbrev pub has_snapshot : String → Table String UpstreamBinding → Bool
has_snapshot uid t = elim (lookup uid t) [ none ↦ false | some b ↦ b.snapshot_received ]

-- The device comes online: the owner's streams that it serves are bound to it.
abbrev pub serves : String → String → DKey → Bool
serves device owner key =
    key.owner == owner && elim key.tag [ list_target ↦ true | session_target d a n ↦ d == device ]

module _ {M : Type 0} where
  abbrev pub stream_at : String → DKey → Hub M → DStream M
  stream_at fresh key h = elim (lookup key h.streams) [ none ↦ new fresh key | some d ↦ d ]

  abbrev pub bind_upstream : String → String → DKey → DStream M → Hub M → Hub M
  bind_upstream uid device key d h = record h {
    streams =
        insert key (record d { upstreams = insert uid (new_binding device) d.upstreams }) h.streams;
    upstream_index = insert uid key h.upstream_index;
  }

  -- A session's snapshot is its whole state: a new subscription asks for a new one.
  abbrev pub renew_upstream : String → DStream M → DStream M
  renew_upstream uid d = let e = forget d in record e { upstreams = update uid rebound d.upstreams }

  -- One turn of the loop over the bindings that a subscription needs.
  unfoldable pub need_binding : String → DKey → String × TargetTag → Hub M → Hub M
  unfolding forget upstream_stream_id new insert lookup
  need_binding fresh key (device, tag) h =
      let uid = upstream_stream_id device tag in
      let d = stream_at fresh key h in
      if is_none (lookup uid d.upstreams)
      then ask ((device, tag) ∷ []) (bind_upstream uid device key d h)
      else if is_session key.tag && has_snapshot uid d.upstreams
      then ask ((device, tag) ∷ [])
          (record h { streams = insert key (renew_upstream uid d) h.streams })
      else record h { streams = insert key d h.streams }

  unfoldable pub need_bindings : String → DKey → List (String × TargetTag) → Hub M → Hub M
  unfolding need_binding
  need_bindings fresh key [] h = h
  need_bindings fresh key (n ∷ ns) h = need_bindings fresh key ns (need_binding fresh key n h)

  unfoldable pub ensure_binding : String → DKey → Hub M → Hub M
  unfolding upstream_stream_id insert lookup
  ensure_binding device key h =
      let uid = upstream_stream_id device key.tag in
      elim (lookup key h.streams) [
        | none ↦ h
        | some d ↦
            if is_none (lookup uid d.upstreams)
            then ask ((device, key.tag) ∷ []) (bind_upstream uid device key d h)
            else h
      ]

  unfoldable pub ensure_all : String → List DKey → Hub M → Hub M
  unfolding ensure_binding
  ensure_all device [] h = h
  ensure_all device (k ∷ ks) h = ensure_all device ks (ensure_binding device k h)

  unfoldable pub ensure_bindings_for_device : String → String → Hub M → Hub M
  unfolding ensure_all
  ensure_bindings_for_device device owner h =
      ensure_all device (keep (serves device owner) (keys h.streams)) h
