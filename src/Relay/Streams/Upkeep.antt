-- ===== src/Relay/Streams/Upkeep.antt =====
-- The hub's own actions on the streams in apps/relay/src/realtime/mod.rs: presence, the closing of a
-- browser, and the sweep of the memory. `presence` is what the event says beyond the device.
use agent_console.Base.{
  any, Bool, if◌then◌else◌, insert, keep, List, lookup, ltb, nat_eq, none, not, Option, remove,
  some, String, string_eq, Table, total, [], ℕ, ◌&&◌, ◌*◌, ◌+◌, ◌==◌, ◌∷◌,
}
use agent_console.Relay.Frame.Messages.{
  critical, device_presence_changed, Envelope, event_batch, Frame,
}
use agent_console.Relay.Frame.Merge.{with_upstream_seq}
use agent_console.Relay.Outbox.{close, Outbox}
use agent_console.Relay.StreamBuffer.{clear, insert_frame}
use agent_console.Relay.Streams.State.{DKey, dkey_eq, DStream}
use agent_console.Relay.Streams.Stash.{clear_pending}
use agent_console.Relay.Streams.Hub.{
  announce_resync, Control, detach_all, Hub, keys, put_view, view_of,
}
use agent_console.Relay.Streams.Publish.{
  base_envelope, batch_in, fan_live, Incoming, is_empty, numbered, placed_in,
}
use agent_console.Relay.Streams.Browsers.{detach_subscriber}
use agent_console.Relay.Streams.Bindings.{is_session}

-- GLOBAL_BUFFER_MAX_BYTES
abbrev pub global_buffer_max_bytes : ℕ
global_buffer_max_bytes = 256 * 1024 * 1024

unfoldable pub forget_ids : List String → Table String DKey → Table String DKey
unfolding remove
forget_ids [] t = t
forget_ids (c ∷ cs) t = forget_ids cs (remove c t)

module _ {M : Type 0} where
  -- There is no snapshot yet and nobody takes live frames.
  abbrev pub is_quiet : DStream M → Bool
  is_quiet d = is_empty d.snapshots && not (any (λ e. not e.1.awaiting_snapshot) d.subscribers)

  abbrev pub lists_of : String → Table DKey (DStream M) → List DKey
  lists_of owner t = keep (λ k. k.owner == owner && not (is_session k.tag)) (keys t)

  module _ (encoded_len : Envelope M → ℕ) (message_id : ℕ → String) (now : ℕ) where
    unfoldable pub presence_frame : String → M → DStream M → Frame M
    unfolding with_upstream_seq base_envelope
    presence_frame device presence d =
        let said : Incoming = record { sequence = 0; sent_at = some now; device_id = device } in
        let events = batch_in d said (device_presence_changed (some device) presence) in
        let env = base_envelope now (message_id d.next_seq) device (event_batch events) in
        with_upstream_seq encoded_len now (placed_in d env) critical none none

  module _ (encoded_len : Envelope M → ℕ) (encode_direct : Control → List ℕ)
      (message_id : ℕ → String) (now : ℕ) where
    -- What the insertion answers is not looked at.
    unfoldable pub present_at : String → M → DKey → DStream M → Hub M → Hub M
    unfolding presence_frame insert_frame fan_live detach_all insert
    present_at device presence key d h =
        let f = presence_frame encoded_len message_id now device presence d in
        let e = (numbered encoded_len now f d).0 in
        let (told, slow) = fan_live f e.subscribers (h.browsers, []) in
        let v = record (view_of e h) { browsers = told } in
        if is_quiet d then h else put_view key (detach_all encode_direct key slow v) h

    unfoldable pub present_all : String → M → List DKey → Hub M → Hub M
    unfolding present_at lookup
    present_all device presence [] h = h
    present_all device presence (k ∷ ks) h =
        present_all device presence ks
          (elim (lookup k h.streams) [ none ↦ h | some d ↦ present_at device presence k d h ])

    unfoldable pub fan_out_presence : String → String → M → Hub M → Hub M
    unfolding present_all
    fan_out_presence device owner presence h =
        present_all device presence (lists_of owner h.streams) h

  -- The outbox goes with its connection, which finds it closed.
  unfoldable pub close_browser : String → String → Hub M → Hub M × Option (Outbox M)
  unfolding detach_subscriber close lookup remove
  close_browser conn reason h = elim (lookup conn h.browsers) [
    | none ↦ (h, none)
    | some o ↦ (
      detach_subscriber conn (record h { browsers = remove conn h.browsers }),
      some (close reason o),
    )
  ]

  abbrev pub is_deserted : DStream M → Bool
  is_deserted d = is_empty d.subscribers

  abbrev pub upstream_ids : Option (DStream M) → List String
  upstream_ids none = []
  upstream_ids (some d) = keys d.upstreams

  -- A stream without a subscriber goes, and its upstreams' routes with it.
  unfoldable pub retire_all : List DKey → Hub M → Hub M
  unfolding forget_ids lookup remove
  retire_all [] h = h
  retire_all (k ∷ ks) h = retire_all ks (record h {
    streams = remove k h.streams;
    upstream_index = forget_ids (upstream_ids (lookup k h.streams)) h.upstream_index;
  })

  abbrev pub deserted : Table DKey (DStream M) → List DKey
  deserted t = keys (keep (λ e. is_deserted e.1) t)

  abbrev pub charged : DStream M → ℕ
  charged d = d.buffer.bytes + d.pending_bytes

  -- The first of the streams that are charged most, from the one found so far.
  unfoldable pub worst_of : Option (DKey × ℕ) → Table DKey (DStream M) → Option (DKey × ℕ)
  worst_of found [] = found
  worst_of none ((k, d) ∷ t) = worst_of (some (k, charged d)) t
  worst_of (some (j, n)) ((k, d) ∷ t) =
      worst_of (if ltb n (charged d) then some (k, charged d) else some (j, n)) t

  abbrev pub estimate : Hub M → ℕ
  estimate h = total (λ e. charged e.1) h.streams + total (λ e. e.1.bytes) h.browsers

  unfoldable pub emptied : DStream M → DStream M
  unfolding clear clear_pending
  emptied d = let e = clear_pending d in record e { snapshots = []; buffer = clear d.buffer }

  module _ (encode_direct : Control → List ℕ) where
    abbrev pub relieve_at : Option (DKey × ℕ) → Hub M → Hub M
    relieve_at none h = h
    relieve_at (some (key, n)) h = elim (lookup key h.streams) [
      | none ↦ h
      | some d ↦ record h {
        streams = insert key (emptied d) h.streams;
        browsers = announce_resync encode_direct d.stream_id (keys d.subscribers) h.browsers;
      }
    ]

    -- The estimate is published with the new state.
    unfoldable pub sweep_global_memory : Hub M → Hub M × ℕ
    unfolding retire_all worst_of emptied announce_resync lookup insert
    sweep_global_memory h =
        let g = retire_all (deserted h.streams) h in
        let n = estimate g in
        (if ltb global_buffer_max_bytes n then relieve_at (worst_of none g.streams) g else g, n)
