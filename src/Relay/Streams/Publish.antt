-- ===== src/Relay/Streams/Publish.antt =====
-- The loop of `fan_out_events` in apps/relay/src/realtime/mod.rs: each event becomes a frame of the
-- stream, goes into the replay buffer and out to the subscribers. `now` is the clock, and
-- `message_id` gives the id drawn for the frame with a number.
use Prim.Native.String.{◌++◌ as str_append}
use agent_console.Base.{
  ◌&&◌, ◌++◌, ◌+◌, ◌∷◌, Bool, decimal, eqb, false, if◌then◌else◌, insert, leb, List, lookup, nat_eq,
  none, not, Option, some, String, string_eq, Table, true, [], ℕ,
}
use agent_console.Relay.Frame.Messages.{
  Envelope, Event, event_batch, EventBatch, Frame, MergeInfo, Payload,
}
use agent_console.Relay.Frame.Classify.{classify, scoped}
use agent_console.Relay.Frame.Merge.{with_upstream_seq}
use agent_console.Relay.Outbox.{Outbox, PushError, slow_consumer, is_closed_error, push_frame}
use agent_console.Relay.StreamBuffer.{insert_frame, InsertOutcome, overflow_reset, buffered}
use agent_console.Relay.Streams.State.{DStream, dkey_eq, SubscriberState}
use agent_console.Relay.Streams.Hub.{announce_resync, Control, keys, View}

-- PROTOCOL_VERSION of crates/protocol, and AgentKind::CodexDesktop.
abbrev pub protocol_version : ℕ
protocol_version = 1

abbrev pub codex_desktop : ℕ
codex_desktop = 1

-- `format!("{}/{}/{}", stream_id, epoch, device)`
abbrev pub merge_scope : String → ℕ → String → String
merge_scope stream_id epoch device =
    str_append stream_id (str_append "/" (str_append (decimal epoch) (str_append "/" device)))

-- What `fan_out_events` reads of the envelope of a batch.
pub record Incoming : Type 0 where
  pub sequence : ℕ
  pub sent_at : Option ℕ
  pub device_id : String

abbrev pub is_empty {ℓ} : {A : Type ℓ} → List A → Bool
is_empty [] = true
is_empty (x ∷ xs) = false

-- An upstream number of zero is none.
abbrev pub known_seq : ℕ → Option ℕ
known_seq n = if eqb n 0 then none else some n

-- The number of a batch is known and not above `n`.
abbrev pub seen : ℕ → ℕ → Bool
seen sequence n = not (eqb sequence 0) && leb sequence n

abbrev pub scoped_merge : String → Option MergeInfo → Option MergeInfo
scoped_merge scope none = none
scoped_merge scope (some m) = some (scoped scope m)

module _ {M : Type 0} where
  unfoldable pub base_envelope : ℕ → String → String → Payload M → Envelope M
  base_envelope now id device payload = record {
    protocol_version = protocol_version;
    message_id = id;
    correlation_id = "";
    sent_at = some now;
    device_id = device;
    agent_kind = codex_desktop;
    stream_id = "";
    stream_epoch = 0;
    sequence = 0;
    payload = some payload;
    provider_extension = none;
  }

  -- The place of a frame in a stream.
  abbrev pub placed_in : DStream M → Envelope M → Envelope M
  placed_in d env = record env {
    stream_id = d.stream_id;
    stream_epoch = d.epoch;
    sequence = d.next_seq;
  }

  -- One turn of the loop over the subscribers: a slow one is noted.
  abbrev pub noted : String → Option PushError × Outbox M → List String → List String
  noted conn (some slow_consumer, o) slow = slow ++ conn ∷ []
  noted conn (some is_closed_error, o) slow = slow
  noted conn (none, o) slow = slow

  abbrev pub push_to :
      Frame M
      → String
      → Table String (Outbox M) × List String
      → Table String (Outbox M) × List String
  push_to f conn (t, slow) = elim (lookup conn t) [
    | none ↦ (t, slow)
    | some o ↦ (insert conn (push_frame f o).1 t, noted conn (push_frame f o) slow)
  ]

  -- A frame goes to the subscribers that have had their snapshot.
  unfoldable pub fan_live :
      Frame M
      → Table String SubscriberState
      → Table String (Outbox M) × List String
      → Table String (Outbox M) × List String
  unfolding lookup insert push_frame
  fan_live f [] r = r
  fan_live f ((conn, s) ∷ subs) r =
      fan_live f subs (if s.awaiting_snapshot then r else push_to f conn r)

  abbrev pub batch_in : DStream M → Incoming → Event M → EventBatch M
  batch_in d inc e = record {
    stream_id = d.stream_id;
    events = (record { emitted_at = inc.sent_at; event = some e }) ∷ [];
  }

  module _ (encoded_len : Envelope M → ℕ) (message_id : ℕ → String) (now : ℕ) where
    unfoldable pub event_frame : Incoming → DStream M → Event M → Frame M
    unfolding classify scoped with_upstream_seq base_envelope
    event_frame inc d e =
        let id = message_id d.next_seq in
        let env = base_envelope now id inc.device_id (event_batch (batch_in d inc e)) in
        with_upstream_seq encoded_len now (placed_in d env) (classify e).0
          (scoped_merge (merge_scope d.stream_id d.epoch inc.device_id) (classify e).1)
          (known_seq inc.sequence)

  module _ (encoded_len : Envelope M → ℕ) (now : ℕ) where
    abbrev pub numbered : Frame M → DStream M → DStream M × InsertOutcome
    numbered f d =
        let (b, outcome) = insert_frame encoded_len now f d.buffer in
        (record d { next_seq = d.next_seq + 1; buffer = b }, outcome)

  module _ (encode_direct : Control → List ℕ) where
    abbrev pub spread :
        Frame M → DStream M × InsertOutcome → View M × List String → View M × List String
    spread f (d, overflow_reset) (v, slow) = (
      record v {
        stream = d;
        browsers = announce_resync encode_direct d.stream_id (keys d.subscribers) v.browsers;
      },
      slow,
    )
    spread f (d, buffered) (v, slow) =
        let r = fan_live f d.subscribers (v.browsers, slow) in
        (record v { stream = d; browsers = r.0 }, r.1)

  module _ (encoded_len : Envelope M → ℕ) (encode_direct : Control → List ℕ)
      (message_id : ℕ → String) (now : ℕ) where
    -- One turn of the loop over the events.
    unfoldable pub publish : Incoming → Event M → View M × List String → View M × List String
    unfolding event_frame insert_frame announce_resync fan_live
    publish inc e r =
        let f = event_frame encoded_len message_id now inc r.0.stream e in
        spread encode_direct f (numbered encoded_len now f r.0.stream) r

    unfoldable pub publish_all :
        Incoming → List (Event M) → View M × List String → View M × List String
    unfolding publish
    publish_all inc [] r = r
    publish_all inc (e ∷ es) r = publish_all inc es (publish inc e r)
