-- ===== src/Relay/Streams/State.antt =====
-- The state of a stream in apps/relay/src/realtime/mod.rs, and the part of the hub that its
-- handlers use. Identifiers are their texts. Sequence numbers and epochs count up from one in 64
-- bits and are taken not to wrap.
use agent_console.Base.{
  ◌≡◌, ◌↔◌, ◌==◌, ◌&&◌, arith, eqb, eqb_iff, Bool, Eq, false, List, nat_eq, Option, refl, String,
  string_eq, Table, true, [], ℕ, ◌*◌,
}
use agent_console.Relay.Frame.Messages.{Event, Frame}
use agent_console.Relay.StreamBuffer.{StreamBuffer}
use agent_console.Relay.StreamBuffer

pub data TargetTag : Type 0 where
  list_target : TargetTag
  -- the device, the number of the agent's kind, and the session's native id
  session_target : String → ℕ → String → TargetTag

abbrev pub same_target : TargetTag → TargetTag → Bool
same_target list_target list_target = true
same_target (session_target d a n) (session_target e b m) = (d == e && eqb a b) && n == m
same_target _ _ = false

pub same_target_iff : (t u : TargetTag) → (same_target t u ≡ true) ↔ (t ≡ u)
same_target_iff list_target list_target = (λ h. refl, λ h. refl)
same_target_iff list_target (session_target e b m) = (λ h. cc, λ h. cc)
same_target_iff (session_target d a n) list_target = (λ h. cc, λ h. cc)
same_target_iff (session_target d a n) (session_target e b m) =
    ground (arith, string_eq.equals_iff d e, string_eq.equals_iff n m, eqb_iff a b)

-- The owner and the target.
pub record DKey : Type 0 where
  pub owner : String
  pub tag : TargetTag

pub same_key_iff : (k j : DKey) → ((k.owner == j.owner && same_target k.tag j.tag) ≡ true) ↔ (k ≡ j)
same_key_iff k j = ground (arith, string_eq.equals_iff k.owner j.owner, same_target_iff k.tag j.tag)

instance abbrev pub dkey_eq : Eq DKey
dkey_eq = record {
  equals = λ k j. k.owner == j.owner && same_target k.tag j.tag;
  equals_iff = same_key_iff;
}

pub record SubscriberState : Type 0 where
  pub awaiting_snapshot : Bool
  pub acked : ℕ
  pub subscribe_correlation : String

pub record UpstreamBinding : Type 0 where
  pub device : String
  pub epoch : ℕ
  pub last_seq : ℕ
  pub snapshot_covers : ℕ
  pub snapshot_received : Bool

pub record PendingUpstreamBatch (M : Type 0) : Type 0 where
  pub upstream_id : String
  pub upstream_seq : ℕ
  pub sent_at : Option ℕ
  pub device_id : String
  pub events : List (Event M)

pub record DStream (M : Type 0) : Type 0 where
  pub key : DKey
  pub stream_id : String
  pub epoch : ℕ
  pub next_seq : ℕ
  pub snapshots : List (Frame M)
  pub pending_batches : List (PendingUpstreamBatch M)
  pub pending_bytes : ℕ
  pub pending_events : ℕ
  pub buffer : StreamBuffer M
  pub subscribers : Table String SubscriberState
  pub upstreams : Table String UpstreamBinding

abbrev pub snapshot_cache_max : ℕ
snapshot_cache_max = 16

abbrev pub buffer_retention : ℕ
buffer_retention = 15 * 60

abbrev pub buffer_max_events : ℕ
buffer_max_events = 10000

abbrev pub buffer_max_bytes : ℕ
buffer_max_bytes = 16 * 1024 * 1024

abbrev pub snapshot_pending_max_events : ℕ
snapshot_pending_max_events = 1024

module _ {M : Type 0} where
  -- `stream_id` is the fresh id; the clock counts seconds.
  unfoldable pub new : String → DKey → DStream M
  new stream_id key = record {
    key = key;
    stream_id = stream_id;
    epoch = 1;
    next_seq = 1;
    snapshots = [];
    pending_batches = [];
    pending_bytes = 0;
    pending_events = 0;
    buffer = StreamBuffer.new buffer_max_events buffer_max_bytes buffer_retention;
    subscribers = [];
    upstreams = [];
  }
