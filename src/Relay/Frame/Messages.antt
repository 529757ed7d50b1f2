-- ===== src/Relay/Frame/Messages.antt =====
-- The envelope and the domain events of proto/agent_console/v1, and the frame of buffer.rs.
use agent_console.Base.{Bool, List, Option, String, false, nat_eq, string_eq, true, ℕ}

pub record ItemId : Type 0 where
  pub id : String
  pub synthetic : Bool

pub record OutputAppend : Type 0 where
  pub item_id : Option ItemId
  pub expected_offset : ℕ
  pub bytes : List ℕ
  pub channel : ℕ

-- The contents of an item that the code tells apart.
pub data Content (M : Type 0) : Type 0 where
  question : M → Content M
  approval : M → Content M
  token_usage : M → Content M
  other_content : M → Content M

pub record Item (M : Type 0) : Type 0 where
  pub item_id : Option ItemId
  pub content : Option (Content M)
  pub rest : M

pub data Event (M : Type 0) : Type 0 where
  turn_lifecycle : M → Event M
  item_upsert : Option (Item M) → Event M
  output_append : OutputAppend → Event M
  output_replace : M → Event M
  output_final : M → Event M
  session_summary_changed : M → Event M
  pending_attention_added : M → Event M
  pending_attention_removed : M → Event M
  queue_state_changed : M → Event M
  -- the command's id, if there is a command
  background_command_changed : Option String → M → Event M
  -- the device's id, if there is a presence
  device_presence_changed : Option String → M → Event M
  capability_changed : M → Event M

pub record DomainEvent (M : Type 0) : Type 0 where
  pub emitted_at : Option ℕ
  pub event : Option (Event M)

pub record EventBatch (M : Type 0) : Type 0 where
  pub stream_id : String
  pub events : List (DomainEvent M)

pub data Payload (M : Type 0) : Type 0 where
  event_batch : EventBatch M → Payload M
  other_payload : M → Payload M

pub record Envelope (M : Type 0) : Type 0 where
  pub protocol_version : ℕ
  pub message_id : String
  pub correlation_id : String
  pub sent_at : Option ℕ
  pub device_id : String
  pub agent_kind : ℕ
  pub stream_id : String
  pub stream_epoch : ℕ
  pub sequence : ℕ
  pub payload : Option (Payload M)
  pub provider_extension : Option M

pub data FrameKind : Type 0 where
  critical recoverable mergeable : FrameKind

abbrev pub same_kind : FrameKind → FrameKind → Bool
same_kind critical critical = true
same_kind recoverable recoverable = true
same_kind mergeable mergeable = true
same_kind _ _ = false

pub record AppendInfo : Type 0 where
  pub key : String
  pub offset : ℕ
  pub len : ℕ

pub data MergeInfo : Type 0 where
  append_info : AppendInfo → MergeInfo
  replace_latest : String → MergeInfo

-- `ts` is the time of the frame's making. The cache of the encoded frame is no state.
pub record Frame (M : Type 0) : Type 0 where
  pub env : Envelope M
  pub kind : FrameKind
  pub merge : Option MergeInfo
  pub upstream_seq : Option ℕ
  pub ts : ℕ
  pub bytes_len : ℕ
