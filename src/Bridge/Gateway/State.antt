-- ===== src/Bridge/Gateway/State.antt =====
-- What commands/gateway.rs keeps and is asked: the requests of domain/commands.rs and the
-- capabilities of domain/capability.rs. A request's id is the text of its UUID. The caller's channel
-- of a command is the part of `delivered` under its id; `delivered` and `executed` log what was sent
-- to the callers and to the executor, newest first. A text of the domain is its string.
use agent_console.Base.{
  Bool, Eq, List, Option, String, Table, true, false, ◌==◌, ◌&&◌, string_eq, ◌↔◌, ◌≡◌, ℕ, arith,
  any,
}
use agent_console.Bridge.Queue.State.{
  ReceiptState, RuntimeSnapshot, SessionKey, TurnId, World, Outcome,
}

pub data Operation : Type 0 where
  create_session start_turn queue_next_turn steer_turn interrupt_turn answer_question : Operation
  submit_approval update_settings rename_session archive_session unarchive_session : Operation
  fork_session stop_background_command stop_all_background_commands : Operation

abbrev pub operation_name : Operation → String
operation_name create_session = "create_session"
operation_name start_turn = "start_turn"
operation_name queue_next_turn = "queue_next_turn"
operation_name steer_turn = "steer_turn"
operation_name interrupt_turn = "interrupt_turn"
operation_name answer_question = "answer_question"
operation_name submit_approval = "submit_approval"
operation_name update_settings = "update_settings"
operation_name rename_session = "rename_session"
operation_name archive_session = "archive_session"
operation_name unarchive_session = "unarchive_session"
operation_name fork_session = "fork_session"
operation_name stop_background_command = "stop_background_command"
operation_name stop_all_background_commands = "stop_all_background_commands"

pub data SettingKind : Type 0 where
  model reasoning_effort service_tier permission_mode collaboration_mode : SettingKind

pub record SettingUpdate : Type 0 where
  pub kind : SettingKind
  pub value : String

pub data CommandPayload : Type 0 where
  start_turn_payload steer_payload : (input : String) → CommandPayload
  interrupt_payload : CommandPayload
  answer_question_payload : String → List String → Option String → CommandPayload
  submit_approval_payload : (approval_id decision_id : String) → CommandPayload
  update_settings_payload : List SettingUpdate → CommandPayload
  queue_next_turn_payload : (input : String) (replace : Bool) → CommandPayload
  cancel_queue_payload pause_queue_payload : CommandPayload
  stop_background_command_payload : (command_id : String) → CommandPayload
  stop_all_background_commands_payload : CommandPayload

pub record CommandRequest : Type 0 where
  pub request_id : String
  pub operation : Operation
  pub session_key : SessionKey
  pub expected_turn_id : Option TurnId
  pub expected_runtime_revision : Option ℕ
  pub payload_digest : Option String
  pub payload : CommandPayload

pub data StoredReceiptState : Type 0 where
  stored_received stored_accepted stored_dispatched stored_completed : StoredReceiptState
  stored_rejected stored_outcome_unknown : StoredReceiptState

-- `Accepted` carries the receiving end of the caller's channel.
pub data Submission : Type 0 where
  accepted : Submission
  replayed : (request_id : String) → StoredReceiptState → Submission

pub data ControlMode : Type 0 where
  full_control limited_control read_only unavailable : ControlMode

-- The two fields that the gateway reads.
pub record CapabilitySet : Type 0 where
  pub control_mode : ControlMode
  pub supported_operations : List Operation

-- The names of two operations differ.
abbrev pub operation_beq : Operation → Operation → Bool
operation_beq a b = operation_name a == operation_name b

abbrev pub supports : Operation → CapabilitySet → Bool
supports op caps = any (operation_beq op) caps.supported_operations

-- `forwarding` holds the requests whose receipts a task of `spawn_forward` still forwards.
pub record CommandGateway : Type 0 where
  pub closed : Bool
  pub inflight : Table String (Unit {0})
  pub forwarding : Table String (Unit {0})
  pub world : World
  pub delivered : List (String × ReceiptState)
  pub executed : List CommandRequest

-- What the capability probe and the adapter answer to one submission; a result of the executor
-- is its stream, whose receipts come later.
pub record Replies : Type 0 where
  pub caps : CapabilitySet
  pub snap : Outcome RuntimeSnapshot
  pub exec : Outcome (Unit {0})
  pub subscribed : Bool

abbrev pub bool_beq : Bool → Bool → Bool
bool_beq true b = b
bool_beq false true = false
bool_beq false false = true

abbrev pub turn_beq : TurnId → TurnId → Bool
turn_beq a b = a.id == b.id && bool_beq a.synthetic b.synthetic

pub turn_beq_iff : (a b : TurnId) → (turn_beq a b ≡ true) ↔ (a ≡ b)
turn_beq_iff a b = ground (arith, string_eq.equals_iff a.id b.id)

instance abbrev pub turn_eq : Eq TurnId
turn_eq = record { equals = turn_beq; equals_iff = turn_beq_iff }
