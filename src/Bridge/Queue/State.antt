-- ===== src/Bridge/Queue/State.antt =====
-- What commands/queue.rs keeps and meets: the identifiers of domain/ids.rs, the parts of a runtime
-- snapshot and of an event that it reads, and `retry_busy`. Every query of the store takes one
-- entry of `faults`: `some e` is a failure in SQLite that leaves the store as it was. `sent` logs
-- the commands that went to the adapter, newest first.
use agent_console.Base.{
  Bool, List, Option, String, Table, [], false, if◌then◌else◌, nat_eq, none, some, string_eq, suc,
  zero, ℕ, ◌-◌, ◌∷◌,
}
use agent_console.Bridge.Store.{
  SessionKeyRef, StoreError, sqlx, duplicate_request_mismatch, queue_already_exists, Stored, err,
  LocalStore,
}

pub data AgentKind : Type 0 where
  codex_desktop zcode_desktop : AgentKind

unfoldable pub proto_value : AgentKind → ℕ
proto_value codex_desktop = 1
proto_value zcode_desktop = 2

pub record SessionKey : Type 0 where
  pub device_id : String
  pub agent_kind : AgentKind
  pub native_session_id : String
  pub relay_session_uuid : Option String

unfoldable pub session_ref : SessionKey → SessionKeyRef
unfolding proto_value
session_ref key = record {
  device_id = key.device_id;
  agent_kind = proto_value key.agent_kind;
  native_session_id = key.native_session_id;
}

pub record TurnId : Type 0 where
  pub id : String
  pub synthetic : Bool

-- Of the questions and approvals that wait, only whether there are any is read.
pub record RuntimeSnapshot : Type 0 where
  pub runtime_revision : ℕ
  pub current_turn : Option TurnId
  pub pending_questions : List String
  pub pending_approvals : List String

pub data ActiveTurnPhase : Type 0 where
  idle running finishing : ActiveTurnPhase

pub data LastTurnOutcome : Type 0 where
  completed failed interrupted unknown : LastTurnOutcome

pub data DomainEvent : Type 0 where
  turn_lifecycle : TurnId → ActiveTurnPhase → Option LastTurnOutcome → DomainEvent
  other_event : DomainEvent

pub data StableErrorCode : Type 0 where
  auth_required auth_expired csrf_invalid ws_ticket_invalid ws_ticket_expired : StableErrorCode
  ws_ticket_consumed device_offline device_revoked codex_unavailable : StableErrorCode
  codex_version_unverified control_read_only capability_unsupported : StableErrorCode
  session_not_found stale_turn duplicate_request_mismatch_code outcome_unknown : StableErrorCode
  resync_required queue_already_exists_code queue_paused question_expired : StableErrorCode
  approval_expired setting_combination_unsupported file_handle_invalid : StableErrorCode
  file_outside_scope file_changed file_type_not_previewable transfer_expired : StableErrorCode
  transfer_too_large transfer_range_invalid diff_too_large rate_limited : StableErrorCode
  internal_error : StableErrorCode

pub data ReceiptState : Type 0 where
  dispatched_to_codex receipt_completed : ReceiptState
  rejected : StableErrorCode → ReceiptState
  receipt_outcome_unknown : ReceiptState

unfoldable pub receipt_status_str : ReceiptState → String
receipt_status_str dispatched_to_codex = "DISPATCHED_TO_CODEX"
receipt_status_str receipt_completed = "COMPLETED"
receipt_status_str (rejected code) = "REJECTED"
receipt_status_str receipt_outcome_unknown = "OUTCOME_UNKNOWN"

-- The result of a public operation: a `BridgeError` is its code, without the message.
pub data Outcome {ℓ} (A : Type ℓ) : Type ℓ where
  done : A → Outcome A
  failed_with : StableErrorCode → Outcome A

unfoldable pub store_error_code : StoreError → StableErrorCode
store_error_code (sqlx locked) = internal_error
store_error_code (duplicate_request_mismatch id) = duplicate_request_mismatch_code
store_error_code queue_already_exists = queue_already_exists_code

-- A `StartTurn` with the queued text, without an expected turn or revision.
pub record Command : Type 0 where
  pub request_id : String
  pub session_key : SessionKey
  pub input : String

pub record World : Type 0 where
  pub store : LocalStore
  pub watchers : Table String (Unit {0})
  pub auto_send_inflight : Table String (Unit {0})
  pub faults : List (Option StoreError)
  pub now : String
  pub sent : List Command

abbrev pub Query {ℓ} : Type ℓ → Type ℓ
Query A = LocalStore → Stored A × LocalStore

abbrev pub query_at {ℓ} :
    {A : Type ℓ} → Query A → List (Option StoreError) → World → Stored A × World
query_at op [] w = ((op w.store).0, record w { store = (op w.store).1 })
query_at op (none ∷ fs) w = ((op w.store).0, record w { store = (op w.store).1; faults = fs })
query_at op (some e ∷ fs) w = (err e, record w { faults = fs })

unfoldable pub query {ℓ} : {A : Type ℓ} → Query A → World → Stored A × World
query op w = query_at op w.faults w

abbrev pub is_busy {ℓ} : {A : Type ℓ} → Stored A → Bool
is_busy (err (sqlx locked)) = locked
is_busy _ = false

-- `attempts` more tries are left after the first.
unfoldable pub retry {ℓ} : {A : Type ℓ} → ℕ → Query A → World → Stored A × World
unfolding query
retry zero op w = query op w
retry (suc attempts) op w =
    let (r, w') = query op w in
    let again = retry attempts op w' in if is_busy r then again else (r, w')

abbrev pub max_attempts : ℕ
max_attempts = 10

unfoldable pub retry_busy {ℓ} : {A : Type ℓ} → Query A → World → Stored A × World
unfolding retry
retry_busy op w = retry (max_attempts - 1) op w
