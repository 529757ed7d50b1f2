-- ===== src/Bridge/Gateway/Submit.antt =====
-- `submit` of commands/gateway.rs, with the writing of a receipt. The digest of a payload, a SHA-256
-- of its JSON, is the parameter `canonical_payload_digest`. An error of the gateway or of the adapter
-- is its stable code.
use agent_console.Base.{
  Bool, Option, String, false, if◌then◌else◌, insert, is_some, nat_eq, none, not, option_beq,
  remove, some, string_eq, true, ℕ, ◌&&◌, ◌==◌, ◌||◌, ◌∷◌,
}
use agent_console.Bridge.Store.{
  RequestReceipt, ReceiptUpsertOutcome, Stored, err, existing, get_receipt, inserted, ok,
  record_receipt, update_receipt_status,
}
use agent_console.Bridge.Queue.State.{
  AgentKind, Outcome, ReceiptState, RuntimeSnapshot, StableErrorCode, TurnId, World,
  capability_unsupported, codex_desktop, control_read_only, device_offline, dispatched_to_codex,
  done, failed_with, outcome_unknown, query, receipt_completed, receipt_outcome_unknown,
  receipt_status_str, rejected, session_ref, stale_turn, store_error_code, zcode_desktop,
}
use agent_console.Bridge.Queue.Manager.{cancel, pause, set}
use agent_console.Bridge.Gateway.State.{
  CapabilitySet, CommandGateway, CommandPayload, CommandRequest, ControlMode, Replies,
  StoredReceiptState, Submission, accepted, answer_question_payload, cancel_queue_payload,
  interrupt_payload, operation_beq, operation_name, pause_queue_payload, queue_next_turn,
  queue_next_turn_payload, read_only, replayed, stored_accepted, stored_completed,
  stored_dispatched, stored_outcome_unknown, stored_received, stored_rejected,
  submit_approval_payload, supports, turn_eq,
}

abbrev pub is_zcode : AgentKind → Bool
is_zcode zcode_desktop = true
is_zcode codex_desktop = false

-- What a hook session may be asked.
abbrev pub is_hook_answer : CommandPayload → Bool
is_hook_answer (answer_question_payload q os t) = true
is_hook_answer (submit_approval_payload a d) = true
is_hook_answer _ = false

abbrev pub is_read_only : ControlMode → Bool
is_read_only read_only = true
is_read_only _ = false

-- The checks before the store is asked: the code of the refusal.
abbrev pub gate : CapabilitySet → CommandRequest → Option StableErrorCode
gate caps req =
    if is_zcode req.session_key.agent_kind && not (is_hook_answer req.payload)
    then some capability_unsupported
    else if operation_beq req.operation queue_next_turn
    then none
    else if supports req.operation caps
    then none
    else if is_read_only caps.control_mode
    then some control_read_only
    else some capability_unsupported

unfoldable pub stored_state_from_status : String → StoredReceiptState
stored_state_from_status status =
    if status == "RECEIVED"
    then stored_received
    else if status == "DISPATCHED_TO_CODEX"
    then stored_dispatched
    else if status == "COMPLETED"
    then stored_completed
    else if status == "REJECTED"
    then stored_rejected
    else if status == "OUTCOME_UNKNOWN"
    then stored_outcome_unknown
    else stored_accepted

abbrev pub is_interrupt : CommandPayload → Bool
is_interrupt interrupt_payload = true
is_interrupt _ = false

abbrev pub is_queue_next_turn : CommandPayload → Bool
is_queue_next_turn (queue_next_turn_payload input replace) = true
is_queue_next_turn _ = false

abbrev pub both_equal : Option TurnId → Option TurnId → Bool
both_equal (some a) (some b) = a == b
both_equal _ _ = false

abbrev pub permits_revision_drift : CommandRequest → Option TurnId → Bool
permits_revision_drift req current =
    is_interrupt req.payload && both_equal req.expected_turn_id current

abbrev pub needs_snapshot : CommandRequest → Bool
needs_snapshot req =
    is_some req.expected_turn_id
    || (is_some req.expected_runtime_revision || is_queue_next_turn req.payload)

abbrev pub revision_moved : Option ℕ → RuntimeSnapshot → Bool
revision_moved none snapshot = false
revision_moved (some expected) snapshot = not (expected == snapshot.runtime_revision)

abbrev pub turn_moved : Option TurnId → RuntimeSnapshot → Bool
turn_moved none snapshot = false
turn_moved (some expected) snapshot = not (option_beq snapshot.current_turn (some expected))

abbrev pub is_stale : CommandRequest → RuntimeSnapshot → Bool
is_stale req snapshot =
    (revision_moved req.expected_runtime_revision snapshot
      && not (permits_revision_drift req snapshot.current_turn))
    || turn_moved req.expected_turn_id snapshot

-- The snapshot that passed, if one was needed, or the code of the rejection.
abbrev pub validate : CommandRequest → Outcome RuntimeSnapshot → Outcome (Option RuntimeSnapshot)
validate req snap =
    if needs_snapshot req
    then elim snap [
      | failed_with code ↦ failed_with code
      | done snapshot ↦
          if is_stale req snapshot then failed_with stale_turn else done (some snapshot)
    ]
    else done none

abbrev pub is_terminal : ReceiptState → Bool
is_terminal dispatched_to_codex = false
is_terminal _ = true

-- A failure of the store is ignored, and so is a caller that went away.
unfoldable pub report : String → ReceiptState → CommandGateway → CommandGateway
unfolding query update_receipt_status receipt_status_str
report request_id state g = record g {
  world =
      (query (update_receipt_status g.world.now request_id (receipt_status_str state)) g.world).1;
  delivered = (request_id, state) ∷ g.delivered;
}

unfoldable pub finalize_receipt : String → ReceiptState → CommandGateway → CommandGateway
unfolding report remove
finalize_receipt request_id state g =
    let g' = report request_id state g in record g' { inflight = remove request_id g'.inflight }

abbrev pub local_state {ℓ} : {A : Type ℓ} → Outcome A → ReceiptState
local_state (done a) = receipt_completed
local_state (failed_with code) = rejected code

abbrev pub finalize_local :
    {A : Type 0} → String → Outcome A × World → CommandGateway → CommandGateway
finalize_local request_id (result, w) g =
    finalize_receipt request_id (local_state result) (record g { world = w })

abbrev pub dispatch_error : StableErrorCode → ReceiptState
dispatch_error outcome_unknown = receipt_outcome_unknown
dispatch_error code = rejected code

-- The executor is asked, and its stream forwarded.
abbrev pub execute : String → Outcome (Unit {0}) → CommandRequest → CommandGateway → CommandGateway
execute digest exec req g =
    let g' = record g { executed = record req { payload_digest = some digest } ∷ g.executed } in
    elim exec [
      | done stream ↦ record g' { forwarding = insert req.request_id tt g'.forwarding }
      | failed_with code ↦ finalize_receipt req.request_id (dispatch_error code) g'
    ]

-- A `QueueNextTurn` always has its snapshot: without one the source panics, and here nothing follows.
abbrev pub dispatch :
    String → Replies → CommandRequest → Option RuntimeSnapshot → CommandGateway → CommandGateway
dispatch digest replies req validated g = elim req.payload [
  | queue_next_turn_payload input replace ↦ elim validated [
    | none ↦ g
    | some snapshot ↦
        finalize_local req.request_id
          (set replies.subscribed req.session_key input replace req.request_id snapshot g.world) g
  ]
  | cancel_queue_payload ↦ finalize_local req.request_id (cancel req.session_key g.world) g
  | pause_queue_payload ↦ finalize_local req.request_id (pause req.session_key g.world) g
  | _ ↦ execute digest replies.exec req g
]

abbrev pub on_checks :
    String
    → Replies
    → CommandRequest
    → CommandGateway
    → Outcome (Option RuntimeSnapshot)
    → CommandGateway
on_checks digest replies req g (failed_with code) =
    finalize_receipt req.request_id (rejected code) g
on_checks digest replies req g (done validated) = dispatch digest replies req validated g

abbrev pub checked : String → Replies → CommandRequest → CommandGateway → CommandGateway
checked digest replies req g = on_checks digest replies req g (validate req replies.snap)

abbrev pub receipt_row : String → String → CommandRequest → RequestReceipt
receipt_row now digest req = record {
  request_id = req.request_id;
  session = session_ref req.session_key;
  operation = operation_name req.operation;
  status = "ACCEPTED_BY_BRIDGE";
  payload_digest = digest;
  created_at = now;
  updated_at = now;
}

abbrev pub replayed_state : Stored (Option RequestReceipt) → StoredReceiptState
replayed_state (ok (some r)) = stored_state_from_status r.status
replayed_state _ = stored_accepted

abbrev pub on_receipt :
    String
    → Replies
    → CommandRequest
    → CommandGateway
    → Stored ReceiptUpsertOutcome × World
    → Outcome Submission × CommandGateway
on_receipt digest replies req g (ok inserted, w) = (
  done accepted,
  checked digest replies req
      (record g { world = w; inflight = insert req.request_id tt g.inflight }),
)
on_receipt digest replies req g (ok existing, w) =
    let (found, w') = query (get_receipt req.request_id) w in
    (done (replayed req.request_id (replayed_state found)), record g { world = w' })
on_receipt digest replies req g (err e, w) =
    (failed_with (store_error_code e), record g { world = w })

abbrev pub on_gate :
    String
    → Replies
    → CommandRequest
    → CommandGateway
    → Option StableErrorCode
    → Outcome Submission × CommandGateway
on_gate digest replies req g (some code) = (failed_with code, g)
on_gate digest replies req g none =
    on_receipt digest replies req g
      (query (record_receipt (receipt_row g.world.now digest req)) g.world)

module _ (canonical_payload_digest : CommandPayload → String) where
  unfoldable pub submit :
      Replies → CommandRequest → CommandGateway → Outcome Submission × CommandGateway
  submit replies req g =
      if g.closed
      then (failed_with device_offline, g)
      else on_gate (canonical_payload_digest req.payload) replies req g (gate replies.caps req)
