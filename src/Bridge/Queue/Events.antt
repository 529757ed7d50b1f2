-- ===== src/Bridge/Queue/Events.antt =====
-- What an event of a session makes of its entry: `on_event` of commands/queue.rs, the automatic
-- sending and the pausing.
use agent_console.Base.{
  Bool, List, Option, String, [], eqb, false, if◌then◌else◌, insert, is_none, length, lookup,
  nat_eq, not, remove, some, string_eq, true, ◌&&◌, ◌==◌, ◌∷◌,
}
use agent_console.Bridge.Store.{
  SessionKeyRef, NextTurnEntry, queued, paused, Stored, ok, set_next_turn, get_next_turn,
  clear_next_turn, update_receipt_status,
}
use agent_console.Bridge.Queue.State.{
  SessionKey, session_ref, TurnId, RuntimeSnapshot, idle, running, finishing, completed, failed,
  interrupted, DomainEvent, turn_lifecycle, StableErrorCode, outcome_unknown, ReceiptState,
  dispatched_to_codex, receipt_completed, receipt_status_str, Outcome, done, failed_with, World,
  query, retry_busy,
}
use agent_console.Bridge.Queue.Manager.{contains, same_status, with_status}

abbrev pub mark_paused_on : Stored (Option NextTurnEntry) × World → World
mark_paused_on (ok (some entry), w) =
    if same_status entry.status queued
    then (retry_busy (set_next_turn w.now (with_status paused w.now entry) true) w).1
    else w
mark_paused_on (_, w) = w

unfoldable pub mark_paused : SessionKeyRef → World → World
unfolding query retry_busy
mark_paused session w = mark_paused_on (query (get_next_turn session) w)

-- The loop over the receipts: whether one says `Completed`, and the store after the updates.
unfoldable pub follow_receipts : String → List ReceiptState → World → Bool × World
unfolding query update_receipt_status receipt_status_str
follow_receipts id [] w = (false, w)
follow_receipts id (r ∷ rs) w =
    let v = (query (update_receipt_status w.now id (receipt_status_str r)) w).1 in
    let later = follow_receipts id rs v in
    elim r [ dispatched_to_codex ↦ later | receipt_completed ↦ (true, v) | _ ↦ (false, v) ]

abbrev pub close_entry : SessionKeyRef → Bool × World → World
close_entry session (true, w) = (retry_busy (clear_next_turn session) w).1
close_entry session (false, w) = mark_paused session w

abbrev pub error_status : StableErrorCode → String
error_status outcome_unknown = "OUTCOME_UNKNOWN"
error_status _ = "REJECTED"

abbrev pub after_execution : SessionKeyRef → String → Outcome (List ReceiptState) → World → World
after_execution session id (done receipts) w = close_entry session (follow_receipts id receipts w)
after_execution session id (failed_with code) w =
    mark_paused session (query (update_receipt_status w.now id (error_status code)) w).1

abbrev pub clear_inflight : SessionKey → World → World
clear_inflight key w = record w {
  auto_send_inflight = remove key.native_session_id w.auto_send_inflight;
}

abbrev pub begin_send : SessionKey → String → NextTurnEntry → World → World
begin_send key id entry w = record w {
  auto_send_inflight = insert key.native_session_id tt w.auto_send_inflight;
  sent = (record { request_id = id; session_key = key; input = entry.prompt }) ∷ w.sent;
}

abbrev pub send_queued :
    SessionKey → String → Outcome (List ReceiptState) → NextTurnEntry → World → World
send_queued key id exec entry w =
    clear_inflight key (after_execution (session_ref key) id exec (begin_send key id entry w))

-- No turn runs, and no question and no approval waits.
abbrev pub is_free : RuntimeSnapshot → Bool
is_free s =
    is_none s.current_turn
    && (eqb (length s.pending_questions) 0 && eqb (length s.pending_approvals) 0)

abbrev pub auto_send_with :
    SessionKey
    → String
    → Outcome RuntimeSnapshot
    → Outcome (List ReceiptState)
    → NextTurnEntry
    → World
    → World
auto_send_with key id (failed_with code) exec entry w = mark_paused (session_ref key) w
auto_send_with key id (done snapshot) exec entry w =
    if is_free snapshot then send_queued key id exec entry w else w

abbrev pub auto_send_on :
    SessionKey
    → String
    → Outcome RuntimeSnapshot
    → Outcome (List ReceiptState)
    → Stored (Option NextTurnEntry) × World
    → World
auto_send_on key id snap exec (ok (some entry), w) =
    if same_status entry.status queued then auto_send_with key id snap exec entry w else w
auto_send_on key id snap exec (_, w) = w

-- `id` is the new request's id.
unfoldable pub maybe_auto_send :
    SessionKey → String → Outcome RuntimeSnapshot → Outcome (List ReceiptState) → World → World
unfolding query session_ref mark_paused follow_receipts insert remove
maybe_auto_send key id snap exec w =
    auto_send_on key id snap exec (query (get_next_turn (session_ref key)) w)

-- A turn that the queue is not bound to has started.
abbrev pub overtaken : SessionKey → TurnId → Stored (Option NextTurnEntry) × World → World
overtaken key turn (ok (some entry), w) =
    if same_status entry.status queued && not (entry.after_turn_id == turn.id)
    then mark_paused (session_ref key) w
    else w
overtaken key turn (_, w) = w

abbrev pub on_started : SessionKey → TurnId → World → World
on_started key turn w =
    if contains key.native_session_id w.auto_send_inflight
    then clear_inflight key w
    else overtaken key turn (query (get_next_turn (session_ref key)) w)

unfoldable pub on_event :
    SessionKey
    → String
    → Outcome RuntimeSnapshot
    → Outcome (List ReceiptState)
    → DomainEvent
    → World
    → World
unfolding query session_ref mark_paused maybe_auto_send lookup remove
on_event key id snap exec (turn_lifecycle turn idle (some completed)) w =
    maybe_auto_send key id snap exec (clear_inflight key w)
on_event key id snap exec (turn_lifecycle turn idle (some failed)) w =
    mark_paused (session_ref key) (clear_inflight key w)
on_event key id snap exec (turn_lifecycle turn idle (some interrupted)) w =
    mark_paused (session_ref key) (clear_inflight key w)
on_event key id snap exec (turn_lifecycle turn running outcome) w = on_started key turn w
on_event key id snap exec (turn_lifecycle turn finishing outcome) w = on_started key turn w
on_event key id snap exec _ w = w
