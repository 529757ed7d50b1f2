-- ===== src/Bridge/Pending/Calls.antt =====
-- The operations of `PendingRegistry` that change state, and histories of them.
use agent_console.Base.{
  Bool, List, Option, String, [], false, if◌then◌else◌, insert, is_some, leb, lookup, ltb, nat_eq,
  none, not, retain, some, string_eq, true, ℕ, ◌+◌, ◌||◌, ◌∷◌,
}
use agent_console.Bridge.Pending.Registry.{
  InvokeKind, PendingState, waiting, decided, returned_to_runtime, runtime_processed, expired,
  handled_locally, is_terminal, same_state, HookReply, AskRequest, DeliveryOutcome, delivered,
  unconfirmed, sender, receiver, Sender, Receiver, PendingRecord, unknown, already_decided,
  expired_error, cancelled, duplicate, Result, ok, err, Registry, Change, with_record,
}

-- `register`'s arguments but for the id and the time.
pub record Invoke : Type 0 where
  pub kind : InvokeKind
  pub native_session_id : Option String
  pub tool_name : Option String
  pub tool_use_id : Option String
  pub ask : Option AskRequest
  pub action_summary : Option String
  pub wait : ℕ

abbrev ask_question_of : Option AskRequest → Option String
ask_question_of none = none
ask_question_of (some a) = some a.question

abbrev ask_options_of : Option AskRequest → List String
ask_options_of none = []
ask_options_of (some a) = a.options

abbrev allow_free_text_of : Option AskRequest → Bool
allow_free_text_of none = false
allow_free_text_of (some a) = a.allow_free_text

unfoldable pub new_record : String → Invoke → ℕ → PendingRecord
new_record id i now = record {
  invoke_id = id;
  kind = i.kind;
  native_session_id = i.native_session_id;
  tool_name = i.tool_name;
  tool_use_id = i.tool_use_id;
  ask_question = ask_question_of i.ask;
  ask_options = ask_options_of i.ask;
  ask_allow_free_text = allow_free_text_of i.ask;
  action_summary = i.action_summary;
  state = waiting;
  created_at = now;
  deadline = now + i.wait;
  responder = some sender;
  delivery_tx = some sender;
  delivery_rx = some receiver;
}

-- What the clean-up in `register` keeps.
unfoldable pub survives : ℕ → PendingRecord → Bool
survives now rec = ltb now rec.deadline || not (is_terminal rec.state)

unfoldable pub register : ℕ → String → Invoke → Registry → Result Receiver × Registry
register now id i r = if is_some (lookup id r.inner) then (err duplicate, r) else (
  ok receiver,
  record r { inner = insert id (new_record id i now) (retain (survives now) r.inner) },
)

-- A body that sends nothing.
abbrev pub quiet : {A : Type 0} → A → PendingRecord → Change A
quiet a rec = record { result = a; after = rec; reply = none; confirmation = none }

abbrev pub send_reply : Bool → HookReply → PendingRecord → Change (Result PendingState)
send_reply true reply rec = record {
  result = ok decided;
  after = record rec { state = decided; responder = none };
  reply = some reply;
  confirmation = none;
}
send_reply false reply rec =
    quiet (err cancelled) (record rec { state = handled_locally; responder = none })

-- `responder.take()` and the send.
abbrev pub decide : Bool → HookReply → Option Sender → PendingRecord → Change (Result PendingState)
decide alive reply none rec = quiet (err cancelled) (record rec { state = handled_locally })
decide alive reply (some tx) rec = send_reply alive reply rec

abbrev pub resolve_waiting : Bool → ℕ → HookReply → PendingRecord → Change (Result PendingState)
resolve_waiting alive now reply rec =
    if leb rec.deadline now
    then quiet (err expired_error) (record rec { state = expired })
    else decide alive reply rec.responder rec

abbrev pub resolve_at :
    PendingState → Bool → ℕ → HookReply → PendingRecord → Change (Result PendingState)
resolve_at waiting alive now reply rec = resolve_waiting alive now reply rec
resolve_at decided alive now reply rec = quiet (err already_decided) rec
resolve_at expired alive now reply rec = quiet (err expired_error) rec
resolve_at handled_locally alive now reply rec = quiet (err cancelled) rec
resolve_at returned_to_runtime alive now reply rec = quiet (err already_decided) rec
resolve_at runtime_processed alive now reply rec = quiet (err already_decided) rec

unfoldable pub resolve : Bool → ℕ → String → HookReply → Registry → Result PendingState × Registry
unfolding with_record
resolve alive now id reply =
    with_record id (err unknown) (λ rec. resolve_at rec.state alive now reply rec)

unfoldable pub take_delivery : String → Registry → Option Receiver × Registry
unfolding with_record
take_delivery id =
    with_record id none (λ rec. quiet rec.delivery_rx (record rec { delivery_rx = none }))

abbrev pub delivery_state : DeliveryOutcome → PendingState
delivery_state delivered = returned_to_runtime
delivery_state unconfirmed = handled_locally

-- `delivery_tx.take()` and the send, whose failure is ignored.
abbrev pub confirm_on : Option Sender → DeliveryOutcome → Option DeliveryOutcome
confirm_on none outcome = none
confirm_on (some tx) outcome = some outcome

abbrev pub confirm : DeliveryOutcome → PendingRecord → Change (Result PendingState)
confirm outcome rec = record {
  result = ok (delivery_state outcome);
  after = record rec { state = delivery_state outcome; delivery_tx = none };
  reply = none;
  confirmation = confirm_on rec.delivery_tx outcome;
}

unfoldable pub complete_delivery :
    String → DeliveryOutcome → Registry → Result PendingState × Registry
unfolding with_record
complete_delivery id outcome = with_record id (err unknown) λ rec.
    if same_state rec.state decided then confirm outcome rec else quiet (err already_decided) rec

unfoldable pub transition :
    String → PendingState → PendingState → Registry → Result (Unit {0}) × Registry
unfolding with_record
transition id from to = with_record id (err unknown) λ rec.
    if same_state rec.state from
    then quiet (ok tt) (record rec { state = to })
    else quiet (err already_decided) rec

unfoldable pub mark_runtime_processed : String → Registry → Result (Unit {0}) × Registry
unfolding transition
mark_runtime_processed id = transition id returned_to_runtime runtime_processed

unfoldable pub expire : String → Registry → Result PendingState × Registry
unfolding with_record
expire id = with_record id (err unknown) λ rec.
    if same_state rec.state waiting
    then quiet (ok expired) (record rec { state = expired })
    else quiet (err already_decided) rec

unfoldable pub expire_or_already_expired : String → Registry → Bool × Registry
unfolding with_record
expire_or_already_expired id = with_record id false λ rec.
    if same_state rec.state waiting || same_state rec.state expired
    then quiet true (record rec { state = expired })
    else quiet false rec

unfoldable pub finalize_decided_after_race : String → Registry → Bool × Registry
unfolding with_record
finalize_decided_after_race id = with_record id false λ rec.
    if same_state rec.state decided
    then quiet true (record rec { state = expired })
    else quiet false rec

unfoldable pub cancel : String → Registry → Result PendingState × Registry
unfolding with_record
cancel id = with_record id (err unknown) λ rec.
    if same_state rec.state waiting
    then quiet (ok handled_locally) (record rec { state = handled_locally; responder = none })
    else quiet (err already_decided) rec

-- A call, with the id that it is about and what the environment decides.
pub data Call : Type 0 where
  registers : String → Invoke → Call
  resolves : Bool → String → HookReply → Call
  takes_delivery : String → Call
  completes_delivery : String → DeliveryOutcome → Call
  marks_runtime_processed : String → Call
  expires : String → Call
  expires_or_already_expired : String → Call
  finalizes_decided : String → Call
  cancels : String → Call

unfoldable pub step : Registry → ℕ × Call → Registry
unfolding register resolve take_delivery complete_delivery mark_runtime_processed expire
    expire_or_already_expired finalize_decided_after_race cancel
step r (now, registers id i) = (register now id i r).1
step r (now, resolves alive id reply) = (resolve alive now id reply r).1
step r (now, takes_delivery id) = (take_delivery id r).1
step r (now, completes_delivery id outcome) = (complete_delivery id outcome r).1
step r (now, marks_runtime_processed id) = (mark_runtime_processed id r).1
step r (now, expires id) = (expire id r).1
step r (now, expires_or_already_expired id) = (expire_or_already_expired id r).1
step r (now, finalizes_decided id) = (finalize_decided_after_race id r).1
step r (now, cancels id) = (cancel id r).1

unfoldable pub run : Registry → List (ℕ × Call) → Registry
unfolding step
run r [] = r
run r (c ∷ cs) = run (step r c) cs
