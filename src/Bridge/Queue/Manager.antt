-- ===== src/Bridge/Queue/Manager.antt =====
-- `QueueManager` of commands/queue.rs. What the adapter answers is an argument of the operation
-- that asks it: `snap` for `runtime_snapshot`, `exec` for `execute_command` (the receipts of its
-- stream until it ends), `subscribed` for `subscribe`. Parsing a UUID is the uuid crate's.
use Prim.Native.String.{◌++◌ as str_append}
use agent_console.Base.{
  Bool, Option, String, Table, false, if◌then◌else◌, insert, is_some, lookup, nat_eq, none, not,
  some, string_eq, true, ℕ, ◌==◌, ◌||◌,
}
use agent_console.Bridge.Store.{
  NextTurnEntry, QueueStatus, queued, paused, empty, Stored, ok, err, set_next_turn, get_next_turn,
  clear_next_turn, put_cursor,
}
use agent_console.Bridge.Queue.State.{
  SessionKey, session_ref, TurnId, RuntimeSnapshot, StableErrorCode, queue_already_exists_code,
  queue_paused, Outcome, done, failed_with, store_error_code, World, query, retry_busy,
}

abbrev pub idle_after_turn : String
idle_after_turn = "idle"

unfoldable pub turn_id_of_str : String → TurnId
turn_id_of_str raw = record { id = raw; synthetic = raw == idle_after_turn }

pub data QueueState : Type 0 where
  empty_state queued_state paused_state : QueueState

abbrev pub store_state_to_domain : QueueStatus → QueueState
store_state_to_domain queued = queued_state
store_state_to_domain paused = paused_state
store_state_to_domain empty = empty_state

-- `accepted_at` is the text that the code parses as a time.
pub record QueuedTurn : Type 0 where
  pub request_id : String
  pub input : String
  pub after_turn_id : TurnId
  pub accepted_runtime_revision : ℕ
  pub state : QueueState
  pub accepted_at : String

pub record TurnQueueStatus : Type 0 where
  pub state : QueueState
  pub after_turn_id : Option TurnId
  pub accepted_runtime_revision : Option ℕ

abbrev pub bound_turn : Option TurnId → String
bound_turn none = idle_after_turn
bound_turn (some turn) = turn.id

unfoldable pub entry_from_snapshot : String → SessionKey → RuntimeSnapshot → String → NextTurnEntry
entry_from_snapshot now key snapshot prompt = record {
  session = session_ref key;
  prompt = prompt;
  after_turn_id = bound_turn snapshot.current_turn;
  runtime_revision = snapshot.runtime_revision;
  status = queued;
  created_at = now;
  updated_at = now;
}

unfoldable pub domain_turn : NextTurnEntry → String → String → QueuedTurn
unfolding turn_id_of_str
domain_turn entry request_id input = record {
  request_id = request_id;
  input = input;
  after_turn_id = turn_id_of_str entry.after_turn_id;
  accepted_runtime_revision = entry.runtime_revision;
  state = store_state_to_domain entry.status;
  accepted_at = entry.updated_at;
}

abbrev pub same_status : QueueStatus → QueueStatus → Bool
same_status queued queued = true
same_status paused paused = true
same_status empty empty = true
same_status _ _ = false

-- `.map_err(store_err)?` and what follows on success.
abbrev pub on_ok {ℓ} :
    {A : Type ℓ} {B : Type 0}
    → (A → World → Outcome B × World)
    → Stored A × World
    → Outcome B × World
on_ok f (ok a, w) = f a w
on_ok f (err e, w) = (failed_with (store_error_code e), w)

abbrev pub cursor_name : SessionKey → String
cursor_name key = str_append "queue-request:" key.native_session_id

unfoldable pub remember_request_id : SessionKey → String → World → World
unfolding query put_cursor
remember_request_id key request_id w = (query (put_cursor (cursor_name key) request_id) w).1

-- `HashMap` and `HashSet` lookups by the session's native id.
abbrev pub contains : String → Table String (Unit {0}) → Bool
contains native t = is_some (lookup native t)

unfoldable pub ensure_watcher : Bool → SessionKey → World → World
unfolding lookup insert
ensure_watcher subscribed key w =
    if contains key.native_session_id w.watchers || not subscribed
    then w
    else record w { watchers = insert key.native_session_id tt w.watchers }

abbrev pub rejection : QueueStatus → StableErrorCode
rejection paused = queue_paused
rejection _ = queue_already_exists_code

abbrev pub set_stored :
    Bool
    → SessionKey
    → String
    → Bool
    → String
    → RuntimeSnapshot
    → World
    → Outcome QueuedTurn × World
set_stored subscribed key input replace request_id snapshot w =
    let entry = entry_from_snapshot w.now key snapshot input in
    on_ok
      (λ u v. (
        done (domain_turn entry request_id input),
        ensure_watcher subscribed key (remember_request_id key request_id v),
      ))
      (retry_busy (set_next_turn w.now entry replace) w)

abbrev pub set_on :
    Bool
    → SessionKey
    → String
    → Bool
    → String
    → RuntimeSnapshot
    → Option NextTurnEntry
    → World
    → Outcome QueuedTurn × World
set_on subscribed key input replace request_id snapshot none w =
    set_stored subscribed key input replace request_id snapshot w
set_on subscribed key input replace request_id snapshot (some old) w =
    if replace
    then set_stored subscribed key input replace request_id snapshot w
    else (failed_with (rejection old.status), w)

unfoldable pub set :
    Bool
    → SessionKey
    → String
    → Bool
    → String
    → RuntimeSnapshot
    → World
    → Outcome QueuedTurn × World
unfolding entry_from_snapshot domain_turn ensure_watcher remember_request_id session_ref
set subscribed key input replace request_id snapshot w =
    on_ok (set_on subscribed key input replace request_id snapshot)
      (query (get_next_turn (session_ref key)) w)

abbrev pub with_snapshot {ℓ} :
    {A : Type ℓ}
    → (RuntimeSnapshot → World → Outcome A × World)
    → Outcome RuntimeSnapshot
    → World
    → Outcome A × World
with_snapshot f (done snapshot) w = f snapshot w
with_snapshot f (failed_with code) w = (failed_with code, w)

unfoldable pub replace :
    Bool
    → SessionKey
    → String
    → String
    → Outcome RuntimeSnapshot
    → World
    → Outcome QueuedTurn × World
unfolding set
replace subscribed key input request_id snap w =
    with_snapshot (set subscribed key input true request_id) snap w

unfoldable pub cancel : SessionKey → World → Outcome Bool × World
unfolding retry_busy clear_next_turn session_ref
cancel key w = on_ok (λ b v. (done b, v)) (retry_busy (clear_next_turn (session_ref key)) w)

abbrev pub with_status : QueueStatus → String → NextTurnEntry → NextTurnEntry
with_status status now entry = record entry { status = status; updated_at = now }

abbrev pub pause_on : Option NextTurnEntry → World → Outcome Bool × World
pause_on none w = (done false, w)
pause_on (some entry) w =
    if same_status entry.status paused
    then (done false, w)
    else on_ok (λ u v. (done true, v))
        (retry_busy (set_next_turn w.now (with_status paused w.now entry) true) w)

unfoldable pub pause : SessionKey → World → Outcome Bool × World
unfolding query retry_busy session_ref
pause key w = on_ok pause_on (query (get_next_turn (session_ref key)) w)

unfoldable pub queue_status : SessionKey → World → Outcome TurnQueueStatus × World
unfolding query session_ref turn_id_of_str
queue_status key w = on_ok status_of (query (get_next_turn (session_ref key)) w)
  where
    status_of : Option NextTurnEntry → World → Outcome TurnQueueStatus × World
    status_of none w = (
      done (record { state = empty_state; after_turn_id = none; accepted_runtime_revision = none }),
      w,
    )
    status_of (some entry) w = (
      done (record {
        state = store_state_to_domain entry.status;
        after_turn_id = some (turn_id_of_str entry.after_turn_id);
        accepted_runtime_revision = some entry.runtime_revision;
      }),
      w,
    )
