-- ===== src/Bridge/Queue/Tests.antt =====
-- The theorems on apps/bridge/src/local_store/mod.rs and commands/queue.rs at concrete sessions.
use agent_console.Base.{List, Option, [], false, length, none, some, true, ◌+◌, ◌≤◌, ◌∷◌, ◌≡◌, refl}
use agent_console.Bridge.Store.{
  session_eq, NextTurnEntry, queued, RequestReceipt, existing, StoreError, sqlx, ok, LocalStore,
  record_receipt, set_next_turn, clear_next_turn, get_next_turn, entry_of,
}
use agent_console.Bridge.Store.Laws.{
  get-set_next_turn, entry_at, ReceiptCall, records, updates, run_receipts, record_receipt_again,
}
use agent_console.Bridge.Queue.State.{
  SessionKey, codex_desktop, session_ref, RuntimeSnapshot, idle, completed, turn_lifecycle,
  dispatched_to_codex, receipt_completed, done, World, query, retry_busy,
}
use agent_console.Bridge.Queue.Retry.{past, retry_busy_lem}
use agent_console.Bridge.Queue.Pausing.{Happening, handle_all, Untouched, handle_all-quiet}
use agent_console.Bridge.Queue.Calm.{due}
use agent_console.Bridge.Queue.Sending.{handle_all_sends_once}

abbrev key : SessionKey
key = record {
  device_id = "dev";
  agent_kind = codex_desktop;
  native_session_id = "s";
  relay_session_uuid = none;
}

abbrev entry : NextTurnEntry
unfolding session_ref
entry = record {
  session = session_ref key;
  prompt = "next";
  after_turn_id = "idle";
  runtime_revision = 3;
  status = queued;
  created_at = "t1";
  updated_at = "t1";
}

abbrev no_rows : LocalStore
no_rows = record { receipts = []; next_turns = []; cursors = [] }

stored : LocalStore
unfolding set_next_turn
stored = (set_next_turn "t1" entry false no_rows).1

get-set_next_turn_example :
    entry_at (session_ref key) (set_next_turn "t2" entry true stored).1
    ≡ some (record entry { created_at = "t1"; updated_at = "t1" })
unfolding stored set_next_turn entry_at get_next_turn entry_of session_ref
get-set_next_turn_example = get-set_next_turn "t2" entry true stored (session_ref key) refl

abbrev receipt : RequestReceipt
receipt = record {
  request_id = "r1";
  session = record { device_id = "dev"; agent_kind = 1; native_session_id = "s" };
  operation = "start_turn";
  status = "ACCEPTED_BY_BRIDGE";
  payload_digest = "digest";
  created_at = "t1";
  updated_at = "t1";
}

abbrev later_calls : List ReceiptCall
later_calls =
    records (record receipt { request_id = "r2" })
    ∷ updates "t2" "r1" "COMPLETED"
    ∷ records receipt
    ∷ []

record_receipt_again_example :
    record_receipt receipt (run_receipts later_calls (record_receipt receipt no_rows).1)
    ≡ (ok existing, run_receipts later_calls (record_receipt receipt no_rows).1)
record_receipt_again_example =
    record_receipt_again receipt receipt later_calls no_rows refl (unfold record_receipt in refl)

abbrev world : List (Option StoreError) → World
world faults = record {
  store = stored;
  watchers = [];
  auto_send_inflight = [];
  faults = faults;
  now = "t3";
  sent = [];
}

abbrev locked_twice : World
locked_twice = world (some (sqlx true) ∷ some (sqlx true) ∷ [])

retry_busy_lem_example :
    retry_busy (clear_next_turn (session_ref key)) locked_twice
    ≡ query (clear_next_turn (session_ref key)) (past 2 locked_twice)
retry_busy_lem_example =
    retry_busy_lem (clear_next_turn (session_ref key)) (λ s. unfold clear_next_turn in refl)
      locked_twice

abbrev calm : RuntimeSnapshot
calm = record {
  runtime_revision = 4;
  current_turn = none;
  pending_questions = [];
  pending_approvals = [];
}

-- The read succeeds and the write meets a broken database.
abbrev broken : World
broken = world (none ∷ some (sqlx false) ∷ [])

abbrev completes : Happening
completes = record {
  id = "r3";
  snap = done calm;
  exec = done (dispatched_to_codex ∷ receipt_completed ∷ []);
  event = turn_lifecycle (record { id = "turn"; synthetic = false }) idle (some completed);
}

handle_all-quiet_example :
    Untouched key
      (record (world []) { store = no_rows })
      (handle_all key (record (world []) { store = no_rows }) (completes ∷ completes ∷ []))
handle_all-quiet_example =
    handle_all-quiet key (completes ∷ completes ∷ []) (record (world []) { store = no_rows })
      (unfold entry_at get_next_turn in refl)

handle_all_sends_once_example :
    length (handle_all key (world []) (completes ∷ completes ∷ [])).sent
      + due (session_ref key) (handle_all key (world []) (completes ∷ completes ∷ []))
    ≤ 0 + due (session_ref key) (world [])
handle_all_sends_once_example =
    handle_all_sends_once key (completes ∷ completes ∷ []) (world []) refl
