-- ===== src/Bridge/Gateway/Tests.antt =====
-- The theorems on commands/gateway.rs at concrete requests.
use agent_console.Base.{
  List, String, [], false, none, refl, some, true, ◌+◌, ◌≡◌, ◌≤◌, ◌∷◌, ◌⊎◌, lookup,
}
use agent_console.Bridge.Store.{record_receipt}
use agent_console.Bridge.Queue.State.{
  codex_desktop, device_offline, dispatched_to_codex, done, failed_with, receipt_completed,
  receipt_outcome_unknown,
}
use agent_console.Bridge.Gateway.State.{
  CommandGateway, CommandPayload, CommandRequest, Replies, full_control, interrupt_payload,
  interrupt_turn, read_only,
}
use agent_console.Bridge.Gateway.Submit.{gate, submit}
use agent_console.Bridge.Gateway.Forwarding.{forward, graceful_shutdown}
use agent_console.Bridge.Gateway.Receipts.{is_known}
use agent_console.Bridge.Gateway.Balance.{IsWellFormed, balance, one_if, terminals}
use agent_console.Bridge.Gateway.Answers.{Unmoved, submit-refused}
use agent_console.Bridge.Gateway.History.{
  Call, accepted_in, accepted_in-once, forwarding_next, perform_all, submitting,
}
use agent_console.Bridge.Gateway.Shutdown.{graceful_shutdown_settles}
use agent_console.Bridge.Gateway.Freshness.{IsChecked, digested, submit-Executes}

abbrev stop : CommandRequest
stop = record {
  request_id = "r1";
  operation = interrupt_turn;
  session_key = record {
    device_id = "dev";
    agent_kind = codex_desktop;
    native_session_id = "s";
    relay_session_uuid = none;
  };
  expected_turn_id = some (record { id = "t"; synthetic = false });
  expected_runtime_revision = some 4;
  payload_digest = none;
  payload = interrupt_payload;
}

-- The revision moved from 4 to 6, the turn is the same.
abbrev replies : Replies
replies = record {
  caps = record { control_mode = full_control; supported_operations = interrupt_turn ∷ [] };
  snap = done (record {
    runtime_revision = 6;
    current_turn = some (record { id = "t"; synthetic = false });
    pending_questions = [];
    pending_approvals = [];
  });
  exec = done tt;
  subscribed = true;
}

abbrev refusing : Replies
refusing = record replies { caps = record { control_mode = read_only; supported_operations = [] } }

abbrev digest_of : CommandPayload → String
digest_of payload = "digest"

abbrev fresh : CommandGateway
fresh = record {
  closed = false;
  inflight = [];
  forwarding = [];
  world = record {
    store = record { receipts = []; next_turns = []; cursors = [] };
    watchers = [];
    auto_send_inflight = [];
    faults = [];
    now = "now";
    sent = [];
  };
  delivered = [];
  executed = [];
}

fresh-IsWellFormed : IsWellFormed fresh
unfolding lookup
fresh-IsWellFormed = record { forwarded_in_flight = λ id h. cc; in_flight_known = λ id h. cc }

-- The request is sent twice, and its stream gives two receipts.
abbrev twice : List Call
twice =
    submitting replies stop
    ∷ submitting replies stop
    ∷ forwarding_next "r1" (some dispatched_to_codex)
    ∷ forwarding_next "r1" (some receipt_completed)
    ∷ []

accepted_in-once_example :
    accepted_in digest_of "r1" twice fresh + one_if (is_known "r1" fresh.world.store) ≤ 1
accepted_in-once_example = accepted_in-once digest_of twice fresh "r1" fresh-IsWellFormed

graceful_shutdown_settles_example :
    let g' = (graceful_shutdown (perform_all digest_of (submitting replies stop ∷ []) fresh)).1 in
    (terminals "r1" g'.delivered
      ≡ balance "r1" fresh + accepted_in digest_of "r1" (submitting replies stop ∷ []) fresh)
    × (g'.inflight ≡ [])
    × (submit digest_of replies stop g' ≡ (failed_with device_offline, g'))
graceful_shutdown_settles_example =
    graceful_shutdown_settles digest_of (submitting replies stop ∷ []) fresh "r1" replies stop
      fresh-IsWellFormed (λ id. unfold lookup in refl)

submit-refused_example : Unmoved fresh (submit digest_of refusing stop fresh).1
submit-refused_example = submit-refused digest_of refusing stop fresh (unfold submit in refl)

submit-Executes_example :
    let after = (submit digest_of replies stop fresh).1.executed in
    (after ≡ [])
    ⊎ ((after ≡ digested "digest" stop ∷ [])
        × (fresh.closed ≡ false)
        × (gate replies.caps stop ≡ none)
        × IsChecked replies stop)
submit-Executes_example = submit-Executes digest_of replies stop fresh

-- Runs: one acceptance, one terminal receipt, and a shutdown that a forwarding task outlives.
accepted_once : accepted_in digest_of "r1" twice fresh ≡ 1
unfolding accepted_in submit record_receipt
accepted_once = refl

completed_once :
    (perform_all digest_of twice fresh).delivered
    ≡ ("r1", receipt_completed) ∷ ("r1", dispatched_to_codex) ∷ []
unfolding perform_all record_receipt
completed_once = refl

answered_twice :
    (forward "r1"
      (some receipt_completed)
      (graceful_shutdown (submit digest_of replies stop fresh).1).1).delivered
    ≡ ("r1", receipt_completed) ∷ ("r1", receipt_outcome_unknown) ∷ []
unfolding forward graceful_shutdown submit record_receipt
answered_twice = refl
