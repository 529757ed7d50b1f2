-- ===== src/Bridge/Pending/Tests.antt =====
-- The theorems on apps/bridge/src/zcode/pending.rs at concrete calls.
use agent_console.Base.{
  List, [], if◌then◌else◌, insert, lookup, nat_eq, none, refl, retain, some, string_eq, true, ℕ,
  ◌∷◌, ◌≡◌, ◌≤◌,
}
use agent_console.Bridge.Pending.Registry.{
  ask_user, HookReply, delivered, PendingError, err, empty, is_terminal,
}
use agent_console.Bridge.Pending.Calls.{
  Invoke, register, new_record, survives, resolve, Call, registers, resolves, takes_delivery,
  completes_delivery, expires, step, run,
}
use agent_console.Bridge.Pending.Lifecycle.{Evolves, step-Evolves}
use agent_console.Bridge.Pending.History.{
  confirmation_side, sent_count, registrations, sent_count-le-registrations,
}
use agent_console.Bridge.Pending.Decision.{verdict, is_ok, resolve-verdict}
use agent_console.Bridge.Pending.FirstWins.{resolve_once}

abbrev question : Invoke
question = record {
  kind = ask_user;
  native_session_id = some "session";
  tool_name = none;
  tool_use_id = none;
  ask = some (record {
    question = "go?";
    options = "yes" ∷ "no" ∷ [];
    allow_free_text = true;
    call_id = none;
  });
  action_summary = none;
  wait = 30;
}

abbrev allowed : HookReply
allowed = record { status = "allowed"; message = none; option = none; text = none }

-- A question is asked and answered, and the answer delivered.
abbrev answered : List (ℕ × Call)
answered =
    (0, registers "q" question)
    ∷ (5, takes_delivery "q")
    ∷ (10, resolves true "q" allowed)
    ∷ (11, completes_delivery "q" delivered)
    ∷ []

abbrev asked : List (ℕ × Call)
asked = (0, registers "q" question) ∷ []

step-Evolves_example :
    Evolves 40
      (new_record "q" question 0)
      (lookup "q" (step (run empty asked) (40, resolves true "q" allowed)).inner)
step-Evolves_example =
    step-Evolves 40 (resolves true "q" allowed) "q" (run empty asked) (new_record "q" question 0)
      (unfold run step register lookup insert retain survives is_terminal in refl)

sent_count-le-registrations_example :
    sent_count confirmation_side "q" (run empty answered) ≤ registrations "q" empty answered
sent_count-le-registrations_example = sent_count-le-registrations confirmation_side "q" answered

resolve-verdict_example :
    ((resolve true 20 "q" allowed (run empty asked)).0
      ≡ verdict true 20 (lookup "q" (run empty asked).inner))
    × ((resolve true 20 "q" allowed (run empty asked)).1.replies ≡ (
        if is_ok (verdict true 20 (lookup "q" (run empty asked).inner))
        then ("q", allowed) ∷ (run empty asked).replies
        else (run empty asked).replies))
resolve-verdict_example = resolve-verdict asked true 20 "q" allowed

resolve_once_example :
    (e : PendingError) × ((resolve true 13 "q" allowed (
        run
          (resolve true 10 "q" allowed (run empty asked)).1
          ((11, completes_delivery "q" delivered) ∷ (12, expires "q") ∷ []))).0
      ≡ err e)
resolve_once_example =
    resolve_once (run empty asked) true true 10 13 "q" allowed allowed
      ((11, completes_delivery "q" delivered) ∷ (12, expires "q") ∷ []) (refl, (refl, tt))
