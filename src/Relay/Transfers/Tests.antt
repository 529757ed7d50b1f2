-- ===== src/Relay/Transfers/Tests.antt =====
-- The theorems on transfers/mod.rs at concrete transfers.
use agent_console.Base.{
  Option, ℕ, length, string_eq, List, [], false, lookup, none, refl, some, true, ◌∷◌, ◌≡◌, arith,
  insert,
}
use agent_console.Relay.Transfers.State.{
  set_producer, complete, cancel, Transfer, TransferInfo, download, new_transfer, transfer_expired,
  internal_error,
}
use agent_console.Relay.Transfers.Calls.{
  Call, TransferRegistry, bridge_ready, cancelling, notifying, removing, cancel_and_remove,
  completing, create, creating, run, set_producing, sweeping, touching, perform, modify, touch,
}
use agent_console.Relay.Transfers.Later.{Later}
use agent_console.Relay.Transfers.Limits.{IsWithinLimits, run-IsWithinLimits}
use agent_console.Relay.Transfers.Fate.{IsOneShot, run-IsOneShot, run-Later}

abbrev info : TransferInfo
info = record { direction = download; owner = "o"; device = "d" }

abbrev none_yet : TransferRegistry
none_yet = record { transfers = []; hub = true }

abbrev one : TransferRegistry
one = record { transfers = ("a", new_transfer "a" info 5) ∷ []; hub = true }

-- The third transfer is refused, two handlers that both read that the first is not terminal cancel
-- it, and the second completes.
abbrev calls : List Call
calls =
    creating "a" info 0
    ∷ creating "b" info 1
    ∷ creating "c" info 2
    ∷ touching "a" set_producing
    ∷ touching "a" (cancelling internal_error)
    ∷ touching "a" (cancelling transfer_expired)
    ∷ touching "a" (notifying internal_error)
    ∷ touching "a" (notifying transfer_expired)
    ∷ touching "a" removing
    ∷ touching "b" completing
    ∷ []

run-IsWithinLimits_example : IsWithinLimits "o" "d" (run calls none_yet)
run-IsWithinLimits_example = run-IsWithinLimits calls "o" "d" none_yet (omega arith, omega arith)

abbrev ends : List Call
ends =
    touching "a" (bridge_ready "d" false internal_error)
    ∷ touching "a" set_producing
    ∷ sweeping 700000
    ∷ cancel_and_remove "a" transfer_expired true

run-Later_example :
    (t' : Transfer) × (lookup "a" (run ends one).transfers ≡ some t')
    × Later (new_transfer "a" info 5) t'
run-Later_example = run-Later ends "a" one (new_transfer "a" info 5) refl (unfold lookup in refl)

run-IsOneShot_example : IsOneShot (new_transfer "a" info 0)
unfolding lookup run perform create insert
run-IsOneShot_example =
    run-IsOneShot (creating "a" info 0 ∷ []) true "a" (new_transfer "a" info 0) refl

third_is_refused : lookup "c" (run calls none_yet).transfers ≡ none
unfolding run lookup create insert perform modify touch
third_is_refused = refl

abbrev noticed : Option Transfer → ℕ
noticed none = 0
noticed (some t) = length t.notices

-- Both of the two handlers tell the bridge.
two_notices : noticed (lookup "a" (run calls none_yet).transfers) ≡ 2
unfolding run lookup create insert perform modify touch cancel set_producer complete
two_notices = refl
