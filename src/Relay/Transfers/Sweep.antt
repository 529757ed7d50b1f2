-- ===== src/Relay/Transfers/Sweep.antt =====
-- The step of `sweep` of transfers/mod.rs under the lock of the registry.
use agent_console.Base.{
  Option-cases, String, ap, false, if_cases, inl, inr, lookup, refl, some, string_eq, sym, true, ℕ,
  ◌≡◌, ◌∙◌,
}
use mathlib.Core.Option.{some-injective}
use agent_console.Relay.Transfers.State.{Transfer, expired}
use agent_console.Relay.Transfers.Calls.{TransferRegistry, sweep, sweep_one, unregister}
use agent_console.Relay.Transfers.Fate.{lookup-sweep_all, mapped}

-- A transfer that is past its time is out of the registry after a sweep, and otherwise as it was.
pub sweep-expired :
    (now : ℕ) (r : TransferRegistry) (id : String) (t : Transfer)
    → lookup id r.transfers ≡ some t
    → expired now t ≡ true
    → lookup id (sweep now r).transfers ≡ some (unregister t)
unfolding sweep
sweep-expired now r id t e past =
    lookup-sweep_all id now r.transfers
    ∙ ap (mapped (sweep_one now)) e
    ∙ ap some (if_cases (λ x. x ≡ unregister t) (expired now t) _ _ (λ b. refl) (λ b. cc))

spared :
    (now : ℕ) (u t : Transfer)
    → sweep_one now u ≡ t
    → t.registered ≡ true
    → (expired now t ≡ false) × (u ≡ t)
spared now u t =
    if_cases (λ x. x ≡ t → t.registered ≡ true → (expired now t ≡ false) × (u ≡ t)) (expired now u)
      (unregister u) u (λ p e held. let out = sym (ap (λ x. x.registered) e) in cc)
      (λ p e held. (ap (λ x. expired now x) (sym e) ∙ p, e))

-- What the registry still holds after a sweep is not past its time, and is as it was before.
pub sweep-registered :
    (now : ℕ) (r : TransferRegistry) (id : String) (t : Transfer)
    → lookup id (sweep now r).transfers ≡ some t
    → t.registered ≡ true
    → (expired now t ≡ false) × (lookup id r.transfers ≡ some t)
unfolding sweep
sweep-registered now r id t e held = elim (Option-cases (lookup id r.transfers)) [
  | inl q ↦
      let gone = sym (lookup-sweep_all id now r.transfers ∙ ap (mapped (sweep_one now)) q) ∙ e in cc
  | inr (u, q) ↦
      let is_t =
        some-injective (sweep_one now u) t
          (sym (lookup-sweep_all id now r.transfers ∙ ap (mapped (sweep_one now)) q) ∙ e) in
      let (fresh, same) = spared now u t is_t held in (fresh, q ∙ ap some same)
]
