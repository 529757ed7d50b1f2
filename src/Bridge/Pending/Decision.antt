-- ===== src/Bridge/Pending/Decision.antt =====
-- The one decision of an invoke.
use agent_console.Base.{
  Bool, List, Option, Option-cases, String, [], arith, false, if◌then◌else◌, inl, inr, is_some, leb,
  lookup, nat_eq, none, refl, some, string_eq, true, ℕ, ◌==◌, ◌∷◌, ◌≡◌,
}
use agent_console.Bridge.Pending.Registry.{
  PendingState, same_state, waiting, decided, expired, handled_locally, HookReply, PendingRecord,
  unknown, already_decided, expired_error, cancelled, Result, ok, err, Registry, Change,
  with_record, empty,
}
use agent_console.Bridge.Pending.Calls.{
  Invoke, quiet, register, new_record, resolve, Call, registers, resolves, takes_delivery,
  completes_delivery, marks_runtime_processed, expires, expires_or_already_expired,
  finalizes_decided, cancels, step, run,
}
use agent_console.Bridge.Pending.Lifecycle.{updated, lookup-with_record, lookup-register}

-- A record that waits holds the sending end of its reply channel.
abbrev guarded : PendingRecord → Bool
guarded rec = if same_state rec.state waiting then is_some rec.responder else true

abbrev Guarded : Option PendingRecord → Type 0
Guarded none = Unit
Guarded (some rec) = guarded rec ≡ true

abbrev KeepsGuard : {A : Type 0} → (PendingRecord → Change A) → Type 0
KeepsGuard body = (rec : PendingRecord) → guarded rec ≡ true → guarded (body rec).after ≡ true

with_record-Guarded :
    {A : Type 0} (missing : A) (body : PendingRecord → Change A)
    → KeepsGuard body
    → (id j : String) (r : Registry) → Guarded (lookup j r.inner)
    → Guarded (lookup j (with_record id missing body r).1.inner)
with_record-Guarded missing body keeps id j r h =
    rw (lookup-with_record id j missing body r) (here (lookup j r.inner) h)
  where
    here :
        (o : Option PendingRecord)
        → Guarded o
        → Guarded (updated (id == j) (λ rec. (body rec).after) o)
    here none g = tt
    here (some rec) g = ground (arith, keeps rec g)

register-Guarded :
    (id j : String) (i : Invoke) (r : Registry) (now : ℕ)
    → Guarded (lookup j r.inner)
    → Guarded (lookup j (register now id i r).1.inner)
unfolding new_record
register-Guarded id j i r now h =
    rw (lookup-register id j i r now) (ground (arith, Option-cases (lookup j r.inner)))

step-Guarded :
    (now : ℕ) (c : Call) (j : String) (r : Registry)
    → Guarded (lookup j r.inner)
    → Guarded (lookup j (step r (now, c)).inner)
unfolding step
step-Guarded now (registers id i) j r h = register-Guarded id j i r now h
step-Guarded now (resolves alive id reply) j r h =
    with_record-Guarded _ _ (λ rec g. ground arith) id j r h
step-Guarded now (takes_delivery id) j r h =
    with_record-Guarded _ (λ rec. quiet rec.delivery_rx (record rec { delivery_rx = none }))
      (λ rec g. g) id j r h
step-Guarded now (completes_delivery id outcome) j r h =
    with_record-Guarded _ _ (λ rec g. ground arith) id j r h
step-Guarded now (marks_runtime_processed id) j r h =
    with_record-Guarded _ _ (λ rec g. ground arith) id j r h
step-Guarded now (expires id) j r h = with_record-Guarded _ _ (λ rec g. ground arith) id j r h
step-Guarded now (expires_or_already_expired id) j r h =
    with_record-Guarded _ _ (λ rec g. ground arith) id j r h
step-Guarded now (finalizes_decided id) j r h =
    with_record-Guarded _ _ (λ rec g. ground arith) id j r h
step-Guarded now (cancels id) j r h = with_record-Guarded _ _ (λ rec g. ground arith) id j r h

run-Guarded :
    (r : Registry) (cs : List (ℕ × Call)) (j : String)
    → Guarded (lookup j r.inner)
    → Guarded (lookup j (run r cs).inner)
unfolding run
run-Guarded r [] j h = h
run-Guarded r ((now, c) ∷ cs) j h = run-Guarded (step r (now, c)) cs j (step-Guarded now c j r h)

-- What a decision is answered with, by the invoke's state, its deadline and the helper's presence.
pub verdict : Bool → ℕ → Option PendingRecord → Result PendingState
verdict alive now none = err unknown
verdict alive now (some rec) = elim rec.state [
  | waiting ↦
      if leb rec.deadline now
      then err expired_error
      else if alive
      then ok decided
      else err cancelled
  | expired ↦ err expired_error
  | handled_locally ↦ err cancelled
  | _ ↦ err already_decided
]

abbrev pub is_ok : Result PendingState → Bool
is_ok (ok s) = true
is_ok (err e) = false

resolve_lem :
    (r : Registry) (alive : Bool) (now : ℕ) (id : String) (reply : HookReply)
    → Guarded (lookup id r.inner)
    → ((resolve alive now id reply r).0 ≡ verdict alive now (lookup id r.inner))
      × ((resolve alive now id reply r).1.replies ≡ (
          if is_ok (verdict alive now (lookup id r.inner))
          then (id, reply) ∷ r.replies
          else r.replies))
unfolding resolve verdict
resolve_lem r alive now id reply g = elim (Option-cases (lookup id r.inner)) [
  | inl e ↦ rw (e, with_record) (refl, refl)
  | inr (rec, e) ↦
      let held : guarded rec ≡ true = rw e at g in rw (e, with_record) (ground arith, ground arith)
]

-- After any history from the empty registry, `resolve` succeeds exactly on an invoke that waits,
-- before its deadline and while its helper listens; on every other path it fails with the error
-- that `verdict` gives for it. A reply is sent exactly when it succeeds.
pub resolve-verdict :
    (cs : List (ℕ × Call)) (alive : Bool) (now : ℕ) (id : String) (reply : HookReply)
    → let r = run empty cs in
      ((resolve alive now id reply r).0 ≡ verdict alive now (lookup id r.inner))
      × ((resolve alive now id reply r).1.replies ≡ (
          if is_ok (verdict alive now (lookup id r.inner))
          then (id, reply) ∷ r.replies
          else r.replies))
resolve-verdict cs alive now id reply =
    resolve_lem (run empty cs) alive now id reply (run-Guarded empty cs id (unfold lookup in tt))
