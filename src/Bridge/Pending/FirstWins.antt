-- ===== src/Bridge/Pending/FirstWins.antt =====
-- The first decision wins: nothing that happens later reopens an invoke.
use agent_console.Base.{
  ==_refl, Bool, List, Option, Option-cases, String, [], arith, false, inl, inr, lookup,
  lookup-insert, nat_eq, none, refl, some, string_eq, ℕ, ◌==◌, ◌∷◌, ◌≡◌,
}
use agent_console.Bridge.Pending.Registry.{
  PendingState, same_state, waiting, HookReply, PendingRecord, PendingError, Result, ok, err,
  Registry, Change, with_record,
}
use agent_console.Bridge.Pending.Calls.{
  quiet, resolve, resolve_at, Call, registers, resolves, takes_delivery, completes_delivery,
  marks_runtime_processed, expires, expires_or_already_expired, finalizes_decided, cancels, step,
  run,
}
use agent_console.Bridge.Pending.Lifecycle.{
  lookup-with_record, lookup-register, Evolves, kept_as, cleaned_up, step-Evolves, Move, stays,
  decides, times_out, is_withdrawn, is_returned, is_unconfirmed, loses_race, is_processed,
}
use agent_console.Bridge.Pending.Decision.{is_ok}

-- Whether an invoke still takes a decision.
pub is_open : Option PendingRecord → Bool
is_open none = false
is_open (some rec) = same_state rec.state waiting

abbrev pub registers_id : String → Call → Bool
registers_id j (registers id i) = id == j
registers_id j _ = false

-- A history in which nobody registers the id.
abbrev pub Without : String → List (ℕ × Call) → Type 0
Without j [] = Unit
Without j ((now, c) ∷ cs) = (registers_id j c ≡ false) × Without j cs

with_record-none :
    {A : Type 0} (missing : A) (body : PendingRecord → Change A) (id j : String) (r : Registry)
    → lookup j r.inner ≡ none
    → lookup j (with_record id missing body r).1.inner ≡ none
with_record-none missing body id j r h = rw (lookup-with_record id j missing body r, h)

step-none :
    (now : ℕ) (c : Call) (j : String) (r : Registry)
    → registers_id j c ≡ false
    → lookup j r.inner ≡ none
    → lookup j (step r (now, c)).inner ≡ none
unfolding step
step-none now (registers id i) j r other h =
    rw (lookup-register id j i r now, other, h) (ground arith)
step-none now (resolves alive id reply) j r other h = with_record-none _ _ id j r h
step-none now (takes_delivery id) j r other h =
    with_record-none _ (λ rec. quiet rec.delivery_rx (record rec { delivery_rx = none })) id j r h
step-none now (completes_delivery id outcome) j r other h = with_record-none _ _ id j r h
step-none now (marks_runtime_processed id) j r other h = with_record-none _ _ id j r h
step-none now (expires id) j r other h = with_record-none _ _ id j r h
step-none now (expires_or_already_expired id) j r other h = with_record-none _ _ id j r h
step-none now (finalizes_decided id) j r other h = with_record-none _ _ id j r h
step-none now (cancels id) j r other h = with_record-none _ _ id j r h

Move-closed :
    (s t : PendingState) → Move s t → same_state s waiting ≡ false → same_state t waiting ≡ false
Move-closed s t stays h = h
Move-closed s t decides h = refl
Move-closed s t times_out h = refl
Move-closed s t is_withdrawn h = refl
Move-closed s t is_returned h = refl
Move-closed s t is_unconfirmed h = refl
Move-closed s t loses_race h = refl
Move-closed s t is_processed h = refl

Evolves-closed :
    (now : ℕ) (rec : PendingRecord) (o : Option PendingRecord)
    → Evolves now rec o
    → same_state rec.state waiting ≡ false
    → is_open o ≡ false
unfolding is_open
Evolves-closed now rec o (kept_as {next = next} move) h = Move-closed rec.state next.state move h
Evolves-closed now rec o (cleaned_up over late) h = refl

step-closed :
    (now : ℕ) (c : Call) (j : String) (r : Registry)
    → registers_id j c ≡ false
    → is_open (lookup j r.inner) ≡ false
    → is_open (lookup j (step r (now, c)).inner) ≡ false
unfolding is_open
step-closed now c j r other h = elim (Option-cases (lookup j r.inner)) [
  | inl e ↦ rw (step-none now c j r other e)
  | inr (rec, e) ↦ Evolves-closed now rec _ (step-Evolves now c j r rec e) (rw e at h)
]

run-closed :
    (cs : List (ℕ × Call)) (j : String) (r : Registry)
    → Without j cs
    → is_open (lookup j r.inner) ≡ false
    → is_open (lookup j (run r cs).inner) ≡ false
unfolding run
run-closed [] j r w h = h
run-closed ((now, c) ∷ cs) j r w h =
    run-closed cs j (step r (now, c)) w.1 (step-closed now c j r w.0 h)

-- A resolved invoke is closed, whatever the outcome.
resolve-closes :
    (r : Registry) (alive : Bool) (now : ℕ) (id : String) (reply : HookReply)
    → is_open (lookup id (resolve alive now id reply r).1.inner) ≡ false
unfolding resolve is_open
resolve-closes r alive now id reply = elim (Option-cases (lookup id r.inner)) [
  | inl e ↦ rw (e, with_record) (rw e)
  | inr (rec, e) ↦
      rw
        (
          e,
          with_record,
          lookup-insert id id (resolve_at rec.state alive now reply rec).after r.inner,
          ==_refl id,
        )
        (ground arith)
]

err_of : (x : Result PendingState) → is_ok x ≡ false → (e : PendingError) × (x ≡ err e)
err_of (ok s) h = cc
err_of (err e) h = (e, refl)

closed-fails :
    (r : Registry) (alive : Bool) (now : ℕ) (id : String) (reply : HookReply)
    → is_open (lookup id r.inner) ≡ false
    → is_ok (resolve alive now id reply r).0 ≡ false
unfolding resolve is_open
closed-fails r alive now id reply h = elim (Option-cases (lookup id r.inner)) [
  | inl e ↦ rw (e, with_record)
  | inr (rec, e) ↦
      let closed : same_state rec.state waiting ≡ false = rw e at h in
      rw (e, with_record) (ground arith)
]

-- Once a decision on an invoke has been tried, whether it was accepted or not, every later one
-- fails, whatever calls come between, as long as the id is not registered again.
pub resolve_once :
    (r : Registry) (alive later_alive : Bool) (now later : ℕ) (id : String) (reply late : HookReply)
    (cs : List (ℕ × Call))
    → Without id cs
    → (e : PendingError) × ((resolve later_alive later id late
          (run (resolve alive now id reply r).1 cs)).0
        ≡ err e)
resolve_once r alive later_alive now later id reply late cs w = err_of _ (
    closed-fails (run (resolve alive now id reply r).1 cs) later_alive later id late
      (run-closed cs id (resolve alive now id reply r).1 w (resolve-closes r alive now id reply)))
