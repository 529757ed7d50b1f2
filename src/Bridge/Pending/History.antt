-- ===== src/Bridge/Pending/History.antt =====
-- Whole histories of the registry: how often a channel is used.
use text.Mathlib.TextEquality.{eq_iff}
use agent_console.Base.{
  Bool, List, Option, Option-cases, String, [], arith, if◌then◌else◌, inl, inr, is_some, kept,
  lookup, lookup-insert, nat_eq, none, some, string_eq, ℕ, ◌+◌, ◌==◌, ◌∷◌, ◌≡◌, ◌≤◌,
}
use agent_console.Bridge.Pending.Registry.{
  PendingState, waiting, decided, HookReply, PendingRecord, Registry, Change, applied, with_record,
  empty,
}
use agent_console.Bridge.Pending.Calls.{
  Invoke, quiet, register, new_record, survives, resolve_at, Call, registers, resolves,
  takes_delivery, completes_delivery, marks_runtime_processed, expires, expires_or_already_expired,
  finalizes_decided, cancels, step, run,
}
use agent_console.Bridge.Pending.Lifecycle.{lookup-register}

-- The two one-shot channels of an invoke.
pub data Side : Type 0 where
  reply_side confirmation_side : Side

abbrev count_key {ℓ} : {B : Type ℓ} → String → List (String × B) → ℕ
count_key k [] = 0
count_key k ((j, b) ∷ l) = (if j == k then 1 else 0) + count_key k l

-- How many values went into the channel of an invoke.
abbrev pub sent_count : Side → String → Registry → ℕ
sent_count reply_side j r = count_key j r.replies
sent_count confirmation_side j r = count_key j r.confirmations

abbrev flag {ℓ} : {B : Type ℓ} → Option B → ℕ
flag none = 0
flag (some b) = 1

abbrev emitted : {A : Type 0} → Side → Change A → ℕ
emitted reply_side c = flag c.reply
emitted confirmation_side c = flag c.confirmation

-- One while the channel may still be used.
abbrev weight : Side → PendingState → ℕ
weight reply_side waiting = 1
weight confirmation_side waiting = 1
weight confirmation_side decided = 1
weight _ _ = 0

abbrev open_weight : Side → Option PendingRecord → ℕ
open_weight side none = 0
open_weight side (some rec) = weight side rec.state

-- Whether a call registers the invoke anew.
abbrev admits : String → Registry → ℕ × Call → ℕ
admits j r (now, registers id i) =
    if is_some (lookup id r.inner) then 0 else if id == j then 1 else 0
admits j r (now, _) = 0

-- How often a history registers the invoke with success.
pub registrations : String → Registry → List (ℕ × Call) → ℕ
registrations j r [] = 0
registrations j r (c ∷ cs) = admits j r c + registrations j (step r c) cs

-- A body that pays for what it sends.
abbrev Pays : {A : Type 0} → Side → (PendingRecord → Change A) → Type 0
Pays side body =
    (rec : PendingRecord)
    → emitted side (body rec) + weight side (body rec).after.state ≤ weight side rec.state

abbrev Balance : Side → String → Registry → Registry → ℕ → Type 0
Balance side j r s admitted =
    sent_count side j s + open_weight side (lookup j s.inner)
    ≤ sent_count side j r + open_weight side (lookup j r.inner) + admitted

sent_count-applied :
    {A : Type 0} (side : Side) (id j : String) (c : Change A) (r : Registry)
    → sent_count side j (applied id c r).1
      ≡ (if id == j then emitted side c else 0) + sent_count side j r
sent_count-applied reply_side id j c r = ground arith
sent_count-applied confirmation_side id j c r = ground arith

module _ {A : Type 0} (side : Side) (missing : A) (body : PendingRecord → Change A)
    (pays : Pays side body) where
  with_record-Balance :
      (id j : String) (r : Registry) → Balance side j r (with_record id missing body r).1 0
  unfolding with_record
  with_record-Balance id j r = elim (Option-cases (lookup id r.inner)) [
    | inl e ↦ rw (e, with_record) (omega arith)
    | inr (rec, e) ↦
        rw (e, with_record, lookup-insert id j (body rec).after r.inner)
          (rw (sent_count-applied side id j (body rec) r) (ground (arith, pays rec, eq_iff id j)))
  ]

resolve_at-Pays :
    (side : Side) (alive : Bool) (now : ℕ) (reply : HookReply)
    → Pays side (λ rec. resolve_at rec.state alive now reply rec)
resolve_at-Pays reply_side alive now reply rec = ground arith
resolve_at-Pays confirmation_side alive now reply rec = ground arith

sent_count-register :
    (side : Side) (id j : String) (i : Invoke) (r : Registry) (now : ℕ)
    → sent_count side j (register now id i r).1 ≡ sent_count side j r
unfolding register
sent_count-register reply_side id j i r now = ground arith
sent_count-register confirmation_side id j i r now = ground arith

weight_le : (side : Side) (s : PendingState) → weight side s ≤ 1
weight_le side s = ground arith

kept_weight :
    (side : Side) (p : PendingRecord → Bool) (o : Option PendingRecord)
    → open_weight side (kept p o) ≤ open_weight side o
kept_weight side p none = omega arith
kept_weight side p (some rec) = ground arith

register-Balance :
    (side : Side) (id j : String) (i : Invoke) (r : Registry) (now : ℕ)
    → Balance side j r (register now id i r).1 (admits j r (now, registers id i))
unfolding new_record
register-Balance side id j i r now =
    rw (lookup-register id j i r now, sent_count-register side id j i r now)
      (ground (
        arith,
        eq_iff id j,
        weight_le side waiting,
        kept_weight side (survives now) (lookup j r.inner),
      ))

step-Balance :
    (side : Side) (j : String) (now : ℕ) (c : Call) (r : Registry)
    → Balance side j r (step r (now, c)) (admits j r (now, c))
unfolding step
step-Balance side j now (registers id i) r = register-Balance side id j i r now
step-Balance side j now (resolves alive id reply) r =
    with_record-Balance side _ _ (resolve_at-Pays side alive now reply) id j r
step-Balance side j now (takes_delivery id) r =
    with_record-Balance side _ (λ rec. quiet rec.delivery_rx (record rec { delivery_rx = none }))
      (λ rec. ground arith) id j r
step-Balance side j now (completes_delivery id outcome) r =
    with_record-Balance side _ _ (λ rec. ground arith) id j r
step-Balance side j now (marks_runtime_processed id) r =
    with_record-Balance side _ _ (λ rec. ground arith) id j r
step-Balance side j now (expires id) r = with_record-Balance side _ _ (λ rec. ground arith) id j r
step-Balance side j now (expires_or_already_expired id) r =
    with_record-Balance side _ _ (λ rec. ground arith) id j r
step-Balance side j now (finalizes_decided id) r =
    with_record-Balance side _ _ (λ rec. ground arith) id j r
step-Balance side j now (cancels id) r = with_record-Balance side _ _ (λ rec. ground arith) id j r

sent_count_bound :
    (side : Side) (j : String) (r : Registry) (cs : List (ℕ × Call))
    → sent_count side j (run r cs) + open_weight side (lookup j (run r cs).inner)
      ≤ sent_count side j r + open_weight side (lookup j r.inner) + registrations j r cs
unfolding run registrations
sent_count_bound side j r [] = omega arith
sent_count_bound side j r ((now, c) ∷ cs) =
    omega (arith, sent_count_bound side j (step r (now, c)) cs, step-Balance side j now c r)

-- Over any history that begins with the empty registry, and for both channels of an invoke: no
-- more values are sent for an invoke's id than the id was registered with success. So a
-- registration is answered at most once, and its delivery is confirmed at most once.
pub sent_count-le-registrations :
    (side : Side) (j : String) (cs : List (ℕ × Call))
    → sent_count side j (run empty cs) ≤ registrations j empty cs
unfolding lookup
sent_count-le-registrations reply_side j cs = omega (arith, sent_count_bound reply_side j empty cs)
sent_count-le-registrations confirmation_side j cs =
    omega (arith, sent_count_bound confirmation_side j empty cs)
