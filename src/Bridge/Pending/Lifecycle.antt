-- ===== src/Bridge/Pending/Lifecycle.antt =====
-- The life cycle of one invoke: what any operation of the registry may do to any record.
use agent_console.Base.{
  Bool, Bool-cases, Option, Option-cases, String, arith, false, if◌then◌else◌, inl, inr, is_some,
  kept, lookup, lookup-insert, lookup-retain, nat_eq, none, retain, some, string_eq, true, ℕ, ◌==◌,
  ◌≡◌, ◌≤◌,
}
use text.Mathlib.TextEquality.{eq_iff}
use agent_console.Bridge.Pending.Registry.{
  PendingState, waiting, decided, returned_to_runtime, runtime_processed, expired, handled_locally,
  is_terminal, HookReply, PendingRecord, Registry, Change, with_record,
}
use agent_console.Bridge.Pending.Calls.{
  Invoke, quiet, register, new_record, survives, resolve_at, Call, registers, resolves,
  takes_delivery, completes_delivery, marks_runtime_processed, expires, expires_or_already_expired,
  finalizes_decided, cancels, step,
}

-- The transitions that the registry promises.
pub data Move : PendingState → PendingState → Type 0 where
  stays : {s : PendingState} → Move s s
  decides : Move waiting decided
  times_out : Move waiting expired
  is_withdrawn : Move waiting handled_locally
  is_returned : Move decided returned_to_runtime
  is_unconfirmed : Move decided handled_locally
  loses_race : Move decided expired
  is_processed : Move returned_to_runtime runtime_processed

abbrev pub may_move : PendingState → PendingState → Bool
may_move waiting waiting = true
may_move waiting decided = true
may_move waiting expired = true
may_move waiting handled_locally = true
may_move decided decided = true
may_move decided returned_to_runtime = true
may_move decided handled_locally = true
may_move decided expired = true
may_move returned_to_runtime returned_to_runtime = true
may_move returned_to_runtime runtime_processed = true
may_move runtime_processed runtime_processed = true
may_move expired expired = true
may_move handled_locally handled_locally = true
may_move _ _ = false

Move-of : (s t : PendingState) → may_move s t ≡ true → Move s t
Move-of waiting waiting h = stays
Move-of waiting decided h = decides
Move-of waiting expired h = times_out
Move-of waiting handled_locally h = is_withdrawn
Move-of decided decided h = stays
Move-of decided returned_to_runtime h = is_returned
Move-of decided handled_locally h = is_unconfirmed
Move-of decided expired h = loses_race
Move-of returned_to_runtime returned_to_runtime h = stays
Move-of returned_to_runtime runtime_processed h = is_processed
Move-of runtime_processed runtime_processed h = stays
Move-of expired expired h = stays
Move-of handled_locally handled_locally h = stays
Move-of _ _ h = cc

-- What a call at time `now` may leave of a record.
pub data Evolves (now : ℕ) (rec : PendingRecord) : Option PendingRecord → Type 0 where
  kept_as : {next : PendingRecord} → Move rec.state next.state → Evolves now rec (some next)
  cleaned_up : is_terminal rec.state ≡ true → rec.deadline ≤ now → Evolves now rec none

-- `with_record` on the records of the table.
abbrev pub updated :
    Bool → (PendingRecord → PendingRecord) → Option PendingRecord → Option PendingRecord
updated hit f none = none
updated hit f (some rec) = some (if hit then f rec else rec)

pub lookup-with_record :
    {A : Type 0} (id j : String) (missing : A) (body : PendingRecord → Change A) (r : Registry)
    → lookup j (with_record id missing body r).1.inner
      ≡ updated (id == j) (λ rec. (body rec).after) (lookup j r.inner)
unfolding with_record
lookup-with_record id j missing body r = elim (Option-cases (lookup id r.inner)) [
  | inl e ↦ rw (e, with_record) (ground (arith, eq_iff id j, Option-cases (lookup j r.inner)))
  | inr (rec, e) ↦
      rw (e, with_record, lookup-insert id j (body rec).after r.inner)
        (ground (arith, eq_iff id j, Option-cases (lookup j r.inner)))
]

-- A body that moves every record along the life cycle.
abbrev pub IsMove : {A : Type 0} → (PendingRecord → Change A) → Type 0
IsMove body = (rec : PendingRecord) → may_move rec.state (body rec).after.state ≡ true

pub may_move_refl : (s : PendingState) → may_move s s ≡ true
may_move_refl s = ground arith

module _ {A : Type 0} (missing : A) (body : PendingRecord → Change A) (moves : IsMove body) where
  with_record-Evolves :
      (id j : String) (r : Registry) (now : ℕ) (rec : PendingRecord)
      → lookup j r.inner ≡ some rec
      → Evolves now rec (lookup j (with_record id missing body r).1.inner)
  with_record-Evolves id j r now rec found =
      rw (lookup-with_record id j missing body r, found)
        (kept_as (elim (Bool-cases (id == j)) [
          | inl hit ↦ rw hit (Move-of rec.state (body rec).after.state (moves rec))
          | inr miss ↦ rw miss stays
        ]))

pub resolve_at-IsMove :
    (alive : Bool) (now : ℕ) (reply : HookReply)
    → IsMove (λ rec. resolve_at rec.state alive now reply rec)
resolve_at-IsMove alive now reply rec = ground arith

pub lookup-register :
    (id j : String) (i : Invoke) (r : Registry) (now : ℕ)
    → lookup j (register now id i r).1.inner ≡ (
        if is_some (lookup id r.inner)
        then lookup j r.inner
        else if id == j
        then some (new_record id i now)
        else kept (survives now) (lookup j r.inner))
unfolding register
lookup-register id j i r now = elim (Bool-cases (is_some (lookup id r.inner))) [
  | inl old ↦ rw old
  | inr new ↦
      rw (new, lookup-insert id j (new_record id i now) (retain (survives now) r.inner))
        (rw (lookup-retain (survives now) j r.inner))
]

survives-Evolves :
    (now : ℕ) (rec : PendingRecord) → Evolves now rec (kept (survives now) (some rec))
unfolding survives is_terminal
survives-Evolves now rec = elim (Bool-cases (survives now rec)) [
  | inl stay ↦ rw stay (kept_as stays)
  | inr go ↦ rw go (cleaned_up (ground arith) (ground arith))
]

register-Evolves :
    (id j : String) (i : Invoke) (r : Registry) (now : ℕ) (rec : PendingRecord)
    → lookup j r.inner ≡ some rec
    → Evolves now rec (lookup j (register now id i r).1.inner)
register-Evolves id j i r now rec found =
    rw (lookup-register id j i r now, found)
      (elim (Bool-cases (is_some (lookup id r.inner))) [
        | inl old ↦ rw old (kept_as stays)
        | inr new ↦ elim (Bool-cases (id == j)) [
          | inl hit ↦ absurd (ground (arith, eq_iff id j))
          | inr miss ↦ rw (new, miss) (survives-Evolves now rec)
        ]
      ])

-- Every call leaves every record of the table where it is, moves it along the life cycle, or
-- removes it; and it removes only a record in a terminal state whose deadline has passed.
pub step-Evolves :
    (now : ℕ) (c : Call) (j : String) (r : Registry) (rec : PendingRecord)
    → lookup j r.inner ≡ some rec
    → Evolves now rec (lookup j (step r (now, c)).inner)
unfolding step
step-Evolves now (registers id i) j r rec found = register-Evolves id j i r now rec found
step-Evolves now (resolves alive id reply) j r rec found =
    with_record-Evolves _ _ (resolve_at-IsMove alive now reply) id j r now rec found
step-Evolves now (takes_delivery id) j r rec found =
    with_record-Evolves _ (λ rec. quiet rec.delivery_rx (record rec { delivery_rx = none }))
      (λ rec. may_move_refl rec.state) id j r now rec found
step-Evolves now (completes_delivery id outcome) j r rec found =
    with_record-Evolves _ _ (λ rec. ground arith) id j r now rec found
step-Evolves now (marks_runtime_processed id) j r rec found =
    with_record-Evolves _ _ (λ rec. ground arith) id j r now rec found
step-Evolves now (expires id) j r rec found =
    with_record-Evolves _ _ (λ rec. ground arith) id j r now rec found
step-Evolves now (expires_or_already_expired id) j r rec found =
    with_record-Evolves _ _ (λ rec. ground arith) id j r now rec found
step-Evolves now (finalizes_decided id) j r rec found =
    with_record-Evolves _ _ (λ rec. ground arith) id j r now rec found
step-Evolves now (cancels id) j r rec found =
    with_record-Evolves _ _ (λ rec. ground arith) id j r now rec found
