-- ===== src/Relay/Transfers/Fate.antt =====
-- What becomes of each transfer over the histories of the registry of transfers/mod.rs.
use mathlib.Core.Option.{some-injective}
use agent_console.Base.{
  Bool, Bool-cases, List, Option, Option-cases, String, Table, [], any, ap, arith, false, if_cases,
  if◌then◌else◌, inl, inr, insert, leb, length, lookup, lookup-insert, none, refl, some, string_eq,
  sym, true, ℕ, ◌+◌, ◌==◌, ◌≡◌, ◌≤◌, ◌∙◌, ◌∷◌, ◌⊎◌,
}
use agent_console.Relay.Transfers.State.{Transfer, TransferInfo, new_transfer, rate_limited}
use agent_console.Relay.Transfers.Calls.{
  Call, TransferRegistry, create, creating, live, max_concurrent_per_browser,
  max_concurrent_per_device, modify, of_device, of_owner, one_if, perform, run, sweep, sweep_all,
  sweep_one, sweeping, touch, touching,
}
use agent_console.Relay.Transfers.Later.{Later, Later-refl, Later-trans}
use agent_console.Relay.Transfers.Touches.{sweep_one-Later, touch-Later}

abbrev pub mapped : (Transfer → Transfer) → Option Transfer → Option Transfer
mapped f none = none
mapped f (some t) = some (f t)

pub lookup-modify :
    (id j : String) (f : Transfer → Transfer) (ts : Table String Transfer)
    → lookup j (modify id f ts) ≡ (if id == j then mapped f (lookup j ts) else lookup j ts)
unfolding modify lookup
lookup-modify id j f [] = ground arith
lookup-modify id j f ((k, t) ∷ ts) = ground (
  arith,
  string_eq.equals_iff k id,
  string_eq.equals_iff k j,
  string_eq.equals_iff id j,
  lookup-modify id j f ts,
)

pub lookup-sweep_all :
    (j : String) (now : ℕ) (ts : Table String Transfer)
    → lookup j (sweep_all now ts) ≡ mapped (sweep_one now) (lookup j ts)
unfolding lookup
lookup-sweep_all j now [] = refl
lookup-sweep_all j now ((k, t) ∷ ts) = elim (Bool-cases (k == j)) [
  | inl b ↦ rw b refl
  | inr b ↦ rw b (lookup-sweep_all j now ts)
]

-- Whether a call creates a transfer with this id.
abbrev pub creates : String → Call → Bool
creates id (creating j info now) = j == id
creates id (sweeping now) = false
creates id (touching j what) = false

Found : String → TransferRegistry → Transfer → Type 0
Found id r t = (t' : Transfer) × (lookup id r.transfers ≡ some t') × Later t t'

create-lookup :
    (id j : String) (info : TransferInfo) (now : ℕ) (r : TransferRegistry)
    → (lookup j (create id info now r).1.transfers ≡ lookup j r.transfers)
      ⊎ ((id ≡ j) × (lookup j (create id info now r).1.transfers ≡ some (new_transfer id info now)))
unfolding create
create-lookup id j info now r =
    if_cases (λ (x : Option ℕ × TransferRegistry). Either x)
      (leb max_concurrent_per_browser (live (of_owner info.owner) r.transfers))
      (some rate_limited, r)
      (if leb max_concurrent_per_device (live (of_device info.device) r.transfers)
        then (some rate_limited, r)
        else (none, record r { transfers = insert id (new_transfer id info now) r.transfers }))
      (λ b. inl refl)
      (λ b.
        if_cases (λ (x : Option ℕ × TransferRegistry). Either x)
          (leb max_concurrent_per_device (live (of_device info.device) r.transfers))
          (some rate_limited, r)
          (none, record r { transfers = insert id (new_transfer id info now) r.transfers })
          (λ c. inl refl)
          (λ c. elim (Bool-cases (id == j)) [
            | inl s ↦ inr (
              (string_eq.equals_iff id j).0 s,
              lookup-insert id j (new_transfer id info now) r.transfers ∙ rw s refl,
            )
            | inr s ↦ inl (lookup-insert id j (new_transfer id info now) r.transfers ∙ rw s refl)
          ]))
  where
    Either : Option ℕ × TransferRegistry → Type 0
    Either x =
        (lookup j x.1.transfers ≡ lookup j r.transfers)
        ⊎ ((id ≡ j) × (lookup j x.1.transfers ≡ some (new_transfer id info now)))

-- What one call makes of the entry of an id.
data Changed (j : String) (call : Call) (r : TransferRegistry) : Type 0 where
  same : lookup j (perform call r).transfers ≡ lookup j r.transfers → Changed j call r
  moved :
      (t t' : Transfer)
      → lookup j r.transfers ≡ some t
      → lookup j (perform call r).transfers ≡ some t'
      → Later t t'
      → Changed j call r
  made :
      (info : TransferInfo) (now : ℕ)
      → creates j call ≡ true
      → lookup j (perform call r).transfers ≡ some (new_transfer j info now)
      → Changed j call r

perform-Changed : (j : String) (call : Call) (r : TransferRegistry) → Changed j call r
unfolding perform sweep
perform-Changed j (creating id info now) r = elim (create-lookup id j info now r) [
  | inl q ↦ same q
  | inr (e, q) ↦
      made info now ((string_eq.equals_iff id j).1 e)
        (q ∙ ap (λ k. some (new_transfer k info now)) e)
]
perform-Changed j (sweeping now) r =
    let q = lookup-sweep_all j now r.transfers in
    elim (Option-cases (lookup j r.transfers)) [
      | inl e ↦ same (q ∙ ap (mapped (sweep_one now)) e ∙ sym e)
      | inr (t, e) ↦
          moved t (sweep_one now t) e (q ∙ ap (mapped (sweep_one now)) e) (sweep_one-Later now t)
    ]
perform-Changed j (touching id what) r =
    let q = lookup-modify id j (touch r.hub what) r.transfers in
    elim (Bool-cases (id == j)) [
      | inr other ↦ same (q ∙ rw other refl)
      | inl here ↦ elim (Option-cases (lookup j r.transfers)) [
        | inl e ↦ same (q ∙ rw (here, e) refl)
        | inr (t, e) ↦
            moved t (touch r.hub what t) e (q ∙ rw (here, e) refl) (touch-Later r.hub what t)
      ]
    ]

-- A transfer that is there stays reachable over any history that does not create its id again, keeps
-- its info, and once it is terminal keeps its code and gets no producer and no consumer; once it has
-- left the registry it never returns.
pub run-Later :
    (calls : List Call) (id : String) (r : TransferRegistry) (t : Transfer)
    → any (creates id) calls ≡ false
    → lookup id r.transfers ≡ some t
    → (t' : Transfer) × (lookup id (run calls r).transfers ≡ some t') × Later t t'
unfolding run
run-Later [] id r t fresh e = (t, e, Later-refl t)
run-Later (call ∷ calls) id r t fresh e =
    let old : creates id call ≡ false = ground (arith, fresh) in
    let fresh' : any (creates id) calls ≡ false = ground (arith, fresh) in
    elim (perform-Changed id call r) [
      | same q ↦ run-Later calls id (perform call r) t fresh' (q ∙ e)
      | moved u u' q q' l ↦
          let (t', found, l') = run-Later calls id (perform call r) u' fresh' q' in
          let is_u : t ≡ u = some-injective t u (sym e ∙ q) in
          (t', found, rw is_u (Later-trans u u' t' l l'))
      | made info now c q ↦ cc
    ]

-- What may still go through the channels of a transfer, and what went, is one at most.
pub record IsOneShot (t : Transfer) : Type 0 where
  pub one_producer : t.handoffs + one_if t.producer_tx ≤ 1
  pub one_consumer : t.pipes + one_if t.consumer_tx ≤ 1
  pub one_result : length t.results + one_if t.result_tx ≤ 1

Later-IsOneShot : (t t' : Transfer) → Later t t' → IsOneShot t → IsOneShot t'
Later-IsOneShot t t' l o = record {
  one_producer = omega (arith, l.handoffs_left, o.one_producer);
  one_consumer = omega (arith, l.pipes_left, o.one_consumer);
  one_result = omega (arith, l.results_left, o.one_result);
}

new_transfer-IsOneShot :
    (id : String) (info : TransferInfo) (now : ℕ) → IsOneShot (new_transfer id info now)
new_transfer-IsOneShot id info now = record {
  one_producer = omega arith;
  one_consumer = omega arith;
  one_result = omega arith;
}

AllOneShot : TransferRegistry → Type 0
AllOneShot r = (id : String) (t : Transfer) → lookup id r.transfers ≡ some t → IsOneShot t

perform-AllOneShot :
    (call : Call) (r : TransferRegistry) → AllOneShot r → AllOneShot (perform call r)
unfolding AllOneShot
perform-AllOneShot call r all id t e = elim (perform-Changed id call r) [
  | same q ↦ all id t (sym q ∙ e)
  | moved u u' q q' l ↦ rw (some-injective t u' (sym e ∙ q')) (Later-IsOneShot u u' l (all id u q))
  | made info now c q ↦
      rw (some-injective t (new_transfer id info now) (sym e ∙ q))
        (new_transfer-IsOneShot id info now)
]

run-AllOneShot :
    (calls : List Call) (r : TransferRegistry) → AllOneShot r → AllOneShot (run calls r)
unfolding run
run-AllOneShot [] r all = all
run-AllOneShot (call ∷ calls) r all =
    run-AllOneShot calls (perform call r) (perform-AllOneShot call r all)

-- Whatever is called and in whatever order, each transfer hands over at most one producer and one
-- consumer, and sends at most one result to the one who waits for it.
pub run-IsOneShot :
    (calls : List Call) (hub : Bool) (id : String) (t : Transfer)
    → lookup id (run calls (record { transfers = []; hub = hub })).transfers ≡ some t
    → IsOneShot t
unfolding AllOneShot lookup
run-IsOneShot calls hub id t =
    run-AllOneShot calls (record { transfers = []; hub = hub }) (λ id t e. cc) id t
