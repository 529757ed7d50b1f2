-- ===== src/Bridge/Gateway/Balance.antt =====
-- What each part of commands/gateway.rs does to the commands in flight, to the forwarding tasks and to
-- the receipts that the callers got.
use agent_console.Base.{
  Bool, Bool-cases, List, Option, String, [], ap, arith, false, if_cases, if◌then◌else◌, inl, inr,
  insert, lookup-remove, Table, is_some, lookup, lookup-insert, none, refl, remove, some, string_eq,
  true, ℕ, ◌&&◌, ◌+◌, ◌==◌, ◌≡◌, ◌∷◌, ◌∙◌, sym, not, ◌||◌,
}
use agent_console.Bridge.Store.{update_receipt_status}
use agent_console.Bridge.Queue.State.{ReceiptState, receipt_status_str, receipt_outcome_unknown}
use agent_console.Bridge.Gateway.State.{CommandGateway}
use agent_console.Bridge.Gateway.Submit.{finalize_receipt, is_terminal, report}
use agent_console.Bridge.Gateway.Forwarding.{forward, forward_next}
use agent_console.Bridge.Gateway.Receipts.{is_known, query-Keeps, update_receipt_status-Keeps}

abbrev pub terminal_at : String → String × ReceiptState → ℕ
terminal_at id (r, state) = if r == id && is_terminal state then 1 else 0

-- How many terminal receipts the caller of a request got.
abbrev pub terminals : String → List (String × ReceiptState) → ℕ
terminals id [] = 0
terminals id (d ∷ ds) = terminal_at id d + terminals id ds

abbrev pub in_flight : String → CommandGateway → Bool
in_flight id g = is_some (lookup id g.inflight)

abbrev pub is_forwarded : String → CommandGateway → Bool
is_forwarded id g = is_some (lookup id g.forwarding)

abbrev pub one_if : Bool → ℕ
one_if b = if b then 1 else 0

-- The terminal receipts of a request, and the one it still waits for.
abbrev pub balance : String → CommandGateway → ℕ
balance id g = terminals id g.delivered + one_if (in_flight id g)

-- Only what is in flight is forwarded, and what is in flight has its receipt in the store.
pub record IsWellFormed (g : CommandGateway) : Type 0 where
  pub forwarded_in_flight : (id : String) → is_forwarded id g ≡ true → in_flight id g ≡ true
  pub in_flight_known : (id : String) → in_flight id g ≡ true → is_known id g.world.store ≡ true

pub at_key : (P : String → Bool) (r id : String) → (r == id) ≡ true → P id ≡ P r
at_key P r id b = ap P (sym ((string_eq.equals_iff r id).0 b))

pub report-known :
    (id r : String) (state : ReceiptState) (g : CommandGateway)
    → is_known id (report r state g).world.store ≡ is_known id g.world.store
unfolding report
report-known id r state g =
    query-Keeps id (update_receipt_status g.world.now r (receipt_status_str state))
      (update_receipt_status-Keeps id g.world.now r (receipt_status_str state)) g.world

is_some-remove :
    (id r : String) (t : Table String (Unit {0}))
    → is_some (lookup id (remove r t)) ≡ (not (r == id) && is_some (lookup id t))
is_some-remove id r t = rw (lookup-remove r id t) (ground arith)

pub is_some-insert :
    (id r : String) (t : Table String (Unit {0}))
    → is_some (lookup id (insert r tt t)) ≡ (r == id || is_some (lookup id t))
is_some-insert id r t = rw (lookup-insert r id tt t) (ground arith)

pub finalize_receipt-known :
    (id r : String) (state : ReceiptState) (g : CommandGateway)
    → is_known id (finalize_receipt r state g).world.store ≡ is_known id g.world.store
unfolding finalize_receipt
finalize_receipt-known id r state g = report-known id r state g

-- A terminal receipt takes the place of the command in flight.
pub finalize_receipt-balance :
    (id r : String) (state : ReceiptState) (g : CommandGateway)
    → is_terminal state ≡ true
    → in_flight r g ≡ true
    → balance id (finalize_receipt r state g) ≡ balance id g
unfolding finalize_receipt report
finalize_receipt-balance id r state g t f =
    rw (is_some-remove id r g.inflight, t)
      (elim (Bool-cases (r == id)) [
        | inl b ↦
            let same : in_flight id g ≡ true = at_key (λ k. in_flight k g) r id b ∙ f in
            rw (b, same) (omega arith)
        | inr b ↦ rw b (omega arith)
      ])

pub finalize_receipt-IsWellFormed :
    (r : String) (state : ReceiptState) (g : CommandGateway)
    → is_forwarded r g ≡ false
    → IsWellFormed g
    → IsWellFormed (finalize_receipt r state g)
unfolding finalize_receipt report
finalize_receipt-IsWellFormed r state g alone w = record {
  forwarded_in_flight = λ id h. elim (Bool-cases (r == id)) [
    | inl b ↦ let clash = at_key (λ k. is_forwarded k g) r id b in cc
    | inr b ↦ rw (is_some-remove id r g.inflight, b) (w.forwarded_in_flight id h)
  ];
  in_flight_known = λ id h.
      let left : (not (r == id) && in_flight id g) ≡ true =
        sym (is_some-remove id r g.inflight) ∙ h in
      let before : in_flight id g ≡ true = ground (arith, left) in
      finalize_receipt-known id r state g ∙ w.in_flight_known id before;
}

-- A forwarding task at its last receipt, or at the end of its stream.
pub forward_end-balance :
    (id r : String) (state : ReceiptState) (g : CommandGateway)
    → is_terminal state ≡ true
    → is_forwarded r g ≡ true
    → IsWellFormed g
    → balance id (record (finalize_receipt r state g) { forwarding = remove r g.forwarding })
      ≡ balance id g
unfolding finalize_receipt report
forward_end-balance id r state g t f w =
    finalize_receipt-balance id r state g t (w.forwarded_in_flight r f)

pub forward_end-IsWellFormed :
    (r : String) (state : ReceiptState) (g : CommandGateway)
    → IsWellFormed g
    → IsWellFormed (record (finalize_receipt r state g) { forwarding = remove r g.forwarding })
unfolding finalize_receipt report
forward_end-IsWellFormed r state g w = record {
  forwarded_in_flight = λ id h.
      let left : (not (r == id) && is_forwarded id g) ≡ true =
        sym (is_some-remove id r g.forwarding) ∙ h in
      let other : not (r == id) ≡ true = ground (arith, left) in
      let before : is_forwarded id g ≡ true = ground (arith, left) in
      rw (is_some-remove id r g.inflight, other) (w.forwarded_in_flight id before);
  in_flight_known = λ id h.
      let left : (not (r == id) && in_flight id g) ≡ true =
        sym (is_some-remove id r g.inflight) ∙ h in
      let before : in_flight id g ≡ true = ground (arith, left) in
      finalize_receipt-known id r state g ∙ w.in_flight_known id before;
}

pub report-balance :
    (id r : String) (state : ReceiptState) (g : CommandGateway)
    → is_terminal state ≡ false
    → balance id (report r state g) ≡ balance id g
unfolding report
report-balance id r state g t = elim (Bool-cases (r == id)) [
  | inl b ↦ rw (t, b) (omega arith)
  | inr b ↦ rw (t, b) (omega arith)
]

pub report-IsWellFormed :
    (r : String) (state : ReceiptState) (g : CommandGateway)
    → IsWellFormed g
    → IsWellFormed (report r state g)
unfolding report
report-IsWellFormed r state g w = record {
  forwarded_in_flight = w.forwarded_in_flight;
  in_flight_known = λ id h. report-known id r state g ∙ w.in_flight_known id h;
}

-- From one state of the gateway to another, nothing is lost or answered twice.
pub record Balanced (g g' : CommandGateway) : Type 0 where
  pub even : (id : String) → balance id g' ≡ balance id g
  pub well : IsWellFormed g'
  pub knows : (id : String) → is_known id g'.world.store ≡ is_known id g.world.store

pub forward-Balanced :
    (r : String) (next : Option ReceiptState) (g : CommandGateway)
    → IsWellFormed g
    → Balanced g (forward r next g)
unfolding forward finalize_receipt report
forward-Balanced r next g w =
    if_cases (Balanced g) (is_forwarded r g) (forward_next r next g) g (λ f. go next f)
      (λ f. record { even = λ id. refl; well = w; knows = λ id. refl })
  where
    at_end :
        (state : ReceiptState)
        → is_terminal state ≡ true
        → is_forwarded r g ≡ true
        → Balanced g (record (finalize_receipt r state g) { forwarding = remove r g.forwarding })
    at_end state t f = record {
      even = λ id. forward_end-balance id r state g t f w;
      well = forward_end-IsWellFormed r state g w;
      knows = λ id. finalize_receipt-known id r state g;
    }

    go : (next : Option ReceiptState) → is_forwarded r g ≡ true → Balanced g (forward_next r next g)
    go none f = at_end receipt_outcome_unknown refl f
    go (some state) f =
        if_cases (Balanced g) (is_terminal state)
          (record (finalize_receipt r state g) { forwarding = remove r g.forwarding })
          (report r state g) (λ t. at_end state t f)
          (λ t. record {
            even = λ id. report-balance id r state g t;
            well = report-IsWellFormed r state g w;
            knows = λ id. report-known id r state g;
          })
