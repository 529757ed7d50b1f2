-- ===== src/Bridge/Gateway/Shutdown.antt =====
-- `graceful_shutdown` of commands/gateway.rs at the end of a history.
use agent_console.Base.{
  Bool-cases, List, Option, String, Table, [], ap, arith, if_cases, if◌then◌else◌, inl, inr, insert,
  remove, is_some, lookup, lookup-insert, lookup-remove, map, none, refl, some, string_eq, true, ℕ,
  ◌==◌, ◌≡◌, ◌∷◌, ◌∙◌, sym, ◌+◌,
}
use agent_console.Bridge.Queue.State.{
  Outcome, ReceiptState, RuntimeSnapshot, device_offline, done, failed_with,
  receipt_outcome_unknown,
}
use agent_console.Bridge.Gateway.State.{
  CommandGateway, CommandPayload, CommandRequest, Replies, cancel_queue_payload,
  pause_queue_payload, queue_next_turn_payload,
}
use agent_console.Bridge.Gateway.Submit.{
  on_checks, checked, dispatch, execute, finalize_receipt, gate, on_gate, is_terminal, report,
  submit, validate,
}
use agent_console.Bridge.Gateway.Forwarding.{finalize_all, forward, forward_next, graceful_shutdown}
use agent_console.Bridge.Gateway.Balance.{
  IsWellFormed, balance, is_forwarded, one_if, terminal_at, terminals,
}
use agent_console.Bridge.Gateway.Answers.{accepts, refuses, recorded, submit-Answered}
use agent_console.Bridge.Gateway.History.{
  Call, accepted_in, forwarding_next, perform, perform_all, perform_all-balance, submitting,
}

abbrev count_key : {V : Type 0} → String → Table String V → ℕ
count_key id [] = 0
count_key id ((r, v) ∷ t) = one_if (r == id) + count_key id t

-- A key stands in the table once, or not at all.
abbrev pub IsOnce : Table String (Unit {0}) → Type 0
IsOnce t = (id : String) → count_key id t ≡ one_if (is_some (lookup id t))

count_key-remove :
    (id r : String) (t : Table String (Unit {0}))
    → count_key id (remove r t) ≡ (if r == id then 0 else count_key id t)
unfolding remove
count_key-remove id r [] = ground arith
count_key-remove id r ((k, v) ∷ t) = ground (
  arith,
  string_eq.equals_iff k r,
  string_eq.equals_iff k id,
  string_eq.equals_iff r id,
  count_key-remove id r t,
)

count_key-insert :
    (id r : String) (t : Table String (Unit {0}))
    → count_key id (insert r tt t)
      ≡ (if is_some (lookup r t) then count_key id t else one_if (r == id) + count_key id t)
unfolding insert lookup
count_key-insert id r [] = ground arith
count_key-insert id r ((k, v) ∷ t) = ground (
  arith,
  string_eq.equals_iff k r,
  string_eq.equals_iff k id,
  string_eq.equals_iff r id,
  count_key-insert id r t,
)

IsOnce-remove : (r : String) (t : Table String (Unit {0})) → IsOnce t → IsOnce (remove r t)
IsOnce-remove r t o id =
    rw (count_key-remove id r t, lookup-remove r id t)
      (elim (Bool-cases (r == id)) [ inl b ↦ rw b refl | inr b ↦ rw b (o id) ])

IsOnce-insert : (r : String) (t : Table String (Unit {0})) → IsOnce t → IsOnce (insert r tt t)
IsOnce-insert r t o id =
    rw (count_key-insert id r t, lookup-insert r id tt t)
      (elim (Bool-cases (r == id)) [
        | inl b ↦
            let same = ap (λ k. is_some (lookup k t)) ((string_eq.equals_iff r id).0 b) in
            elim (Bool-cases (is_some (lookup r t))) [
              | inl q ↦ rw (b, q) (o id ∙ ap one_if (sym same ∙ q))
              | inr q ↦ rw (b, q) (omega (arith, o id, ap one_if (sym same ∙ q)))
            ]
        | inr b ↦ elim (Bool-cases (is_some (lookup r t))) [
          | inl q ↦ rw (b, q) (o id)
          | inr q ↦ rw (b, q) (omega (arith, o id))
        ]
      ])

abbrev OnceAt : CommandGateway → Type 0
OnceAt g = IsOnce g.inflight

finalize_receipt-OnceAt :
    (r : String) (state : ReceiptState) (g : CommandGateway)
    → OnceAt g
    → OnceAt (finalize_receipt r state g)
unfolding finalize_receipt report
finalize_receipt-OnceAt r state g o = IsOnce-remove r g.inflight o

forward-OnceAt :
    (r : String) (next : Option ReceiptState) (g : CommandGateway)
    → OnceAt g
    → OnceAt (forward r next g)
unfolding forward finalize_receipt report
forward-OnceAt r next g o =
    if_cases OnceAt (is_forwarded r g) (forward_next r next g) g (λ f. go next) (λ f. o)
  where
    go : (next : Option ReceiptState) → OnceAt (forward_next r next g)
    go none = IsOnce-remove r g.inflight o
    go (some state) =
        if_cases OnceAt (is_terminal state)
          (record (finalize_receipt r state g) { forwarding = remove r g.forwarding })
          (report r state g) (λ t. IsOnce-remove r g.inflight o) (λ t. o)

execute-OnceAt :
    (digest : String) (exec : Outcome (Unit {0})) (req : CommandRequest) (g : CommandGateway)
    → OnceAt g
    → OnceAt (execute digest exec req g)
unfolding finalize_receipt report
execute-OnceAt digest (done stream) req g o = o
execute-OnceAt digest (failed_with code) req g o = IsOnce-remove req.request_id g.inflight o

checked-OnceAt :
    (digest : String) (replies : Replies) (req : CommandRequest) (g : CommandGateway)
    → OnceAt g
    → OnceAt (checked digest replies req g)
unfolding finalize_receipt report
checked-OnceAt digest replies req g o = go (validate req replies.snap)
  where
    out : OnceAt (record g { inflight = remove req.request_id g.inflight })
    out = IsOnce-remove req.request_id g.inflight o

    dispatched :
        (p : CommandPayload) (v : Option RuntimeSnapshot)
        → OnceAt (dispatch digest replies (record req { payload = p }) v g)
    dispatched (queue_next_turn_payload input again) none = o
    dispatched (queue_next_turn_payload input again) (some snapshot) = out
    dispatched cancel_queue_payload v = out
    dispatched pause_queue_payload v = out
    dispatched p v = execute-OnceAt digest replies.exec (record req { payload = p }) g o

    go : (v : Outcome (Option RuntimeSnapshot)) → OnceAt (on_checks digest replies req g v)
    go (failed_with code) = out
    go (done validated) = dispatched req.payload validated

-- The terminal receipts that the shutdown sends.
finalize_all-terminals :
    (t : Table String (Unit {0})) (id : String) (g : CommandGateway)
    → terminals id (finalize_all (map (λ p. p.0) t) g).delivered
      ≡ count_key id t + terminals id g.delivered
unfolding report
finalize_all-terminals [] id g = omega arith
finalize_all-terminals ((r, v) ∷ t) id g =
    let later = finalize_all-terminals t id (report r receipt_outcome_unknown g) in
    let one : terminal_at id (r, receipt_outcome_unknown) ≡ one_if (r == id) = ground arith in
    omega (arith, later, one)

finalize_all-rest :
    (ids : List String) (g : CommandGateway)
    → ((finalize_all ids g).closed ≡ g.closed) × ((finalize_all ids g).inflight ≡ g.inflight)
unfolding report
finalize_all-rest [] g = (refl, refl)
finalize_all-rest (r ∷ ids) g = finalize_all-rest ids (report r receipt_outcome_unknown g)

module _ (canonical_payload_digest : CommandPayload → String) where
  submit-OnceAt :
      (replies : Replies) (req : CommandRequest) (g : CommandGateway)
      → OnceAt g
      → OnceAt (submit canonical_payload_digest replies req g).1
  submit-OnceAt replies req g o = elim (submit-Answered canonical_payload_digest replies req g) [
    | refuses r u ↦ rw u.same_inflight o
    | accepts open_g passes fresh grows q ↦ rw q (
        checked-OnceAt (canonical_payload_digest req.payload) replies req
          (recorded (canonical_payload_digest req.payload) req g)
          (IsOnce-insert req.request_id g.inflight o))
  ]

  perform_all-OnceAt :
      (calls : List Call) (g : CommandGateway)
      → OnceAt g
      → OnceAt (perform_all canonical_payload_digest calls g)
  unfolding perform_all perform
  perform_all-OnceAt [] g o = o
  perform_all-OnceAt (submitting replies req ∷ calls) g o =
      perform_all-OnceAt calls (submit canonical_payload_digest replies req g).1
        (submit-OnceAt replies req g o)
  perform_all-OnceAt (forwarding_next r next ∷ calls) g o =
      perform_all-OnceAt calls (forward r next g) (forward-OnceAt r next g o)

  closed_refuses :
      (replies : Replies) (req : CommandRequest) (g : CommandGateway)
      → g.closed ≡ true
      → submit canonical_payload_digest replies req g ≡ (failed_with device_offline, g)
  unfolding submit
  closed_refuses replies req g h =
      if_cases (λ r. r ≡ (failed_with device_offline, g)) g.closed (failed_with device_offline, g)
        (on_gate (canonical_payload_digest req.payload) replies req g (gate replies.caps req))
        (λ b. refl) (λ b. cc)

  -- A shutdown after any history answers the commands that are left: the terminal receipts of a
  -- request are then those it had or waited for at the start and one for each acceptance, nothing is
  -- in flight, and a further submission is turned away.
  pub graceful_shutdown_settles :
      (calls : List Call) (g : CommandGateway) (id : String) (replies : Replies)
      (req : CommandRequest)
      → IsWellFormed g
      → IsOnce g.inflight
      → let g' = (graceful_shutdown (perform_all canonical_payload_digest calls g)).1 in
        (terminals id g'.delivered ≡ balance id g + accepted_in canonical_payload_digest id calls g)
        × (g'.inflight ≡ [])
        × (submit canonical_payload_digest replies req g' ≡ (failed_with device_offline, g'))
  unfolding graceful_shutdown
  graceful_shutdown_settles calls g id replies req w o =
      let h : CommandGateway = perform_all canonical_payload_digest calls g in
      let emptied : CommandGateway = record h { closed = true; inflight = [] } in
      let rest = finalize_all-rest (map (λ p. p.0) h.inflight) emptied in
      let sent = finalize_all-terminals h.inflight id emptied in
      let once = perform_all-OnceAt calls g o id in
      let even = perform_all-balance canonical_payload_digest calls g id w in
      (
        omega (arith, sent, once, even),
        rest.1,
        closed_refuses replies req (finalize_all (map (λ p. p.0) h.inflight) emptied) rest.0,
      )
