-- ===== src/Bridge/Gateway/Freshness.antt =====
-- What reaches the executor in `submit` of commands/gateway.rs.
use agent_console.Base.{
  Bool, Bool-cases, List, Option, String, ap, arith, false, inl, inr, none, nat_eq, option_beq,
  refl, some, true, ℕ, ◌&&◌, ◌==◌, ◌≡◌, ◌∷◌, ◌∙◌, not, ◌||◌, ◌⊎◌,
}
use agent_console.Bridge.Queue.State.{
  Outcome, RuntimeSnapshot, TurnId, done, failed_with, stale_turn,
}
use agent_console.Bridge.Gateway.State.{
  CommandGateway, CommandPayload, CommandRequest, Replies, interrupt_payload, turn_beq_iff, turn_eq,
  cancel_queue_payload, pause_queue_payload, queue_next_turn_payload,
}
use agent_console.Bridge.Gateway.Submit.{
  on_checks, both_equal, checked, dispatch, execute, finalize_receipt, gate, is_interrupt, is_stale,
  needs_snapshot, permits_revision_drift, report, revision_moved, submit, turn_moved, validate,
}
use agent_console.Bridge.Gateway.Answers.{accepts, recorded, refuses, submit-Answered}

-- The turn that a request names, if any, is the current one, and so is the revision, but for an
-- interrupt of the current turn.
pub record IsCurrent (req : CommandRequest) (s : RuntimeSnapshot) : Type 0 where
  pub turn : (req.expected_turn_id ≡ none) ⊎ (s.current_turn ≡ req.expected_turn_id)
  pub revision :
      (req.expected_runtime_revision ≡ none)
      ⊎ ((req.expected_runtime_revision ≡ some s.runtime_revision)
          ⊎ ((req.payload ≡ interrupt_payload)
              × (t : TurnId) × (req.expected_turn_id ≡ some t)
              × (s.current_turn ≡ some t)))

option_beq-some : (o : Option TurnId) (t : TurnId) → option_beq o (some t) ≡ true → o ≡ some t
option_beq-some none t h = cc
option_beq-some (some u) t h = ap some ((turn_beq_iff u t).0 h)

both_equal-some :
    (a b : Option TurnId) → both_equal a b ≡ true → (t : TurnId) × (a ≡ some t) × (b ≡ some t)
both_equal-some none b h = cc
both_equal-some (some a) none h = cc
both_equal-some (some a) (some b) h = (b, ap some ((turn_beq_iff a b).0 h), refl)

is_interrupt-payload : (p : CommandPayload) → is_interrupt p ≡ true → p ≡ interrupt_payload
is_interrupt-payload p h = ground arith

neither : (a b : Bool) → (a || b) ≡ false → (a ≡ false) × (b ≡ false)
neither a b h = ground arith

both : (a b : Bool) → (a && b) ≡ true → (a ≡ true) × (b ≡ true)
both a b h = ground arith

unless : (a b : Bool) → (a && not b) ≡ false → a ≡ true → b ≡ true
unless a b h k = ground arith

not-false : (a : Bool) → not a ≡ false → a ≡ true
not-false a h = ground arith

turn_moved-current :
    (o : Option TurnId) (s : RuntimeSnapshot)
    → turn_moved o s ≡ false
    → (o ≡ none) ⊎ (s.current_turn ≡ o)
turn_moved-current none s h = inl refl
turn_moved-current (some t) s h =
    inr (option_beq-some s.current_turn t (not-false (option_beq s.current_turn (some t)) h))

is_stale-revision :
    (req : CommandRequest) (o : Option ℕ) (s : RuntimeSnapshot)
    → (revision_moved o s && not (permits_revision_drift req s.current_turn)) ≡ false
    → (o ≡ none)
      ⊎ ((o ≡ some s.runtime_revision)
          ⊎ ((req.payload ≡ interrupt_payload)
              × (t : TurnId) × (req.expected_turn_id ≡ some t)
              × (s.current_turn ≡ some t)))
is_stale-revision req none s h = inl refl
is_stale-revision req (some r) s h = elim (Bool-cases (r == s.runtime_revision)) [
  | inl b ↦ inr (inl (ap some ((nat_eq.equals_iff r s.runtime_revision).0 b)))
  | inr b ↦
      let drifts =
        unless (revision_moved (some r) s) (permits_revision_drift req s.current_turn) h
          (ap not b) in
      let (interrupts, same) =
        both (is_interrupt req.payload) (both_equal req.expected_turn_id s.current_turn) drifts in
      let (t, expects, has) = both_equal-some req.expected_turn_id s.current_turn same in
      inr (inr (is_interrupt-payload req.payload interrupts, t, expects, has))
]

is_stale-IsCurrent :
    (req : CommandRequest) (s : RuntimeSnapshot) → is_stale req s ≡ false → IsCurrent req s
is_stale-IsCurrent req s h =
    let (revision, turn) =
      neither
        (revision_moved req.expected_runtime_revision s
          && not (permits_revision_drift req s.current_turn))
        (turn_moved req.expected_turn_id s) h in
    record {
      turn = turn_moved-current req.expected_turn_id s turn;
      revision = is_stale-revision req req.expected_runtime_revision s revision;
    }

-- The request that the executor gets, with its digest.
abbrev pub digested : String → CommandRequest → CommandRequest
digested digest req = record req { payload_digest = some digest }

-- No snapshot is needed, or there is one and the request is current in it.
abbrev pub IsChecked : Replies → CommandRequest → Type 0
IsChecked replies req =
    (needs_snapshot req ≡ false)
    ⊎ ((s : RuntimeSnapshot) × (replies.snap ≡ done s) × IsCurrent req s)

abbrev pub Executes : List CommandRequest → CommandRequest → List CommandRequest → Type 0
Executes before req after = (after ≡ before) ⊎ (after ≡ req ∷ before)

validate-IsChecked :
    (replies : Replies) (req : CommandRequest) (v : Option RuntimeSnapshot)
    → validate req replies.snap ≡ done v
    → IsChecked replies req
validate-IsChecked replies req v h = elim (Bool-cases (needs_snapshot req)) [
  | inl needs ↦ inr (go needs replies.snap h)
  | inr free ↦ inl free
]
  where
    go :
        needs_snapshot req ≡ true
        → (snap : Outcome RuntimeSnapshot) → validate req snap ≡ done v
        → (s : RuntimeSnapshot) × (snap ≡ done s) × IsCurrent req s
    go needs (failed_with code) k =
        let fails : validate req (failed_with code) ≡ failed_with code = rw needs refl in cc
    go needs (done s) k = elim (Bool-cases (is_stale req s)) [
      | inl b ↦
          let fails : validate req (done s) ≡ failed_with stale_turn = rw (needs, b) refl in cc
      | inr b ↦ (s, refl, is_stale-IsCurrent req s b)
    ]

module _ (digest : String) (replies : Replies) (req : CommandRequest) (g : CommandGateway) where
  dispatch-Executes :
      (v : Option RuntimeSnapshot)
      → Executes g.executed (digested digest req) (dispatch digest replies req v g).executed
  unfolding finalize_receipt report
  dispatch-Executes = go req.payload
    where
      execute-Executes :
          (p : CommandPayload) (exec : Outcome (Unit {0}))
          → Executes g.executed
              (digested digest (record req { payload = p }))
              (execute digest exec (record req { payload = p }) g).executed
      execute-Executes p (done stream) = inr refl
      execute-Executes p (failed_with code) = inr refl

      go :
          (p : CommandPayload) (v : Option RuntimeSnapshot)
          → Executes g.executed
              (digested digest (record req { payload = p }))
              (dispatch digest replies (record req { payload = p }) v g).executed
      go (queue_next_turn_payload input again) none = inl refl
      go (queue_next_turn_payload input again) (some s) = inl refl
      go cancel_queue_payload v = inl refl
      go pause_queue_payload v = inl refl
      go p v = execute-Executes p replies.exec

  checked-Executes :
      ((checked digest replies req g).executed ≡ g.executed)
      ⊎ (((checked digest replies req g).executed ≡ digested digest req ∷ g.executed)
          × IsChecked replies req)
  unfolding finalize_receipt report
  checked-Executes = go (validate req replies.snap) refl
    where
      go :
          (v : Outcome (Option RuntimeSnapshot))
          → validate req replies.snap ≡ v
          → let after = (on_checks digest replies req g v).executed in
            (after ≡ g.executed)
            ⊎ ((after ≡ digested digest req ∷ g.executed) × IsChecked replies req)
      go (failed_with code) q = inl refl
      go (done validated) q = elim (dispatch-Executes validated) [
        | inl e ↦ inl e
        | inr e ↦ inr (e, validate-IsChecked replies req validated q)
      ]

-- A submission asks the executor for its own request or for nothing, and asks only if the gateway is
-- open, the gate lets the request pass, and the turn and the revision that it expects are current,
-- the revision but for an interrupt of the current turn.
pub submit-Executes :
    (canonical_payload_digest : CommandPayload → String) (replies : Replies) (req : CommandRequest)
    (g : CommandGateway)
    → let after = (submit canonical_payload_digest replies req g).1.executed in
      (after ≡ g.executed)
      ⊎ ((after ≡ digested (canonical_payload_digest req.payload) req ∷ g.executed)
          × (g.closed ≡ false)
          × (gate replies.caps req ≡ none)
          × IsChecked replies req)
submit-Executes canonical_payload_digest replies req g =
    elim (submit-Answered canonical_payload_digest replies req g) [
      | refuses r u ↦ inl u.same_executed
      | accepts open_g passes fresh grows q ↦
          let digest = canonical_payload_digest req.payload in
          let same = ap (λ x. x.1.executed) q in
          elim (checked-Executes digest replies req (recorded digest req g)) [
            | inl e ↦ inl (same ∙ e)
            | inr e ↦ inr (same ∙ e.0, open_g, passes, e.1)
          ]
    ]
