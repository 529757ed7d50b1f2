-- ===== src/Relay/Transfers/Later.antt =====
-- What can happen to one transfer of transfers/mod.rs.
use agent_console.Base.{
  Bool, Bool-cases, ap, arith, false, if_cases, if◌then◌else◌, inl, inr, length, refl, true, ◌+◌,
  ◌≡◌, ◌≤◌, ◌∙◌, ◌⊎◌, string_eq,
}
use agent_console.Relay.Transfers.State.{Transfer, keep_ack, set_consumer, set_producer}
use agent_console.Relay.Transfers.Calls.{one_if}

-- A terminal transfer stays as it is, but for the result that may still be taken.
pub record Settled (t t' : Transfer) : Type 0 where
  pub still_terminal : t'.terminal ≡ true
  pub same_code : t'.terminal_code ≡ t.terminal_code
  pub same_handoffs : t'.handoffs ≡ t.handoffs
  pub same_pipes : t'.pipes ≡ t.pipes

pub record Later (t t' : Transfer) : Type 0 where
  pub same_info : t'.info ≡ t.info
  pub settles : (t.terminal ≡ false) ⊎ Settled t t'
  pub leaves : (t'.registered ≡ false) ⊎ (t.registered ≡ true)
  pub handoffs_left : t'.handoffs + one_if t'.producer_tx ≤ t.handoffs + one_if t.producer_tx
  pub pipes_left : t'.pipes + one_if t'.consumer_tx ≤ t.pipes + one_if t.consumer_tx
  pub results_left : length t'.results + one_if t'.result_tx ≤ length t.results + one_if t.result_tx

Settled-refl : (t : Transfer) → t.terminal ≡ true → Settled t t
Settled-refl t h = record {
  still_terminal = h;
  same_code = refl;
  same_handoffs = refl;
  same_pipes = refl;
}

pub either_end : (t : Transfer) → (t.terminal ≡ false) ⊎ Settled t t
either_end t = elim (Bool-cases t.terminal) [ inl b ↦ inr (Settled-refl t b) | inr b ↦ inl b ]

pub either_place : (t : Transfer) → (t.registered ≡ false) ⊎ (t.registered ≡ true)
either_place t = elim (Bool-cases t.registered) [ inl b ↦ inr b | inr b ↦ inl b ]

pub Later-refl : (t : Transfer) → Later t t
Later-refl t = record {
  same_info = refl;
  settles = either_end t;
  leaves = either_place t;
  handoffs_left = omega arith;
  pipes_left = omega arith;
  results_left = omega arith;
}

pub Later-trans : (a b c : Transfer) → Later a b → Later b c → Later a c
Later-trans a b c p q = record {
  same_info = q.same_info ∙ p.same_info;
  settles = elim p.settles [
    | inl open_a ↦ inl open_a
    | inr s ↦ elim q.settles [
      | inl open_b ↦ let clash = s.still_terminal in cc
      | inr s' ↦ inr (record {
        still_terminal = s'.still_terminal;
        same_code = s'.same_code ∙ s.same_code;
        same_handoffs = s'.same_handoffs ∙ s.same_handoffs;
        same_pipes = s'.same_pipes ∙ s.same_pipes;
      })
    ]
  ];
  leaves = elim q.leaves [
    | inl out ↦ inl out
    | inr held ↦ elim p.leaves [ inl out ↦ cc | inr held' ↦ inr held' ]
  ];
  handoffs_left = omega (arith, p.handoffs_left, q.handoffs_left);
  pipes_left = omega (arith, p.pipes_left, q.pipes_left);
  results_left = omega (arith, p.results_left, q.results_left);
}

pub set_producer-Later : (t : Transfer) → Later t (set_producer t).1
unfolding set_producer
set_producer-Later t =
    if_cases (λ (r : Bool × Transfer). Later t r.1) t.terminal (false, t)
      (if t.producer_tx
        then (true, record t { producer_tx = false; handoffs = t.handoffs + 1 })
        else (false, t))
      (λ b. Later-refl t)
      (λ open_t.
        if_cases (λ (r : Bool × Transfer). Later t r.1) t.producer_tx
          (true, record t { producer_tx = false; handoffs = t.handoffs + 1 }) (false, t)
          (λ b. record {
            same_info = refl;
            settles = inl open_t;
            leaves = either_place t;
            handoffs_left = omega (arith, ap one_if b);
            pipes_left = omega arith;
            results_left = omega arith;
          })
          (λ b. Later-refl t))

pub set_consumer-Later : (t : Transfer) → Later t (set_consumer t).1
unfolding set_consumer
set_consumer-Later t =
    if_cases (λ (r : Bool × Transfer). Later t r.1) t.terminal (false, t)
      (if t.consumer_tx
        then (true, record t { consumer_tx = false; pipes = t.pipes + 1 })
        else (false, t))
      (λ b. Later-refl t)
      (λ open_t.
        if_cases (λ (r : Bool × Transfer). Later t r.1) t.consumer_tx
          (true, record t { consumer_tx = false; pipes = t.pipes + 1 }) (false, t)
          (λ b. record {
            same_info = refl;
            settles = inl open_t;
            leaves = either_place t;
            handoffs_left = omega arith;
            pipes_left = omega (arith, ap one_if b);
            results_left = omega arith;
          })
          (λ b. Later-refl t))

pub keep_ack-Later : (t : Transfer) → Later t (keep_ack t)
keep_ack-Later t = record {
  same_info = refl;
  settles = elim (either_end t) [
    | inl o ↦ inl o
    | inr s ↦ inr (record {
      still_terminal = s.still_terminal;
      same_code = refl;
      same_handoffs = refl;
      same_pipes = refl;
    })
  ];
  leaves = either_place t;
  handoffs_left = omega arith;
  pipes_left = omega arith;
  results_left = omega arith;
}
