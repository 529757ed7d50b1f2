-- ===== src/Relay/Transfers/Touches.antt =====
-- The operations on one transfer of transfers/mod.rs, one by one.
use agent_console.Base.{
  Bool, ap, arith, false, if_cases, inl, inr, not, refl, some, true, ℕ, ◌&&◌, ◌==◌, ◌≡◌, ◌∷◌,
  string_eq,
}
use agent_console.Relay.Transfers.State.{
  Transfer, TransferResult, cancel, cancelled_result, complete, expired, notify_cancelled,
  send_result,
}
use agent_console.Relay.Transfers.Calls.{
  Touch, acknowledging, bridge_ready, bridge_result, cancelling, notifying, completing, one_if,
  removing, set_consuming, set_producing, sweep_one, touch, unregister,
}
use agent_console.Relay.Transfers.Later.{
  Later, Later-refl, Later-trans, either_end, either_place, keep_ack-Later, set_consumer-Later,
  set_producer-Later,
}

send_result-Later : (result : TransferResult) (t : Transfer) → Later t (send_result result t)
send_result-Later result t =
    if_cases (Later t) t.result_tx (record t { result_tx = false; results = result ∷ t.results }) t
      (λ b. record {
        same_info = refl;
        settles = elim (either_end t) [
          | inl o ↦ inl o
          | inr s ↦ inr (record {
            still_terminal = s.still_terminal;
            same_code = refl;
            same_handoffs = refl;
            same_pipes = refl;
          })
        ];
        leaves = either_place t;
        handoffs_left = omega arith;
        pipes_left = omega arith;
        results_left = omega (arith, ap one_if b);
      })
      (λ b. Later-refl t)

complete-Later : (t : Transfer) → Later t (complete t)
unfolding complete
complete-Later t = record {
  same_info = refl;
  settles =
      inr (record {
        still_terminal = refl;
        same_code = refl;
        same_handoffs = refl;
        same_pipes = refl;
      });
  leaves = either_place t;
  handoffs_left = omega arith;
  pipes_left = omega arith;
  results_left = omega arith;
}

abbrev ended : ℕ → Transfer → Transfer
ended code t = record t {
  terminal = true;
  terminal_code = some code;
  producer_ack = false;
  cancelled = true;
}

ended-Later : (code : ℕ) (t : Transfer) → t.terminal ≡ false → Later t (ended code t)
ended-Later code t open_t = record {
  same_info = refl;
  settles = inl open_t;
  leaves = either_place t;
  handoffs_left = omega arith;
  pipes_left = omega arith;
  results_left = omega arith;
}

cancel-Later : (code : ℕ) (t : Transfer) → Later t (cancel code t)
unfolding cancel
cancel-Later code t =
    if_cases (Later t) t.terminal t (send_result (cancelled_result code t) (ended code t))
      (λ b. Later-refl t)
      (λ b.
        Later-trans t (ended code t) (send_result (cancelled_result code t) (ended code t))
          (ended-Later code t b) (send_result-Later (cancelled_result code t) (ended code t)))

unregister-Later : (t : Transfer) → Later t (unregister t)
unregister-Later t = record {
  same_info = refl;
  settles = elim (either_end t) [
    | inl o ↦ inl o
    | inr s ↦ inr (record {
      still_terminal = s.still_terminal;
      same_code = refl;
      same_handoffs = refl;
      same_pipes = refl;
    })
  ];
  leaves = inl refl;
  handoffs_left = omega arith;
  pipes_left = omega arith;
  results_left = omega arith;
}

notify_cancelled-Later :
    (hub : Bool) (code : ℕ) (t : Transfer) → Later t (notify_cancelled hub code t)
notify_cancelled-Later hub code t =
    if_cases (Later t) hub (record t { notices = cancelled_result code t ∷ t.notices }) t
      (λ b. record {
        same_info = refl;
        settles = elim (either_end t) [
          | inl o ↦ inl o
          | inr s ↦ inr (record {
            still_terminal = s.still_terminal;
            same_code = refl;
            same_handoffs = refl;
            same_pipes = refl;
          })
        ];
        leaves = either_place t;
        handoffs_left = omega arith;
        pipes_left = omega arith;
        results_left = omega arith;
      })
      (λ b. Later-refl t)

pub sweep_one-Later : (now : ℕ) (t : Transfer) → Later t (sweep_one now t)
sweep_one-Later now t =
    if_cases (Later t) (expired now t) (unregister t) t (λ b. unregister-Later t)
      (λ b. Later-refl t)

pub touch-Later : (hub : Bool) (what : Touch) (t : Transfer) → Later t (touch hub what t)
unfolding touch
touch-Later hub (cancelling code) t = cancel-Later code t
touch-Later hub (notifying code) t = notify_cancelled-Later hub code t
touch-Later hub removing t = unregister-Later t
touch-Later hub set_producing t = set_producer-Later t
touch-Later hub acknowledging t = keep_ack-Later t
touch-Later hub set_consuming t = set_consumer-Later t
touch-Later hub completing t = complete-Later t
touch-Later hub (bridge_ready device ready code) t =
    if_cases (Later t) (t.info.device == device && not ready) (cancel code t) t
      (λ b. cancel-Later code t) (λ b. Later-refl t)
touch-Later hub (bridge_result device result) t =
    if_cases (Later t) (t.info.device == device) (send_result result t) t
      (λ b. send_result-Later result t) (λ b. Later-refl t)
