-- ===== src/Bridge/Gateway/Accepting.antt =====
-- What `submit` of commands/gateway.rs does from the moment a request has its receipt.
use agent_console.Base.{
  Bool-cases, Option, String, arith, false, inl, inr, is_some, none, refl, some, string_eq, true,
  ◌==◌, ◌≡◌, ◌∷◌, ◌∙◌, sym,
}
use agent_console.Bridge.Queue.State.{
  Outcome, ReceiptState, RuntimeSnapshot, StableErrorCode, World, done, failed_with, rejected,
  stale_turn,
}
use agent_console.Bridge.Queue.Manager.{cancel, pause, set}
use agent_console.Bridge.Gateway.State.{
  CommandGateway, CommandPayload, CommandRequest, Replies, cancel_queue_payload,
  pause_queue_payload, queue_next_turn_payload,
}
use agent_console.Bridge.Gateway.Submit.{
  on_checks, finalize_receipt, is_terminal, checked, dispatch, dispatch_error, execute,
  finalize_local, local_state, validate, is_queue_next_turn, needs_snapshot, is_stale,
}
use agent_console.Bridge.Gateway.Receipts.{is_known, cancel-Keeps, pause-Keeps, set-Keeps}
use agent_console.Bridge.Gateway.Balance.{
  Balanced, IsWellFormed, at_key, finalize_receipt-IsWellFormed, finalize_receipt-balance,
  finalize_receipt-known, is_some-insert, in_flight, is_forwarded,
}

dispatch_error-terminal : (code : StableErrorCode) → is_terminal (dispatch_error code) ≡ true
dispatch_error-terminal code = ground arith

local_state-terminal : {A : Type 0} (r : Outcome A) → is_terminal (local_state r) ≡ true
local_state-terminal (done a) = refl
local_state-terminal (failed_with code) = refl

module _ (r : String) (g : CommandGateway) (w : IsWellFormed g) (here : in_flight r g ≡ true)
    (alone : is_forwarded r g ≡ false) where
  finalize_receipt-Balanced :
      (state : ReceiptState) → is_terminal state ≡ true → Balanced g (finalize_receipt r state g)
  finalize_receipt-Balanced state t = record {
    even = λ id. finalize_receipt-balance id r state g t here;
    well = finalize_receipt-IsWellFormed r state g alone w;
    knows = λ id. finalize_receipt-known id r state g;
  }

  -- After a local operation on the store that keeps what is known.
  finalize_local-Balanced :
      {A : Type 0} (result : Outcome A × World)
      → ((id : String) → is_known id result.1.store ≡ is_known id g.world.store)
      → Balanced g (finalize_local r result g)
  finalize_local-Balanced (result, v) same =
      let g' : CommandGateway = record g { world = v } in
      let w' : IsWellFormed g' = record {
        forwarded_in_flight = w.forwarded_in_flight;
        in_flight_known = λ id h. same id ∙ w.in_flight_known id h;
      } in
      let t = local_state-terminal result in
      record {
        even = λ id. finalize_receipt-balance id r (local_state result) g' t here;
        well = finalize_receipt-IsWellFormed r (local_state result) g' alone w';
        knows = λ id. finalize_receipt-known id r (local_state result) g' ∙ same id;
      }

module _ (req : CommandRequest) (g : CommandGateway) (w : IsWellFormed g)
    (here : in_flight req.request_id g ≡ true) (alone : is_forwarded req.request_id g ≡ false) where
  execute-Balanced :
      (digest : String) (exec : Outcome (Unit {0})) → Balanced g (execute digest exec req g)
  execute-Balanced digest (failed_with code) =
      let g' : CommandGateway = record g {
        executed = record req { payload_digest = some digest } ∷ g.executed;
      } in
      let w' : IsWellFormed g' = record {
        forwarded_in_flight = w.forwarded_in_flight;
        in_flight_known = w.in_flight_known;
      } in
      let b =
        finalize_receipt-Balanced req.request_id g' w' here alone (dispatch_error code)
          (dispatch_error-terminal code) in
      record { even = b.even; well = b.well; knows = b.knows }
  execute-Balanced digest (done stream) = record {
    even = λ id. refl;
    well = record {
      forwarded_in_flight = λ id h. elim (Bool-cases (req.request_id == id)) [
        | inl b ↦ at_key (λ k. in_flight k g) req.request_id id b ∙ here
        | inr b ↦
            let before = sym (is_some-insert id req.request_id g.forwarding) ∙ h in
            w.forwarded_in_flight id (ground (arith, before, b))
      ];
      in_flight_known = w.in_flight_known;
    };
    knows = λ id. refl;
  }

-- A queued turn passes the checks only with its snapshot.
validate-queue :
    (req : CommandRequest) (snap : Outcome RuntimeSnapshot) (v : Option RuntimeSnapshot)
    → validate req snap ≡ done v
    → is_queue_next_turn req.payload ≡ true
    → is_some v ≡ true
validate-queue req (failed_with code) v h q =
    let needs : needs_snapshot req ≡ true = ground (arith, q) in
    let fails : validate req (failed_with code) ≡ failed_with code = rw needs refl in cc
validate-queue req (done snapshot) v h q =
    let needs : needs_snapshot req ≡ true = ground (arith, q) in
    elim (Bool-cases (is_stale req snapshot)) [
      | inl b ↦
          let fails : validate req (done snapshot) ≡ failed_with stale_turn = rw (needs, b) refl in
          cc
      | inr b ↦
          let passes : validate req (done snapshot) ≡ done (some snapshot) = rw (needs, b) refl in
          cc
    ]

module _ (req : CommandRequest) (g : CommandGateway) (w : IsWellFormed g)
    (here : in_flight req.request_id g ≡ true) (alone : is_forwarded req.request_id g ≡ false) where
  dispatch-Balanced :
      (digest : String) (replies : Replies) (validated : Option RuntimeSnapshot)
      → (is_queue_next_turn req.payload ≡ true → is_some validated ≡ true)
      → Balanced g (dispatch digest replies req validated g)
  dispatch-Balanced digest replies validated has = go req.payload refl validated has
    where
      go :
          (p : CommandPayload)
          → req.payload ≡ p
          → (v : Option RuntimeSnapshot) → (is_queue_next_turn p ≡ true → is_some v ≡ true)
          → Balanced g (dispatch digest replies (record req { payload = p }) v g)
      go (queue_next_turn_payload input again) q none has' = let absurd = has' refl in cc
      go (queue_next_turn_payload input again) q (some snapshot) has' =
          finalize_local-Balanced req.request_id g w here alone
            (set replies.subscribed req.session_key input again req.request_id snapshot g.world)
            (λ id.
              set-Keeps id replies.subscribed req.session_key input again req.request_id snapshot
                g.world)
      go cancel_queue_payload q v has' =
          finalize_local-Balanced req.request_id g w here alone (cancel req.session_key g.world)
            (λ id. cancel-Keeps id req.session_key g.world)
      go pause_queue_payload q v has' =
          finalize_local-Balanced req.request_id g w here alone (pause req.session_key g.world)
            (λ id. pause-Keeps id req.session_key g.world)
      go p q v has' =
          execute-Balanced (record req { payload = p }) g w here alone digest replies.exec

  pub checked-Balanced :
      (digest : String) (replies : Replies) → Balanced g (checked digest replies req g)
  checked-Balanced digest replies = go (validate req replies.snap) refl
    where
      go :
          (v : Outcome (Option RuntimeSnapshot))
          → validate req replies.snap ≡ v
          → Balanced g (on_checks digest replies req g v)
      go (failed_with code) q =
          finalize_receipt-Balanced req.request_id g w here alone (rejected code) refl
      go (done validated) q =
          dispatch-Balanced digest replies validated
            (λ h. validate-queue req replies.snap validated q h)
