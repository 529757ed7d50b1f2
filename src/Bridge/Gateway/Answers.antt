-- ===== src/Bridge/Gateway/Answers.antt =====
-- The answers of `submit` in commands/gateway.rs.
use agent_console.Base.{
  Bool, Option, String, ap, false, if_cases, insert, none, refl, some, string_eq, true, ◌==◌, ◌≡◌,
  ◌∙◌, sym, ◌||◌,
}
use agent_console.Bridge.Store.{
  ReceiptUpsertOutcome, RequestReceipt, Stored, err, existing, get_receipt, inserted, ok,
  record_receipt,
}
use agent_console.Bridge.Queue.State.{
  Outcome, StableErrorCode, World, device_offline, done, failed_with, query,
}
use agent_console.Bridge.Queue.Failure.{query-same}
use agent_console.Bridge.Gateway.State.{
  CommandGateway, CommandPayload, CommandRequest, Replies, Submission, accepted,
}
use agent_console.Bridge.Gateway.Submit.{checked, gate, on_gate, on_receipt, receipt_row, submit}
use agent_console.Bridge.Gateway.Receipts.{is_known}
use agent_console.Bridge.Gateway.Recording.{
  is_inserted, query-record_receipt-inserted, query-record_receipt-refused,
}

abbrev pub is_accepted : Outcome Submission → Bool
is_accepted (done accepted) = true
is_accepted _ = false

-- Only the faults that the store met can differ.
pub record Unmoved (g g' : CommandGateway) : Type 0 where
  pub same_store : g'.world.store ≡ g.world.store
  pub same_inflight : g'.inflight ≡ g.inflight
  pub same_forwarding : g'.forwarding ≡ g.forwarding
  pub same_delivered : g'.delivered ≡ g.delivered
  pub same_executed : g'.executed ≡ g.executed
  pub same_closed : g'.closed ≡ g.closed

-- The gateway when a request was just recorded.
abbrev pub recorded : String → CommandRequest → CommandGateway → CommandGateway
recorded digest req g = record g {
  world = (query (record_receipt (receipt_row g.world.now digest req)) g.world).1;
  inflight = insert req.request_id tt g.inflight;
}

pub data Answered (digest : String) (replies : Replies) (req : CommandRequest) (g : CommandGateway)
    (r : Outcome Submission × CommandGateway) : Type 0 where
  refuses : is_accepted r.0 ≡ false → Unmoved g r.1 → Answered digest replies req g r
  accepts :
      g.closed ≡ false
      → gate replies.caps req ≡ none
      → is_known req.request_id g.world.store ≡ false
      → ((id : String)
          → is_known id (recorded digest req g).world.store
            ≡ (req.request_id == id || is_known id g.world.store))
      → r ≡ (done accepted, checked digest replies req (recorded digest req g))
      → Answered digest replies req g r

Unmoved-refl : (g : CommandGateway) → Unmoved g g
Unmoved-refl g = record {
  same_store = refl;
  same_inflight = refl;
  same_forwarding = refl;
  same_delivered = refl;
  same_executed = refl;
  same_closed = refl;
}

Unmoved-world :
    (g : CommandGateway) (w : World) → w.store ≡ g.world.store → Unmoved g (record g { world = w })
Unmoved-world g w same = record {
  same_store = same;
  same_inflight = refl;
  same_forwarding = refl;
  same_delivered = refl;
  same_executed = refl;
  same_closed = refl;
}

module _ (canonical_payload_digest : CommandPayload → String) (replies : Replies)
    (req : CommandRequest) (g : CommandGateway) where
  on_receipt-Answered :
      g.closed ≡ false
      → gate replies.caps req ≡ none
      → Answered
          (canonical_payload_digest req.payload)
          replies
          req
          g
          (on_gate (canonical_payload_digest req.payload) replies req g none)
  on_receipt-Answered open_g passes = go (query (record_receipt row) g.world) refl
    where
      digest : String
      digest = canonical_payload_digest req.payload

      row : RequestReceipt
      row = receipt_row g.world.now digest req

      go :
          (r : Stored ReceiptUpsertOutcome × World)
          → query (record_receipt row) g.world ≡ r
          → Answered digest replies req g (on_receipt digest replies req g r)
      go (ok inserted, w) q =
          let fresh = query-record_receipt-inserted row g.world (ap (λ x. is_inserted x.0) q) in
          accepts open_g passes fresh.0 fresh.1 (
            ap
              (λ x. (
                done accepted,
                checked digest replies req
                    (record g { world = x.1; inflight = insert req.request_id tt g.inflight }),
              ))
              (sym q))
      go (ok existing, w) q =
          let kept = query-record_receipt-refused row g.world (ap (λ x. is_inserted x.0) q) in
          refuses refl (
            Unmoved-world g (query (get_receipt req.request_id) w).1 (
              query-same (get_receipt req.request_id) w (λ s. unfold get_receipt in refl)
              ∙ ap (λ x. x.1.store) (sym q)
              ∙ kept))
      go (err e, w) q =
          let kept = query-record_receipt-refused row g.world (ap (λ x. is_inserted x.0) q) in
          refuses refl (Unmoved-world g w (ap (λ x. x.1.store) (sym q) ∙ kept))

  pub submit-Answered :
      Answered
        (canonical_payload_digest req.payload)
        replies
        req
        g
        (submit canonical_payload_digest replies req g)
  unfolding submit
  submit-Answered =
      if_cases (Answered digest replies req g) g.closed (failed_with device_offline, g)
        (on_gate digest replies req g (gate replies.caps req)) (λ b. refuses refl (Unmoved-refl g))
        (λ b. go (gate replies.caps req) refl b)
    where
      digest : String
      digest = canonical_payload_digest req.payload

      go :
          (o : Option StableErrorCode)
          → gate replies.caps req ≡ o
          → g.closed ≡ false
          → Answered digest replies req g (on_gate digest replies req g o)
      go (some code) q b = refuses refl (Unmoved-refl g)
      go none q b = on_receipt-Answered b q

  -- A request that is not accepted, for a refusal or a replay, leaves the store, the commands in
  -- flight, the callers and the executor as they were.
  pub submit-refused :
      is_accepted (submit canonical_payload_digest replies req g).0 ≡ false
      → Unmoved g (submit canonical_payload_digest replies req g).1
  submit-refused h = elim submit-Answered [
    | refuses r u ↦ u
    | accepts c k n s q ↦
        let clash : is_accepted (submit canonical_payload_digest replies req g).0 ≡ true =
          ap (λ x. is_accepted x.0) q in
        cc
  ]
