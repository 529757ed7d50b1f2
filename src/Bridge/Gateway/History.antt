-- ===== src/Bridge/Gateway/History.antt =====
-- Histories of the gateway of commands/gateway.rs: submissions, and receipts of the tasks that
-- forward them, in any order.
use agent_console.Base.{
  Bool, Bool-cases, List, Option, String, [], ap, arith, false, inl, inr, is_some, lookup, refl,
  string_eq, true, ℕ, ◌&&◌, ◌==◌, ◌≡◌, ◌∷◌, ◌∙◌, sym, ◌||◌, ◌+◌, ◌≤◌, ==_refl,
}
use agent_console.Bridge.Queue.State.{ReceiptState}
use agent_console.Bridge.Gateway.State.{CommandGateway, CommandPayload, CommandRequest, Replies}
use agent_console.Bridge.Gateway.Submit.{checked, submit}
use agent_console.Bridge.Gateway.Forwarding.{forward}
use agent_console.Bridge.Gateway.Receipts.{is_known}
use agent_console.Bridge.Gateway.Balance.{
  IsWellFormed, balance, is_forwarded, in_flight, Balanced, forward-Balanced, one_if, at_key,
  is_some-insert,
}
use agent_console.Bridge.Gateway.Accepting.{checked-Balanced}
use agent_console.Bridge.Gateway.Answers.{
  Unmoved, accepts, is_accepted, recorded, refuses, submit-Answered,
}

pub data Call : Type 0 where
  submitting : Replies → CommandRequest → Call
  forwarding_next : String → Option ReceiptState → Call

module _ (canonical_payload_digest : CommandPayload → String) where
  unfoldable pub perform : Call → CommandGateway → CommandGateway
  unfolding submit forward
  perform (submitting replies req) g = (submit canonical_payload_digest replies req g).1
  perform (forwarding_next request_id next) g = forward request_id next g

  unfoldable pub perform_all : List Call → CommandGateway → CommandGateway
  unfolding perform
  perform_all [] g = g
  perform_all (call ∷ calls) g = perform_all calls (perform call g)

  -- Whether a call is a submission of the request that is accepted.
  abbrev pub takes : String → Call → CommandGateway → Bool
  takes id (submitting replies req) g =
      is_accepted (submit canonical_payload_digest replies req g).0 && req.request_id == id
  takes id (forwarding_next request_id next) g = false

  unfoldable pub accepted_in : String → List Call → CommandGateway → ℕ
  unfolding submit perform
  accepted_in id [] g = 0
  accepted_in id (call ∷ calls) g = one_if (takes id call g) + accepted_in id calls (perform call g)

  -- A call that takes the requests of `t`.
  record Taking (g g' : CommandGateway) (t : String → Bool) : Type 0 where
    well : IsWellFormed g'
    even : (id : String) → balance id g' ≡ balance id g + one_if (t id)
    known : (id : String) → is_known id g'.world.store ≡ (t id || is_known id g.world.store)
    new : (id : String) → t id ≡ true → is_known id g.world.store ≡ false

  Balanced-Taking : (g g' : CommandGateway) → Balanced g g' → Taking g g' (λ id. false)
  Balanced-Taking g g' b = record {
    well = b.well;
    even = λ id. omega (arith, b.even id);
    known = b.knows;
    new = λ id h. cc;
  }

  Unmoved-Taking :
      (g g' : CommandGateway) (t : String → Bool)
      → IsWellFormed g
      → Unmoved g g'
      → ((id : String) → t id ≡ false)
      → Taking g g' t
  Unmoved-Taking g g' t w u never = record {
    well = record {
      forwarded_in_flight = λ id h.
          ap (λ x. is_some (lookup id x)) u.same_inflight
          ∙ w.forwarded_in_flight id (ap (λ x. is_some (lookup id x)) (sym u.same_forwarding) ∙ h);
      in_flight_known = λ id h.
          rw u.same_store
            (w.in_flight_known id (ap (λ x. is_some (lookup id x)) (sym u.same_inflight) ∙ h));
    };
    even = λ id. rw (u.same_inflight, u.same_delivered, never id) (omega arith);
    known = λ id. rw (u.same_store, never id) refl;
    new = λ id h. let clash = never id in cc;
  }

  checked-Taking :
      (digest : String) (replies : Replies) (req : CommandRequest) (g : CommandGateway)
      → IsWellFormed g
      → is_known req.request_id g.world.store ≡ false
      → ((id : String)
          → is_known id (recorded digest req g).world.store
            ≡ (req.request_id == id || is_known id g.world.store))
      → Taking g (checked digest replies req (recorded digest req g)) (λ id. req.request_id == id)
  checked-Taking digest replies req g w fresh grows = record {
    well = b.well;
    even = λ id. elim (Bool-cases (req.request_id == id)) [
      | inl same ↦
          let none_yet : in_flight id g ≡ false =
            at_key (λ k. in_flight k g) req.request_id id same ∙ absent in
          b.even id ∙ rw (now_in_flight id, same, none_yet) (omega arith)
      | inr other ↦ b.even id ∙ rw (now_in_flight id, other) (omega arith)
    ];
    known = λ id. b.knows id ∙ grows id;
    new = λ id h. at_key (λ k. is_known k g.world.store) req.request_id id h ∙ fresh;
  }
    where
      r : String
      r = req.request_id

      g1 : CommandGateway
      g1 = recorded digest req g

      absent : in_flight r g ≡ false
      absent = elim (Bool-cases (in_flight r g)) [
        | inl q ↦ let k = w.in_flight_known r q in cc
        | inr q ↦ q
      ]

      alone : is_forwarded r g ≡ false
      alone = elim (Bool-cases (is_forwarded r g)) [
        | inl q ↦ let k = w.forwarded_in_flight r q in let a = absent in cc
        | inr q ↦ q
      ]

      now_in_flight : (id : String) → in_flight id g1 ≡ (r == id || in_flight id g)
      now_in_flight id = is_some-insert id r g.inflight

      w1 : IsWellFormed g1
      w1 = record {
        forwarded_in_flight =
            λ id h. let k = w.forwarded_in_flight id h in now_in_flight id ∙ ground (arith, k);
        in_flight_known = λ id h. elim (Bool-cases (r == id)) [
          | inl same ↦ grows id ∙ ground (arith, same)
          | inr other ↦
              let left = sym (now_in_flight id) ∙ h in
              let k = w.in_flight_known id (ground (arith, left, other)) in
              grows id ∙ ground (arith, k)
        ];
      }

      b : Balanced g1 (checked digest replies req g1)
      b =
          checked-Balanced req g1 w1 (now_in_flight r ∙ ground (arith, ==_refl r)) alone digest
            replies

  perform-Taking :
      (call : Call) (g : CommandGateway)
      → IsWellFormed g
      → Taking g (perform call g) (λ id. takes id call g)
  unfolding perform
  perform-Taking (forwarding_next r next) g w =
      Balanced-Taking g (forward r next g) (forward-Balanced r next g w)
  perform-Taking (submitting replies req) g w =
      elim (submit-Answered canonical_payload_digest replies req g) [
        | refuses no_way u ↦
            Unmoved-Taking g (submit canonical_payload_digest replies req g).1
              (λ id. takes id (submitting replies req) g) w u (λ id. rw no_way refl)
        | accepts open_g passes fresh grows q ↦
            rw (perform, q)
              (checked-Taking (canonical_payload_digest req.payload) replies req g w fresh grows)
      ]

  pub perform_all-balance :
      (calls : List Call) (g : CommandGateway) (id : String)
      → IsWellFormed g
      → balance id (perform_all calls g) ≡ balance id g + accepted_in id calls g
  unfolding perform_all accepted_in
  perform_all-balance [] g id w = omega arith
  perform_all-balance (call ∷ calls) g id w =
      let t = perform-Taking call g w in
      omega (arith, t.even id, perform_all-balance calls (perform call g) id t.well)

  pub perform_all-IsWellFormed :
      (calls : List Call) (g : CommandGateway) → IsWellFormed g → IsWellFormed (perform_all calls g)
  unfolding perform_all
  perform_all-IsWellFormed [] g w = w
  perform_all-IsWellFormed (call ∷ calls) g w =
      perform_all-IsWellFormed calls (perform call g) (perform-Taking call g w).well

  -- Over any history a request is accepted at most once, and not at all if it has a receipt.
  pub accepted_in-once :
      (calls : List Call) (g : CommandGateway) (id : String)
      → IsWellFormed g
      → accepted_in id calls g + one_if (is_known id g.world.store) ≤ 1
  unfolding accepted_in
  accepted_in-once [] g id w = ground arith
  accepted_in-once (call ∷ calls) g id w =
      let t = perform-Taking call g w in
      let later = accepted_in-once calls (perform call g) id t.well in
      elim (Bool-cases (takes id call g)) [
        | inl b ↦
            let now_known : is_known id (perform call g).world.store ≡ true =
              t.known id ∙ ground (arith, b) in
            let was : is_known id g.world.store ≡ false = t.new id b in
            omega (arith, later, ap one_if now_known, ap one_if b, ap one_if was)
        | inr b ↦
            let same : is_known id (perform call g).world.store ≡ is_known id g.world.store =
              t.known id ∙ ground (arith, b) in
            omega (arith, later, ap one_if same, ap one_if b)
      ]
