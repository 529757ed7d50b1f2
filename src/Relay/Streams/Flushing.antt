-- ===== src/Relay/Streams/Flushing.antt =====
-- The loop that hands a snapshot to the subscribers: what it does to one of them.
use mathlib.Core.Path.{ap₂, subst}
use agent_console.Base.{
  ◌==◌, ◌∙◌, ◌∷◌, ◌≡◌, ◌⊎◌, arith, Bool, Bool-cases, false, if_cases, if◌then◌else◌, inl, inr,
  insert, List, lookup, lookup-insert, Option-cases, refl, some, String, string_eq, Table, true, [],
  ℕ, ==_refl,
}
use agent_console.Relay.Frame.Messages.{Frame}
use agent_console.Relay.Outbox.{Outbox, push_frame}
use agent_console.Relay.Streams.State.{dkey_eq, SubscriberState}
use agent_console.Relay.Streams.Hub.{Control, goes_live, keys, replay_to, subscribed, View}
use agent_console.Relay.Streams.Upstream.{accepted_by, flush, flush_one, hand_to, settle}
use agent_console.Relay.Streams.Seats.{
  IsDistinct, occurs, occurs-snoc, outbox, SameSeat, subscriber,
}

pub lookup-occurs {ℓ} :
    {V : Type ℓ} (c : String) (v : V) (t : Table String V)
    → lookup c t ≡ some v
    → occurs c (keys t) ≡ true
unfolding lookup
lookup-occurs c v [] h = cc
lookup-occurs c v ((d, w) ∷ t) h = elim (Bool-cases (d == c)) [
  | inl e ↦ rw e refl
  | inr e ↦ let later : lookup c t ≡ some v = ground arith in rw e (lookup-occurs c v t later)
]

module _ {M : Type 0} where
  -- The stream goes by the same id and is in the same epoch.
  unfoldable pub SameStream : View M → View M → Type 0
  SameStream v w = (w.stream.stream_id ≡ v.stream.stream_id) × (w.stream.epoch ≡ v.stream.epoch)

  settle-SameStream :
      (c : String) (s : SubscriberState) (k : Bool × Outbox M) (r : View M × List String)
      → SameStream r.0 (settle c s k r).0
  unfolding SameStream
  settle-SameStream c s k r =
      if_cases (λ (q : View M × List String). SameStream r.0 q.0) k.0 _ _ (λ _. (refl, refl))
        (λ _. (refl, refl))

  -- Another subscriber keeps its seat, and is noted as failed as before.
  unfoldable pub IsApart : String → View M × List String → View M × List String → Type 0
  IsApart e r q = SameSeat e r.0 q.0 × (occurs e q.1 ≡ occurs e r.1)

  settle-IsApart :
      (c e : String) (s : SubscriberState) (k : Bool × Outbox M) (r : View M × List String)
      → (c == e) ≡ false
      → IsApart e r (settle c s k r)
  unfolding IsApart
  settle-IsApart c e s k r n =
      let box : lookup e (insert c k.1 r.0.browsers) ≡ outbox e r.0 =
        lookup-insert c e k.1 r.0.browsers ∙ rw n refl in
      if_cases (λ (q : View M × List String). IsApart e r q) k.0 _ _
        (λ _. ((lookup-insert c e (goes_live s) r.0.stream.subscribers ∙ rw n refl, box), refl))
        (λ _. ((refl, box), occurs-snoc e c r.1 ∙ ground (arith, n)))

  -- The subscriber itself has the outbox of the delivery, and is live or noted as failed.
  unfoldable pub IsSettled :
      String → SubscriberState → Bool × Outbox M → View M × List String → Type 0
  IsSettled c s k q =
      (outbox c q.0 ≡ some k.1)
      × (((k.0 ≡ true) × (subscriber c q.0 ≡ some (goes_live s)) × (occurs c q.1 ≡ false))
          ⊎ (occurs c q.1 ≡ true))

  settle-IsSettled :
      (c : String) (s : SubscriberState) (k : Bool × Outbox M) (r : View M × List String)
      → occurs c r.1 ≡ false
      → IsSettled c s k (settle c s k r)
  unfolding IsSettled
  settle-IsSettled c s k r n =
      let box : lookup c (insert c k.1 r.0.browsers) ≡ some k.1 =
        lookup-insert c c k.1 r.0.browsers ∙ rw (==_refl c) refl in
      if_cases (λ (q : View M × List String). IsSettled c s k q) k.0 _ _
        (λ ok. (
          box,
          inl (ok, lookup-insert c c (goes_live s) r.0.stream.subscribers ∙ rw (==_refl c) refl, n),
        ))
        (λ _. (box, inr (occurs-snoc c c r.1 ∙ ground (arith, ==_refl c))))

  IsSettled-apart :
      (c : String) (s : SubscriberState) (k : Bool × Outbox M) (r q : View M × List String)
      → IsApart c r q
      → IsSettled c s k r
      → IsSettled c s k q
  unfolding IsSettled IsApart
  IsSettled-apart c s k r q ((x, y), z) (b, ways) =
      (y ∙ b, elim ways [ inl (ok, e, n) ↦ inl (ok, x ∙ e, z ∙ n) | inr n ↦ inr (z ∙ n) ])

  SameStream-trans : (u v w : View M) → SameStream u v → SameStream v w → SameStream u w
  unfolding SameStream
  SameStream-trans u v w (a, b) (c, d) = (c ∙ a, d ∙ b)

  module _ (encode_direct : Control → List ℕ) (f : Frame M) (window : ℕ × List (Frame M)) where
    hand_to-SameStream :
        (v w : View M) (s : SubscriberState) (o : Outbox M)
        → SameStream v w
        → hand_to encode_direct f window w.stream s o ≡ hand_to encode_direct f window v.stream s o
    unfolding SameStream
    hand_to-SameStream v w s o (i, e) =
        ap₂
          (λ (id : String) (n : ℕ).
            if s.awaiting_snapshot
            then replay_to (encode_direct (subscribed id n window.0 s.subscribe_correlation))
                window.1 o
            else accepted_by (push_frame f o))
          i e

    flush_one-SameStream :
        (c : String) (r : View M × List String)
        → SameStream r.0 (flush_one encode_direct f window c r).0
    unfolding flush_one SameStream
    flush_one-SameStream c r = elim (Option-cases (outbox c r.0)) [
      | inl n ↦ rw (n, flush_one) (refl, refl)
      | inr (o, n) ↦ elim (Option-cases (subscriber c r.0)) [
        | inl m ↦ rw (n, flush_one) (rw m (refl, refl))
        | inr (s, m) ↦
            rw (n, flush_one)
              (rw m (settle-SameStream c s (hand_to encode_direct f window r.0.stream s o) r))
      ]
    ]

    flush_one-IsApart :
        (c e : String) (r : View M × List String)
        → (c == e) ≡ false
        → IsApart e r (flush_one encode_direct f window c r)
    unfolding flush_one IsApart
    flush_one-IsApart c e r d = elim (Option-cases (outbox c r.0)) [
      | inl n ↦ rw (n, flush_one) ((refl, refl), refl)
      | inr (o, n) ↦ elim (Option-cases (subscriber c r.0)) [
        | inl m ↦ rw (n, flush_one) (rw m ((refl, refl), refl))
        | inr (s, m) ↦
            rw (n, flush_one)
              (rw m (settle-IsApart c e s (hand_to encode_direct f window r.0.stream s o) r d))
      ]
    ]

    flush-IsApart :
        (e : String) (cs : List String) (r : View M × List String)
        → occurs e cs ≡ false
        → IsApart e r (flush encode_direct f window cs r)
    unfolding flush IsApart
    flush-IsApart e [] r n = ((refl, refl), refl)
    flush-IsApart e (c ∷ cs) r n =
        let apart : (c == e) ≡ false = ground arith in
        let later : occurs e cs ≡ false = ground arith in
        let ((x, y), z) = flush_one-IsApart c e r apart in
        let ((p, q), s) = flush-IsApart e cs (flush_one encode_direct f window c r) later in
        ((p ∙ x, q ∙ y), s ∙ z)

    flush_one-IsSettled :
        (v : View M) (c : String) (s : SubscriberState) (o : Outbox M) (r : View M × List String)
        → SameStream v r.0
        → subscriber c r.0 ≡ some s
        → outbox c r.0 ≡ some o
        → occurs c r.1 ≡ false
        → IsSettled c s
            (hand_to encode_direct f window v.stream s o)
            (flush_one encode_direct f window c r)
    unfolding flush_one
    flush_one-IsSettled v c s o r i e b n =
        rw (b, flush_one)
          (rw e (
            subst
              (λ k. IsSettled c s k (settle c s (hand_to encode_direct f window r.0.stream s o) r))
              (hand_to-SameStream v r.0 s o i)
              (settle-IsSettled c s (hand_to encode_direct f window r.0.stream s o) r n)))

    pub flush-IsSettled :
        (v : View M) (c : String) (s : SubscriberState) (o : Outbox M) (cs : List String)
        (r : View M × List String)
        → SameStream v r.0
        → subscriber c r.0 ≡ some s
        → outbox c r.0 ≡ some o
        → occurs c r.1 ≡ false
        → occurs c cs ≡ true
        → IsDistinct cs
        → IsSettled c s
            (hand_to encode_direct f window v.stream s o)
            (flush encode_direct f window cs r)
    unfolding flush IsApart
    flush-IsSettled v c s o [] r i e b n m d = cc
    flush-IsSettled v c s o (x ∷ xs) r i e b n m d = elim (Bool-cases (x == c)) [
      | inl same ↦
          let here = (string_eq.equals_iff x c).0 same in
          let rest : occurs c xs ≡ false = subst (λ y. occurs y xs ≡ false) here d.0 in
          rw here (
            IsSettled-apart c s (hand_to encode_direct f window v.stream s o) _ _
              (flush-IsApart c xs (flush_one encode_direct f window c r) rest)
              (flush_one-IsSettled v c s o r i e b n))
      | inr other ↦
          let later : occurs c xs ≡ true = ground arith in
          let apart = flush_one-IsApart x c r other in
          flush-IsSettled v c s o xs (flush_one encode_direct f window x r)
            (SameStream-trans v r.0 _ i (flush_one-SameStream x r)) (apart.0.0 ∙ e) (apart.0.1 ∙ b)
            (apart.1 ∙ n) later d.1
    ]
