-- ===== src/Relay/Streams/Unheard.antt =====
-- What a subscriber that waits for its snapshot gets of the events of a stream.
use agent_console.Base.{
  ◌&&◌, ◌==◌, ◌∙◌, ◌∷◌, ◌≡◌, any, ap, arith, Bool, Bool-cases, false, if_cases, if◌then◌else◌, inl,
  inr, List, lookup, lookup-insert, nat_eq, none, not, Option, Option-cases, refl, some, String,
  string_eq, sym, Table, true, [], ℕ,
}
use mathlib.Core.Bool.{false≢true}
use agent_console.Relay.Frame.Messages.{Envelope, Event, Frame}
use agent_console.Relay.Outbox.{is_closed_error, Outbox, PushError, push_frame, slow_consumer}
use agent_console.Relay.StreamBuffer.{buffered, InsertOutcome, overflow_reset}
use agent_console.Relay.Streams.State.{DKey, DStream, SubscriberState}
use agent_console.Relay.Streams.Hub.{Control, keys, View}
use agent_console.Relay.Streams.Publish.{
  event_frame, fan_live, Incoming, noted, numbered, publish, publish_all, push_to, spread,
}
use agent_console.Relay.Streams.Upstream.{publish_batch}
use agent_console.Relay.Streams.Seats.{
  detach_all-cases, IsDistinct, occurs, occurs-snoc, outbox, subscriber,
}
use agent_console.Relay.Streams.Spared.{announce-HasSpared, HasSpared}

-- The table has an entry under the name that takes live frames.
abbrev pub hears : String → Table String SubscriberState → Bool
hears c t = any (λ e. e.0 == c && not e.1.awaiting_snapshot) t

unheard :
    (c : String) (t : Table String SubscriberState) → occurs c (keys t) ≡ false → hears c t ≡ false
unheard c [] h = refl
unheard c ((d, s) ∷ t) h =
    let apart : (d == c) ≡ false = ground arith in
    let later : occurs c (keys t) ≡ false = ground arith in rw apart (unheard c t later)

waiting-unheard :
    (c : String) (s : SubscriberState) (t : Table String SubscriberState)
    → lookup c t ≡ some s
    → s.awaiting_snapshot ≡ true
    → IsDistinct (keys t)
    → hears c t ≡ false
unfolding lookup
waiting-unheard c s [] h w d = cc
waiting-unheard c s ((x, y) ∷ t) h w d = elim (Bool-cases (x == c)) [
  | inl e ↦
      let same : y ≡ s = ground arith in
      let waits : y.awaiting_snapshot ≡ true =
        ap (λ (z : SubscriberState). z.awaiting_snapshot) same ∙ w in
      let rest : occurs c (keys t) ≡ false = rw⁻¹ ((string_eq.equals_iff x c).0 e) d.0 in
      ground (arith, waits, unheard c t rest)
  | inr e ↦
      let later : lookup c t ≡ some s = ground arith in rw e (waiting-unheard c s t later w d.1)
]

module _ {M : Type 0} where
  -- A turn of the loop over the others changes nothing for the subscriber.
  IsPassedBy :
      String
      → Table String (Outbox M) × List String
      → Table String (Outbox M) × List String
      → Type 0
  IsPassedBy c r q = (lookup c q.0 ≡ lookup c r.0) × (occurs c q.1 ≡ occurs c r.1)

  noted-occurs :
      (c d : String) (k : Option PushError × Outbox M) (slow : List String)
      → (d == c) ≡ false
      → occurs c (noted d k slow) ≡ occurs c slow
  noted-occurs c d (some slow_consumer, o) slow n = occurs-snoc c d slow ∙ ground (arith, n)
  noted-occurs c d (some is_closed_error, o) slow n = refl
  noted-occurs c d (none, o) slow n = refl

  push_to-IsPassedBy :
      (f : Frame M) (c d : String) (r : Table String (Outbox M) × List String)
      → (d == c) ≡ false
      → IsPassedBy c r (push_to f d r)
  unfolding IsPassedBy
  push_to-IsPassedBy f c d r n = elim (Option-cases (lookup d r.0)) [
    | inl q ↦ rw (push_to, q) (refl, refl)
    | inr (o, q) ↦
        rw (push_to, q)
          (
            lookup-insert d c (push_frame f o).1 r.0 ∙ rw n refl,
            noted-occurs c d (push_frame f o) r.1 n,
          )
  ]

  fan_live-IsPassedBy :
      (f : Frame M) (c : String) (subs : Table String SubscriberState)
      (r : Table String (Outbox M) × List String)
      → hears c subs ≡ false
      → IsPassedBy c r (fan_live f subs r)
  unfolding fan_live IsPassedBy
  fan_live-IsPassedBy f c [] r h = (refl, refl)
  fan_live-IsPassedBy f c ((d, s) ∷ subs) r h =
      let later : hears c subs ≡ false = ground arith in
      let next = if s.awaiting_snapshot then r else push_to f d r in
      let (x, y) = fan_live-IsPassedBy f c subs next later in let (p, q) = one in (x ∙ p, y ∙ q)
    where
      one : IsPassedBy c r (if s.awaiting_snapshot then r else push_to f d r)
      one =
          if_cases (IsPassedBy c r) s.awaiting_snapshot _ _ (λ _. (refl, refl))
            (λ e. push_to-IsPassedBy f c d r (ground arith))

  module _ (encode_direct : Control → List ℕ) where
    -- What is kept for a waiting subscriber while events are published.
    IsWaiting : String → SubscriberState → Outbox M → View M × List String → Type 0
    IsWaiting c s o r =
        (hears c r.0.stream.subscribers ≡ false)
        × (subscriber c r.0 ≡ some s)
        × HasSpared c o r.0.browsers
        × (occurs c r.1 ≡ false)

    spread-IsWaiting :
        (c : String) (s : SubscriberState) (o : Outbox M) (f : Frame M)
        (k : DStream M × InsertOutcome) (r : View M × List String)
        → k.0.subscribers ≡ r.0.stream.subscribers
        → IsWaiting c s o r
        → IsWaiting c s o (spread encode_direct f k r)
    unfolding IsWaiting IsPassedBy
    spread-IsWaiting c s o f (d, overflow_reset) r e (h, b, x, n) = (
      rw e h,
      rw e b,
      announce-HasSpared encode_direct c d.stream_id o (keys d.subscribers) r.0.browsers x,
      n,
    )
    spread-IsWaiting c s o f (d, buffered) r e (h, b, (q, x, z), n) =
        let deaf : hears c d.subscribers ≡ false = rw e h in
        let (u, w) = fan_live-IsPassedBy f c d.subscribers (r.0.browsers, r.1) deaf in
        (deaf, rw e b, (q, u ∙ x, z), w ∙ n)

    module _ (encoded_len : Envelope M → ℕ) (message_id : ℕ → String) (now : ℕ) where
      publish_all-IsWaiting :
          (c : String) (s : SubscriberState) (o : Outbox M) (inc : Incoming) (es : List (Event M))
          (r : View M × List String)
          → IsWaiting c s o r
          → IsWaiting c s o (publish_all encoded_len encode_direct message_id now inc es r)
      unfolding publish_all publish
      publish_all-IsWaiting c s o inc [] r h = h
      publish_all-IsWaiting c s o inc (e ∷ es) r h =
          let f = event_frame encoded_len message_id now inc r.0.stream e in
          publish_all-IsWaiting c s o inc es _
            (spread-IsWaiting c s o f (numbered encoded_len now f r.0.stream) r refl h)

      -- A subscriber that waits for its snapshot, in a table where no subscriber stands twice, gets
      -- no frame of the events that are published: it stays a waiting subscriber, and its
      -- outbox has the same frames and is open if it was open, or it is closed and has no frames.
      pub publish_batch-spares :
          (event_len : Event M → ℕ) (key : DKey) (inc : Incoming) (es : List (Event M)) (v : View M)
          (c : String) (s : SubscriberState) (o : Outbox M)
          → IsDistinct (keys v.stream.subscribers)
          → subscriber c v ≡ some s
          → s.awaiting_snapshot ≡ true
          → outbox c v ≡ some o
          → (subscriber c
                (publish_batch encoded_len event_len encode_direct message_id now key inc es v)
              ≡ some s)
            × HasSpared c o
                (publish_batch encoded_len event_len encode_direct message_id now key inc es
                  v).browsers
      unfolding publish_batch IsWaiting
      publish_batch-spares event_len key inc es v c s o d e w b =
          let r = publish_all encoded_len encode_direct message_id now inc es (v, []) in
          let deaf = waiting-unheard c s v.stream.subscribers e w d in
          let (h, x, (q, y, z), n) =
            publish_all-IsWaiting c s o inc es (v, []) (deaf, e, (o, b, inl (refl, refl)), refl) in
          elim (detach_all-cases encode_direct key c r.1 r.0 q y) [
            | inl (m, gone) ↦ absurd (false≢true (sym n ∙ m))
            | inr (m, (i, j)) ↦ (i ∙ x, (q, j ∙ y, z))
          ]
