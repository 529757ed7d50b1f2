-- ===== src/Relay/Streams/Stash/Budget.antt =====
-- What `push_pending` leaves of the waiting batches, and when it asks for a recovery.
use mathlib.Core.Path.{subst}
use agent_console.Base.{
  All, ap, arith, Bool, Bool-cases, false, inl, inr, keep, length, List, map, none, not,
  Option-cases, refl, some, String, string_eq, suc, total, total-append, true, zero, [], ℕ, ◌++◌,
  ◌+◌, ◌<◌, ◌∷◌, ◌≡◌, ◌⊎◌,
}
use agent_console.Relay.Frame.Messages.{Event}
use agent_console.Relay.Streams.State.{DStream, PendingUpstreamBatch}
use agent_console.Relay.Streams.Stash.{
  is_mergeable, take_mergeable, put_back, evict_one, over_budget, evicted, relieve_pending, stashed,
  push_pending,
}

module _ {M : Type 0} where
  -- The events that may not be given up, each with its upstream, its batch number and its device.
  abbrev pub tag : PendingUpstreamBatch M → Event M → String × ℕ × String × Event M
  tag b e = (b.upstream_id, b.upstream_seq, b.device_id, e)

  abbrev pub lasting_of :
      PendingUpstreamBatch M → List (Event M) → List (String × ℕ × String × Event M)
  lasting_of b es = map (tag b) (keep (λ e. not (is_mergeable e)) es)

  abbrev pub lasting : List (PendingUpstreamBatch M) → List (String × ℕ × String × Event M)
  lasting [] = []
  lasting (b ∷ bs) = lasting_of b b.events ++ lasting bs

  abbrev pub event_count : List (PendingUpstreamBatch M) → ℕ
  event_count bs = total (λ b. length b.events) bs

  abbrev pub HasNoMergeable : List (PendingUpstreamBatch M) → Type 0
  HasNoMergeable bs = All (λ b. All (λ e. is_mergeable e ≡ false) b.events) bs

  take_mergeable-none :
      (es : List (Event M)) → take_mergeable es ≡ none → All (λ e. is_mergeable e ≡ false) es
  unfolding take_mergeable
  take_mergeable-none [] h = tt
  take_mergeable-none (e ∷ es) h = elim (Bool-cases (is_mergeable e)) [
    | inl q ↦ absurd (ground arith)
    | inr q ↦ elim (Option-cases (take_mergeable es)) [
      | inl n ↦ (q, take_mergeable-none es n)
      | inr (x, n) ↦ absurd (ground arith)
    ]
  ]

  pub evict_one-none :
      (bs : List (PendingUpstreamBatch M)) → evict_one bs ≡ none → HasNoMergeable bs
  unfolding evict_one
  evict_one-none [] h = tt
  evict_one-none (b ∷ bs) h = elim (Option-cases (take_mergeable b.events)) [
    | inl n ↦ elim (Option-cases (evict_one bs)) [
      | inl m ↦ (take_mergeable-none b.events n, evict_one-none bs m)
      | inr (x, m) ↦ absurd (ground arith)
    ]
    | inr (x, n) ↦ absurd (ground arith)
  ]

  module _ (event_len : Event M → ℕ) where
    abbrev pub event_bytes : List (PendingUpstreamBatch M) → ℕ
    event_bytes bs = total (λ b. total event_len b.events) bs

    -- The two counts of a stream are those of its batches.
    abbrev pub IsCounted : DStream M → Type 0
    IsCounted d =
        (d.pending_events ≡ event_count d.pending_batches)
        × (d.pending_bytes ≡ event_bytes d.pending_batches)

    -- What one event fewer means for the counts, and that only a Mergeable one is missing.
    abbrev Spares : List (Event M) → Event M → List (Event M) → Type 0
    Spares es e rest =
        (length es ≡ suc (length rest))
        × (total event_len es ≡ event_len e + total event_len rest)
        × (keep (λ x. not (is_mergeable x)) rest ≡ keep (λ x. not (is_mergeable x)) es)

    take_mergeable-some :
        (es rest : List (Event M)) (e : Event M)
        → take_mergeable es ≡ some (e, rest)
        → Spares es e rest
    unfolding take_mergeable
    take_mergeable-some [] rest e h = cc
    take_mergeable-some (x ∷ es) rest e h = elim (Bool-cases (is_mergeable x)) [
      | inl q ↦ ground arith
      | inr q ↦ elim (Option-cases (take_mergeable es)) [
        | inl n ↦ absurd (ground arith)
        | inr ((y, r), n) ↦ let (a, b, c) = take_mergeable-some es r y n in ground arith
      ]
    ]

    abbrev Sheds : List (PendingUpstreamBatch M) → Event M → List (PendingUpstreamBatch M) → Type 0
    Sheds bs e rest =
        (event_count bs ≡ suc (event_count rest))
        × (event_bytes bs ≡ event_len e + event_bytes rest)
        × (lasting rest ≡ lasting bs)

    put_back-Sheds :
        (b : PendingUpstreamBatch M) (bs : List (PendingUpstreamBatch M)) (e : Event M)
        (rest : List (Event M))
        → Spares b.events e rest
        → Sheds (b ∷ bs) e (put_back b rest bs)
    put_back-Sheds b bs e [] (x, y, z) =
        (omega (arith, x), omega (arith, y), ap (λ l. map (tag b) l ++ lasting bs) z)
    put_back-Sheds b bs e (r ∷ rs) (x, y, z) =
        (omega (arith, x), omega (arith, y), ap (λ l. map (tag b) l ++ lasting bs) z)

    abbrev Same :
        Event M × List (PendingUpstreamBatch M) → Event M × List (PendingUpstreamBatch M) → Type 0
    Same p q = p ≡ q

    pub evict_one-some :
        (bs rest : List (PendingUpstreamBatch M)) (e : Event M)
        → evict_one bs ≡ some (e, rest)
        → Sheds bs e rest
    unfolding evict_one
    evict_one-some [] rest e h = cc
    evict_one-some (b ∷ bs) rest e h = elim (Option-cases (take_mergeable b.events)) [
      | inl n ↦ elim (Option-cases (evict_one bs)) [
        | inl m ↦ absurd (ground arith)
        | inr ((y, r), m) ↦
            let (p, q, s) = evict_one-some bs r y m in
            let same : Same (y, b ∷ r) (e, rest) = ground arith in
            subst (λ k. Sheds (b ∷ bs) k.0 k.1) same
              (omega (arith, p), omega (arith, q), ap (λ l. lasting_of b b.events ++ l) s)
      ]
      | inr ((y, r), n) ↦
          let same : Same (y, put_back b r bs) (e, rest) = ground arith in
          subst (λ k. Sheds (b ∷ bs) k.0 k.1) same
            (put_back-Sheds b bs y r (take_mergeable-some b.events r y n))
    ]

    -- A run of the loop keeps the counts and the lasting events, and ends in one of two ways.
    abbrev pub Settles : List (String × ℕ × String × Event M) → DStream M × Bool → Type 0
    Settles kept r =
        IsCounted r.0
        × (lasting r.0.pending_batches ≡ kept)
        × (((r.1 ≡ false) × (over_budget r.0 ≡ false))
            ⊎ ((r.1 ≡ true) × (over_budget r.0 ≡ true) × HasNoMergeable r.0.pending_batches))

    relieve_pending-Settles :
        (fuel : ℕ) (d : DStream M)
        → IsCounted d
        → d.pending_events < fuel
        → Settles (lasting d.pending_batches) (relieve_pending event_len fuel d)
    unfolding relieve_pending
    relieve_pending-Settles zero d c l = absurd (omega (arith, l))
    relieve_pending-Settles (suc fuel) d c l = elim (Bool-cases (over_budget d)) [
      | inr o ↦ rw (o, relieve_pending) (c, refl, inl (refl, o))
      | inl o ↦ elim (Option-cases (evict_one d.pending_batches)) [
        | inl n ↦
            rw (o, relieve_pending)
              (rw n (c, refl, inr (refl, o, evict_one-none d.pending_batches n)))
        | inr ((e, rest), n) ↦
            let (p, q, s) = evict_one-some d.pending_batches rest e n in
            let again =
              relieve_pending-Settles fuel (evicted event_len e rest d)
                (omega (arith, p, c.0), omega (arith, q, c.1)) (omega (arith, l, p, c.0)) in
            rw (o, relieve_pending)
              (rw n (
                subst (λ k. Settles k (relieve_pending event_len fuel (evicted event_len e rest d)))
                  s again))
      ]
    ]

    event_count-snoc :
        (w : PendingUpstreamBatch M → ℕ) (bs : List (PendingUpstreamBatch M))
        (b : PendingUpstreamBatch M)
        → total w (bs ++ b ∷ []) ≡ total w bs + w b
    event_count-snoc w bs b = omega (arith, total-append w bs (b ∷ []))

    stashed-IsCounted :
        (batch : PendingUpstreamBatch M) (d : DStream M)
        → IsCounted d
        → IsCounted (stashed event_len batch d)
    stashed-IsCounted batch d c = (
      omega (arith, c.0, event_count-snoc (λ b. length b.events) d.pending_batches batch),
      omega (arith, c.1, event_count-snoc (λ b. total event_len b.events) d.pending_batches batch),
    )

    -- From exact counts, `push_pending` keeps the counts exact and every event that is not
    -- Mergeable, in its batch and in order, with those of the new batch at the end. It answers
    -- `false` within the budgets of events and bytes, and `true` only over one of them when no
    -- Mergeable event is left.
    pub push_pending-Settles :
        (batch : PendingUpstreamBatch M) (d : DStream M)
        → IsCounted d
        → Settles (lasting (d.pending_batches ++ batch ∷ [])) (push_pending event_len batch d)
    unfolding push_pending
    push_pending-Settles batch d c =
        relieve_pending-Settles (suc (stashed event_len batch d).pending_events)
          (stashed event_len batch d) (stashed-IsCounted batch d c) (omega arith)
