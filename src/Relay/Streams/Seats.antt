-- ===== src/Relay/Streams/Seats.antt =====
-- What the steps of the handlers do to one subscriber: its entry in the stream and its outbox.
use agent_console.Base.{
  ◌++◌, ◌==◌, ◌||◌, ◌∙◌, ◌∷◌, ◌≡◌, ◌⊎◌, any, arith, Bool, Bool-cases, Eq, false, if◌then◌else◌, inl,
  inr, List, lookup, lookup-insert, lookup-remove, none, Option, Option-cases, refl, some, String,
  string_eq, Table, true, [], ℕ, ==_refl,
}
use agent_console.Relay.Outbox.{Outbox, push_direct}
use agent_console.Relay.Outbox.Fifo.{close-closed}
use agent_console.Relay.Streams.State.{DKey, dkey_eq, SubscriberState}
use agent_console.Relay.Streams.Hub.{
  Control, detach_all, detach_failed_subscriber, resync_required, turn_away, update, View,
}

abbrev pub mapped {ℓ κ} : {A : Type ℓ} {B : Type κ} → (A → B) → Option A → Option B
mapped f none = none
mapped f (some a) = some (f a)

abbrev pub occurs : String → List String → Bool
occurs c cs = any (λ d. d == c) cs

pub occurs-snoc :
    (c d : String) (cs : List String) → occurs c (cs ++ d ∷ []) ≡ (occurs c cs || d == c)
occurs-snoc c d [] = ground arith
occurs-snoc c d (x ∷ xs) = ground (arith, occurs-snoc c d xs)

-- No key stands twice.
abbrev pub IsDistinct : List String → Type 0
IsDistinct [] = Unit
IsDistinct (c ∷ cs) = (occurs c cs ≡ false) × IsDistinct cs

module _ {ℓ κ} {K : Type ℓ} {V : Type κ} ⦃e : Eq K⦄ where
  pub lookup-update :
      (k j : K) (f : V → V) (t : Table K V)
      → lookup j (update k f t) ≡ (if k == j then mapped f (lookup j t) else lookup j t)
  lookup-update k j f t = elim (Option-cases (lookup k t)) [
    | inl q ↦ ground (arith, e.equals_iff k j)
    | inr (v, q) ↦ ground (arith, e.equals_iff k j, lookup-insert k j (f v) t)
  ]

module _ {M : Type 0} where
  abbrev pub subscriber : String → View M → Option SubscriberState
  subscriber c v = lookup c v.stream.subscribers

  abbrev pub outbox : String → View M → Option (Outbox M)
  outbox c v = lookup c v.browsers

  -- The subscriber is gone from the stream, and its outbox is closed.
  abbrev pub IsDetached : String → View M → Type 0
  IsDetached c v =
      (subscriber c v ≡ none) × ((q : Outbox M) × (outbox c v ≡ some q) × (q.closed ≡ true))

  abbrev pub SameSeat : String → View M → View M → Type 0
  SameSeat c v w = (subscriber c w ≡ subscriber c v) × (outbox c w ≡ outbox c v)

  module _ (encode_direct : Control → List ℕ) (key : DKey) where
    pub detach-SameSeat :
        (c d : String) (v : View M)
        → (d == c) ≡ false
        → SameSeat c v (detach_failed_subscriber encode_direct key d v)
    unfolding detach_failed_subscriber
    detach-SameSeat c d v n = (
      lookup-remove d c v.stream.subscribers ∙ rw n refl,
      lookup-update d c (turn_away encode_direct v.stream.stream_id) v.browsers ∙ rw n refl,
    )

    pub detach-IsDetached :
        (c : String) (v : View M) (o : Outbox M)
        → outbox c v ≡ some o
        → IsDetached c (detach_failed_subscriber encode_direct key c v)
    unfolding detach_failed_subscriber
    detach-IsDetached c v o h = (
      lookup-remove c c v.stream.subscribers ∙ rw (==_refl c) refl,
      (
        turn_away encode_direct v.stream.stream_id o,
        lookup-update c c (turn_away encode_direct v.stream.stream_id) v.browsers
            ∙ rw (==_refl c, h) refl,
        close-closed "RESYNC_REQUIRED"
            (push_direct (encode_direct (resync_required v.stream.stream_id)) o).1,
      ),
    )

    detach_all-stays :
        (c : String) (cs : List String) (v : View M)
        → IsDetached c v
        → IsDetached c (detach_all encode_direct key cs v)
    unfolding detach_all
    detach_all-stays c [] v h = h
    detach_all-stays c (d ∷ cs) v (n, (q, e, k)) =
        detach_all-stays c cs (detach_failed_subscriber encode_direct key d v)
          (elim (Bool-cases (d == c)) [
            | inl same ↦ rw ((string_eq.equals_iff d c).0 same) (detach-IsDetached c v q e)
            | inr other ↦ let (x, y) = detach-SameSeat c d v other in (x ∙ n, (q, y ∙ e, k))
          ])

    -- Who is in the list is detached, and nobody else is touched.
    pub detach_all-cases :
        (c : String) (cs : List String) (v : View M) (o : Outbox M)
        → outbox c v ≡ some o
        → ((occurs c cs ≡ true) × IsDetached c (detach_all encode_direct key cs v))
          ⊎ ((occurs c cs ≡ false) × SameSeat c v (detach_all encode_direct key cs v))
    unfolding detach_all
    detach_all-cases c [] v o h = inr (refl, (refl, refl))
    detach_all-cases c (d ∷ cs) v o h = elim (Bool-cases (d == c)) [
      | inl same ↦ inl (
        rw same refl,
        detach_all-stays c cs _
            (rw ((string_eq.equals_iff d c).0 same) (detach-IsDetached c v o h)),
      )
      | inr other ↦
          let (x, y) = detach-SameSeat c d v other in
          elim (detach_all-cases c cs (detach_failed_subscriber encode_direct key d v) o (y ∙ h)) [
            | inl (m, k) ↦ inl (rw other m, k)
            | inr (m, (p, q)) ↦ inr (rw other m, (p ∙ x, q ∙ y))
          ]
    ]
