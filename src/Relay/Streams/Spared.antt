-- ===== src/Relay/Streams/Spared.antt =====
-- What a notice to resync does to the frames in an outbox.
use agent_console.Base.{
  ◌++◌, ◌+◌, ◌==◌, ◌∙◌, ◌∷◌, ◌≡◌, ◌⊎◌, ap, Bool, Bool-cases, eqb, if_cases, inl, inr, keep,
  keep-append, length, List, lookup, ltb, nat_eq, not, refl, some, String, string_eq, Table, true,
  [], ℕ,
}
use mathlib.Core.List.{append-nil}
use agent_console.Relay.Outbox.{
  close, close_item, direct, direct_reserve_bytes, is_frame, Outbox, OutItem, push_direct,
}
use agent_console.Relay.Streams.Hub.{announce_resync, Control, resync_required, resync_to}
use agent_console.Relay.Streams.Seats.{lookup-update}

module _ {M : Type 0} where
  abbrev pub frames_in : Outbox M → List (OutItem M)
  frames_in o = keep is_frame o.items

  -- No frame has come in: the frames are the same and the outbox is open if it was open, or the
  -- outbox is closed and all frames are gone.
  abbrev pub IsSpared : Outbox M → Outbox M → Type 0
  IsSpared o q =
      ((frames_in q ≡ frames_in o) × (q.closed ≡ o.closed))
      ⊎ ((frames_in q ≡ []) × (q.closed ≡ true))

  no_frames : (is : List (OutItem M)) → keep is_frame (keep (λ i. not (is_frame i)) is) ≡ []
  no_frames [] = refl
  no_frames (i ∷ is) = elim (Bool-cases (is_frame i)) [
    | inl e ↦ rw e (no_frames is)
    | inr e ↦ rw e (rw e (no_frames is))
  ]

  close-IsSpared : (reason : String) (o : Outbox M) → IsSpared o (close reason o)
  unfolding close
  close-IsSpared reason o =
      if_cases (λ (q : Outbox M). IsSpared o q) o.closed _ _ (λ _. inl (refl, refl))
        (λ _. inr (
          keep-append is_frame (keep (λ i. not (is_frame i)) o.items) (close_item reason ∷ [])
              ∙ ap (λ l. l ++ []) (no_frames o.items),
          refl,
        ))

  pub push_direct-IsSpared : (b : List ℕ) (o : Outbox M) → IsSpared o (push_direct b o).1
  unfolding push_direct
  push_direct-IsSpared b o =
      let P = λ (r : Bool × Outbox M). IsSpared o r.1 in
      if_cases P o.closed _ _ (λ _. inl (refl, refl))
        λ _.
          if_cases P (eqb (length b) 0) _ _ (λ _. inl (refl, refl))
            λ _.
              if_cases P (ltb (o.max_bytes + direct_reserve_bytes) (o.bytes + length b)) _ _
                (λ _. close-IsSpared "OUTBOX_OVERLOAD" o)
                (λ _.
                  inl
                    (keep-append is_frame o.items (direct b ∷ []) ∙ append-nil (frames_in o), refl))

  -- There is an outbox under the name that has been spared.
  abbrev pub HasSpared : String → Outbox M → Table String (Outbox M) → Type 0
  HasSpared c o t = (q : Outbox M) × (lookup c t ≡ some q) × IsSpared o q

  IsSpared-trans : (o p q : Outbox M) → IsSpared o p → IsSpared p q → IsSpared o q
  IsSpared-trans o p q a (inr z) = inr z
  IsSpared-trans o p q (inl (x, u)) (inl (y, v)) = inl (y ∙ x, v ∙ u)
  IsSpared-trans o p q (inr (x, u)) (inl (y, v)) = inr (y ∙ x, v ∙ u)

  module _ (encode_direct : Control → List ℕ) where
    pub announce-HasSpared :
        (c id : String) (o : Outbox M) (cs : List String) (t : Table String (Outbox M))
        → HasSpared c o t
        → HasSpared c o (announce_resync encode_direct id cs t)
    unfolding announce_resync
    announce-HasSpared c id o [] t h = h
    announce-HasSpared c id o (d ∷ ds) t (q, e, s) =
        announce-HasSpared c id o ds (resync_to encode_direct id d t) (elim (Bool-cases (d == c)) [
          | inl same ↦ (
            told q,
            lookup-update d c told t ∙ rw (same, e) refl,
            IsSpared-trans o q (told q) s
                (push_direct-IsSpared (encode_direct (resync_required id)) q),
          )
          | inr other ↦ (q, lookup-update d c told t ∙ rw (other, e) refl, s)
        ])
      where
        told : Outbox M → Outbox M
        told p = (push_direct (encode_direct (resync_required id)) p).1
