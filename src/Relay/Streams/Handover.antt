-- ===== src/Relay/Streams/Handover.antt =====
-- What an outbox holds after a successful delivery of a window.
use mathlib.Core.Bool.{false≢true}
use mathlib.Core.List.{append_assoc, append-nil}
use agent_console.Base.{
  ◌++◌, ◌+◌, ◌||◌, ◌∙◌, ◌∷◌, ◌≡◌, Bool, eqb, false, if_cases, is_none, length, List, ltb, map,
  nat_eq, Option, refl, string_eq, sym, true, [], ℕ,
}
use agent_console.Relay.Frame.Messages.{Frame}
use agent_console.Relay.Outbox.{
  direct, direct_reserve_bytes, frame, Outbox, OutItem, PushError, push_direct, push_frame,
}
use agent_console.Relay.Streams.Hub.{deliver, replay_to}

module _ {M : Type 0} where
  -- An open outbox that has taken some items at its end.
  abbrev pub HasTaken : Outbox M → List (OutItem M) → Outbox M → Type 0
  HasTaken o added q = (q.closed ≡ false) × (q.items ≡ o.items ++ added)

  pub push_frame-HasTaken :
      (f : Frame M) (o : Outbox M)
      → is_none (push_frame f o).0 ≡ true
      → HasTaken o (frame f ∷ []) (push_frame f o).1
  unfolding push_frame
  push_frame-HasTaken f o =
      let P =
        λ (r : Option PushError × Outbox M). is_none r.0 ≡ true → HasTaken o (frame f ∷ []) r.1 in
      if_cases P o.closed _ _ (λ _ h. absurd (false≢true h))
        λ is_open.
          if_cases P (ltb o.capacity (o.frames + 1) || ltb o.max_bytes (o.bytes + f.bytes_len)) _ _
            (λ _ h. absurd (false≢true h)) (λ _ h. (is_open, refl))

  push_direct-HasTaken :
      (b : List ℕ) (o : Outbox M)
      → (push_direct b o).0 ≡ true
      → HasTaken o (direct b ∷ []) (push_direct b o).1
  unfolding push_direct
  push_direct-HasTaken b o =
      let P = λ (r : Bool × Outbox M). r.0 ≡ true → HasTaken o (direct b ∷ []) r.1 in
      if_cases P o.closed _ _ (λ _ h. absurd (false≢true h))
        λ is_open.
          if_cases P (eqb (length b) 0) _ _ (λ _ h. absurd (false≢true h))
            λ _.
              if_cases P (ltb (o.max_bytes + direct_reserve_bytes) (o.bytes + length b)) _ _
                (λ _ h. absurd (false≢true h)) (λ _ h. (is_open, refl))

  deliver-HasTaken :
      (fs : List (Frame M)) (o : Outbox M)
      → o.closed ≡ false
      → (deliver fs o).0 ≡ true
      → HasTaken o (map frame fs) (deliver fs o).1
  unfolding deliver
  deliver-HasTaken [] o is_open = λ h. (is_open, sym (append-nil o.items))
  deliver-HasTaken (f ∷ fs) o is_open =
      let P = λ (r : Bool × Outbox M). r.0 ≡ true → HasTaken o (map frame (f ∷ fs)) r.1 in
      if_cases P (is_none (push_frame f o).0) _ _
        (λ e h.
          let (now, first) = push_frame-HasTaken f o e in
          let (still, rest) = deliver-HasTaken fs (push_frame f o).1 now h in
          (still, rest ∙ rw first (append_assoc o.items (frame f ∷ []) (map frame fs))))
        (λ _ h. absurd (false≢true h))

  -- A delivery that succeeds has put the answer and the whole window into the outbox, in order.
  pub replay_to-HasTaken :
      (b : List ℕ) (fs : List (Frame M)) (o : Outbox M)
      → (replay_to b fs o).0 ≡ true
      → HasTaken o (direct b ∷ map frame fs) (replay_to b fs o).1
  unfolding replay_to
  replay_to-HasTaken b fs o =
      let P = λ (r : Bool × Outbox M). r.0 ≡ true → HasTaken o (direct b ∷ map frame fs) r.1 in
      if_cases P (push_direct b o).0 _ _
        (λ e h.
          let (now, first) = push_direct-HasTaken b o e in
          let (still, rest) = deliver-HasTaken fs (push_direct b o).1 now h in
          (still, rest ∙ rw first (append_assoc o.items (direct b ∷ []) (map frame fs))))
        (λ _ h. absurd (false≢true h))
