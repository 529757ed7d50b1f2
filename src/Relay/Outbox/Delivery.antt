-- ===== src/Relay/Outbox/Delivery.antt =====
-- What the receiver of an outbox gets, against what was accepted.
use mathlib.Core.List.{append_assoc, append-nil}
use agent_console.Base.{
  if_cases, Bool, Bool-cases, List, Option, String, [], ap, eqb, false, if◌then◌else◌, inl, inr,
  is_none, keep, keep-append, length, ltb, nat_eq, not, refl, string_eq, sym, true, ℕ, ◌++◌, ◌+◌,
  ◌||◌, ◌∙◌, ◌∷◌, ◌≡◌,
}
use agent_console.Relay.Frame.Messages.{Frame}
use agent_console.Relay.Outbox.{
  OutItem, frame, direct, close_item, PushError, Outbox, direct_reserve_bytes, Received, item,
  ended, waits, is_frame, new, push_frame, close, push_direct, pop, recv, Call, pushes_frame,
  pushes_direct, closes, receives,
}
use agent_console.Relay.Outbox.Limits.{step, run}

module _ {M : Type 0} where
  -- The items that a call adds to the accepted ones: those that it answers with success.
  abbrev pub accepts : Outbox M → Call M → List (OutItem M)
  accepts o (pushes_frame f) = if is_none (push_frame f o).0 then frame f ∷ [] else []
  accepts o (pushes_direct b) = if (push_direct b o).0 then direct b ∷ [] else []
  accepts o _ = []

  abbrev pub item_of : Received M → List (OutItem M)
  item_of (item i) = i ∷ []
  item_of _ = []

  abbrev pub hands_over : Outbox M → Call M → List (OutItem M)
  hands_over o receives = item_of (recv o).0
  hands_over o _ = []

  unfoldable pub accepted : Outbox M → List (Call M) → List (OutItem M)
  accepted o [] = []
  accepted o (c ∷ cs) = accepts o c ++ accepted (step o c) cs

  unfoldable pub received : Outbox M → List (Call M) → List (OutItem M)
  received o [] = []
  received o (c ∷ cs) = hands_over o c ++ received (step o c) cs

  abbrev pub is_direct : OutItem M → Bool
  is_direct (direct b) = true
  is_direct _ = false

  abbrev pub directs : List (OutItem M) → List (OutItem M)
  directs = keep is_direct

  directs_of_rest : (xs : List (OutItem M)) → directs (keep (λ i. not (is_frame i)) xs) ≡ directs xs
  directs_of_rest [] = refl
  directs_of_rest (frame f ∷ xs) = directs_of_rest xs
  directs_of_rest (direct b ∷ xs) = ap (λ l. direct b ∷ l) (directs_of_rest xs)
  directs_of_rest (close_item r ∷ xs) = directs_of_rest xs

  close-directs :
      (reason : String) (o : Outbox M) → directs (close reason o).items ≡ directs o.items
  unfolding close
  close-directs reason o =
      if_cases (λ (q : Outbox M). directs q.items ≡ directs o.items) o.closed _ _ (λ _. refl)
        λ _.
          keep-append is_direct (keep (λ i. not (is_frame i)) o.items) (close_item reason ∷ [])
          ∙ append-nil _
          ∙ directs_of_rest o.items

  unchanged : (xs : List (OutItem M)) → directs xs ≡ directs (xs ++ [])
  unchanged xs = ap directs (sym (append-nil xs))

  pop-directs :
      (items : List (OutItem M)) (o : Outbox M)
      → o.items ≡ items
      → directs (item_of (pop items o).0 ++ (pop items o).1.items) ≡ directs (o.items ++ [])
  pop-directs [] o e = elim (Bool-cases o.closed) [
    | inl c ↦
        ap (λ b. directs (item_of (if b then ended else waits) ++ o.items)) c ∙ unchanged o.items
    | inr c ↦
        ap (λ b. directs (item_of (if b then ended else waits) ++ o.items)) c ∙ unchanged o.items
  ]
  pop-directs (frame f ∷ rest) o e = sym (ap directs e) ∙ unchanged o.items
  pop-directs (direct b ∷ rest) o e = sym (ap directs e) ∙ unchanged o.items
  pop-directs (close_item r ∷ rest) o e = sym (ap directs e) ∙ unchanged o.items

  frame-directs :
      (f : Frame M) (o : Outbox M)
      → directs (push_frame f o).1.items ≡ directs (o.items ++ accepts o (pushes_frame f))
  unfolding push_frame
  frame-directs f o =
      let P = λ (r : Option PushError × Outbox M).
        directs r.1.items ≡ directs (o.items ++ (if is_none r.0 then frame f ∷ [] else [])) in
      if_cases P o.closed _ _ (λ _. unchanged o.items)
        λ _.
          if_cases P (ltb o.capacity (o.frames + 1) || ltb o.max_bytes (o.bytes + f.bytes_len)) _ _
            (λ _. unchanged o.items) (λ _. refl)

  direct-directs :
      (b : List ℕ) (o : Outbox M)
      → directs (push_direct b o).1.items ≡ directs (o.items ++ accepts o (pushes_direct b))
  unfolding push_direct
  direct-directs b o =
      let P = λ (r : Bool × Outbox M).
        directs r.1.items ≡ directs (o.items ++ (if r.0 then direct b ∷ [] else [])) in
      if_cases P o.closed _ _ (λ _. unchanged o.items)
        λ _.
          if_cases P (eqb (length b) 0) _ _ (λ _. unchanged o.items)
            λ _.
              if_cases P (ltb (o.max_bytes + direct_reserve_bytes) (o.bytes + length b)) _ _
                (λ _. close-directs "OUTBOX_OVERLOAD" o ∙ unchanged o.items) (λ _. refl)

  -- One call: what it hands over, then the new queue, against the old queue and what it accepts.
  step-directs :
      (o : Outbox M) (c : Call M)
      → directs (hands_over o c ++ (step o c).items) ≡ directs (o.items ++ accepts o c)
  unfolding step recv push_frame push_direct
  step-directs o (pushes_frame f) = frame-directs f o
  step-directs o (pushes_direct b) = direct-directs b o
  step-directs o (closes reason) = close-directs reason o ∙ ap directs (sym (append-nil o.items))
  step-directs o receives = pop-directs o.items o refl

  directs-append : (xs ys : List (OutItem M)) → directs (xs ++ ys) ≡ directs xs ++ directs ys
  directs-append xs ys = keep-append is_direct xs ys

  directs-run :
      (o : Outbox M) (cs : List (Call M))
      → directs (received o cs) ++ directs (run o cs).items
        ≡ directs o.items ++ directs (accepted o cs)
  unfolding received accepted run
  directs-run o [] = sym (append-nil (directs o.items))
  directs-run o (c ∷ cs) =
      let one =
        sym (directs-append (hands_over o c) (step o c).items)
        ∙ step-directs o c
        ∙ directs-append o.items (accepts o c) in
      rw
        (
          directs-append (hands_over o c) (received (step o c) cs),
          directs-append (accepts o c) (accepted (step o c) cs),
        )
        (append_assoc (directs (hands_over o c)) _ _
          ∙ ap (λ l. directs (hands_over o c) ++ l) (directs-run (step o c) cs)
          ∙ sym (append_assoc (directs (hands_over o c)) _ _)
          ∙ ap (λ l. l ++ directs (accepted (step o c) cs)) one
          ∙ append_assoc (directs o.items) _ _)

  -- Over any calls on a new outbox: the direct messages that were received, followed by those
  -- still queued, are exactly those that were accepted, in order. Closing loses none of them.
  pub directs_delivered :
      (capacity max_bytes : ℕ) (cs : List (Call M))
      → let o = new capacity max_bytes in
        directs (received o cs) ++ directs (run o cs).items ≡ directs (accepted o cs)
  unfolding new
  directs_delivered capacity max_bytes cs = directs-run (new capacity max_bytes) cs
