-- ===== src/Relay/Outbox/Fifo.antt =====
-- While it is open, the outbox is a queue: first in, first out, without loss.
use mathlib.Core.Bool.{false≢true}
use mathlib.Core.List.{append_assoc, append-nil}
use agent_console.Base.{
  if_cases, Bool, List, Option, String, [], ap, eqb, false, if◌then◌else◌, is_none, length, ltb,
  nat_eq, refl, string_eq, sym, true, ℕ, ◌++◌, ◌+◌, ◌||◌, ◌∙◌, ◌∷◌, ◌≡◌,
}
use agent_console.Relay.Frame.Messages.{Frame}
use agent_console.Relay.Outbox.{
  OutItem, frame, direct, close_item, PushError, Outbox, direct_reserve_bytes, ended, waits, new,
  push_frame, close, push_direct, pop, recv, Call, pushes_frame, pushes_direct, closes, receives,
}
use agent_console.Relay.Outbox.Limits.{step, run}
use agent_console.Relay.Outbox.Delivery.{accepts, item_of, hands_over, accepted, received}

module _ {M : Type 0} where
  pub close-closed : (reason : String) (o : Outbox M) → (close reason o).closed ≡ true
  unfolding close
  close-closed reason o =
      if_cases (λ (q : Outbox M). q.closed ≡ true) o.closed _ _ (λ e. e) (λ _. refl)

  -- If the outbox is open after a call, it was open before, and the call moved the queue on.
  abbrev MovesOn : Outbox M → Outbox M → List (OutItem M) → List (OutItem M) → Type 0
  MovesOn o q taken added =
      q.closed ≡ false → (o.closed ≡ false) × (taken ++ q.items ≡ o.items ++ added)

  stands : (o : Outbox M) → MovesOn o o [] []
  stands o h = (h, sym (append-nil o.items))

  frame-MovesOn :
      (f : Frame M) (o : Outbox M) → MovesOn o (push_frame f o).1 [] (accepts o (pushes_frame f))
  unfolding push_frame
  frame-MovesOn f o =
      let P = λ (r : Option PushError × Outbox M).
        MovesOn o r.1 [] (if is_none r.0 then frame f ∷ [] else []) in
      if_cases P o.closed _ _ (λ _. stands o)
        λ _.
          if_cases P (ltb o.capacity (o.frames + 1) || ltb o.max_bytes (o.bytes + f.bytes_len)) _ _
            (λ _. stands o) (λ _ h. (h, refl))

  direct-MovesOn :
      (b : List ℕ) (o : Outbox M) → MovesOn o (push_direct b o).1 [] (accepts o (pushes_direct b))
  unfolding push_direct
  direct-MovesOn b o =
      let P = λ (r : Bool × Outbox M). MovesOn o r.1 [] (if r.0 then direct b ∷ [] else []) in
      if_cases P o.closed _ _ (λ _. stands o)
        λ _.
          if_cases P (eqb (length b) 0) _ _ (λ _. stands o)
            λ _.
              if_cases P (ltb (o.max_bytes + direct_reserve_bytes) (o.bytes + length b)) _ _
                (λ _ h. absurd (false≢true (sym h ∙ close-closed "OUTBOX_OVERLOAD" o)))
                (λ _ h. (h, refl))

  pop-MovesOn :
      (items : List (OutItem M)) (o : Outbox M)
      → o.items ≡ items
      → MovesOn o (pop items o).1 (item_of (pop items o).0) []
  pop-MovesOn [] o e h =
      (h, ap (λ b. item_of (if b then ended else waits) ++ o.items) h ∙ sym (append-nil o.items))
  pop-MovesOn (frame f ∷ rest) o e h = (h, sym e ∙ sym (append-nil o.items))
  pop-MovesOn (direct b ∷ rest) o e h = (h, sym e ∙ sym (append-nil o.items))
  pop-MovesOn (close_item r ∷ rest) o e h = (h, sym e ∙ sym (append-nil o.items))

  step-MovesOn : (o : Outbox M) (c : Call M) → MovesOn o (step o c) (hands_over o c) (accepts o c)
  unfolding step recv
  step-MovesOn o (pushes_frame f) h = frame-MovesOn f o h
  step-MovesOn o (pushes_direct b) h = direct-MovesOn b o h
  step-MovesOn o (closes reason) h = absurd (false≢true (sym h ∙ close-closed reason o))
  step-MovesOn o receives h = pop-MovesOn o.items o refl h

  run-MovesOn :
      (o : Outbox M) (cs : List (Call M)) → MovesOn o (run o cs) (received o cs) (accepted o cs)
  unfolding received accepted run
  run-MovesOn o [] h = stands o h
  run-MovesOn o (c ∷ cs) h =
      let (mid, later) = run-MovesOn (step o c) cs h in
      let (start, now) = step-MovesOn o c mid in
      (
        start,
        append_assoc (hands_over o c) (received (step o c) cs) (run (step o c) cs).items
            ∙ ap (λ l. hands_over o c ++ l) later
            ∙ sym (append_assoc (hands_over o c) (step o c).items (accepted (step o c) cs))
            ∙ ap (λ l. l ++ accepted (step o c) cs) now
            ∙ append_assoc o.items (accepts o c) (accepted (step o c) cs),
      )

  -- Over any calls on a new outbox that leave it open, what was received followed by what is
  -- queued is exactly what was accepted, in order: no frame is dropped, merged or overtaken.
  pub run_fifo :
      (capacity max_bytes : ℕ) (cs : List (Call M))
      → let o = new capacity max_bytes in
        (run o cs).closed ≡ false → received o cs ++ (run o cs).items ≡ accepted o cs
  unfolding new
  run_fifo capacity max_bytes cs h = (run-MovesOn (new capacity max_bytes) cs h).1
