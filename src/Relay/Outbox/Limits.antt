-- ===== src/Relay/Outbox/Limits.antt =====
-- The budgets of the outbox.
use agent_console.Base.{
  if_cases, Bool, List, String, [], ap, arith, eqb, false, if◌then◌else◌, keep, length, ltb, nat_eq,
  not, refl, string_eq, total, total-append, total-keep-le, true, ℕ, ◌++◌, ◌+◌, ◌∷◌, ◌≡◌, ◌≤◌,
}
use agent_console.Relay.Frame.Messages.{Frame}
use agent_console.Relay.Outbox.{
  OutItem, frame, direct, close_item, Outbox, direct_reserve_bytes, is_frame, direct_bytes, new,
  push_frame, close, push_direct, pop, recv, Call, pushes_frame, pushes_direct, closes, receives,
}

module _ {M : Type 0} where
  abbrev pub item_bytes : OutItem M → ℕ
  item_bytes (frame f) = f.bytes_len
  item_bytes (direct b) = length b
  item_bytes (close_item reason) = 0

  abbrev pub frame_count : List (OutItem M) → ℕ
  frame_count [] = 0
  frame_count (i ∷ is) = (if is_frame i then 1 else 0) + frame_count is

  -- The counts are those of the queue, within the budgets; a closed outbox holds no frame.
  pub record IsSound (o : Outbox M) : Type 0 where
    pub frames_exact : o.frames ≡ frame_count o.items
    pub bytes_exact : o.bytes ≡ total item_bytes o.items
    pub frames_bound : o.frames ≤ o.capacity
    pub bytes_bound : o.bytes ≤ o.max_bytes + direct_reserve_bytes
    pub closed_frames : o.closed ≡ true → o.frames ≡ 0

  frame_count-append :
      (xs ys : List (OutItem M)) → frame_count (xs ++ ys) ≡ frame_count xs + frame_count ys
  frame_count-append [] ys = omega arith
  frame_count-append (x ∷ xs) ys = omega (arith, frame_count-append xs ys)

  no_frames : (xs : List (OutItem M)) → frame_count (keep (λ i. not (is_frame i)) xs) ≡ 0
  no_frames [] = refl
  no_frames (frame f ∷ xs) = no_frames xs
  no_frames (direct b ∷ xs) = omega (arith, no_frames xs)
  no_frames (close_item r ∷ xs) = omega (arith, no_frames xs)

  rest_bytes :
      (xs : List (OutItem M))
      → total direct_bytes (keep (λ i. not (is_frame i)) xs)
        ≡ total item_bytes (keep (λ i. not (is_frame i)) xs)
  rest_bytes [] = refl
  rest_bytes (frame f ∷ xs) = rest_bytes xs
  rest_bytes (direct b ∷ xs) = ap (λ n. length b + n) (rest_bytes xs)
  rest_bytes (close_item r ∷ xs) = omega (arith, rest_bytes xs)

  new-IsSound : (capacity max_bytes : ℕ) → IsSound (new capacity max_bytes)
  unfolding new
  new-IsSound capacity max_bytes = ground arith

  push_frame-IsSound : (f : Frame M) (o : Outbox M) → IsSound o → IsSound (push_frame f o).1
  unfolding push_frame
  push_frame-IsSound f o h = ground (
    arith,
    frame_count-append o.items (frame f ∷ []),
    total-append item_bytes o.items (frame f ∷ []),
  )

  close-IsSound : (reason : String) (o : Outbox M) → IsSound o → IsSound (close reason o)
  unfolding close
  close-IsSound reason o h =
      let rest = keep (λ i. not (is_frame i)) o.items in
      ground (
        arith,
        frame_count-append rest (close_item reason ∷ []),
        total-append item_bytes rest (close_item reason ∷ []),
        no_frames o.items,
        rest_bytes o.items,
        total-keep-le item_bytes (λ i. not (is_frame i)) o.items,
      )

  direct-IsSound :
      (b : List ℕ) (o : Outbox M)
      → IsSound o
      → o.closed ≡ false
      → ltb (o.max_bytes + direct_reserve_bytes) (o.bytes + length b) ≡ false
      → IsSound (record o { items = o.items ++ direct b ∷ []; bytes = o.bytes + length b })
  direct-IsSound b o h e x = ground (
    arith,
    frame_count-append o.items (direct b ∷ []),
    total-append item_bytes o.items (direct b ∷ []),
  )

  push_direct-IsSound : (b : List ℕ) (o : Outbox M) → IsSound o → IsSound (push_direct b o).1
  unfolding push_direct
  push_direct-IsSound b o h =
      let P = λ (r : Bool × Outbox M). IsSound r.1 in
      if_cases P o.closed _ _ (λ _. h)
        λ e.
          if_cases P (eqb (length b) 0) _ _ (λ _. h)
            λ _.
              if_cases P (ltb (o.max_bytes + direct_reserve_bytes) (o.bytes + length b)) _ _
                (λ _. close-IsSound "OUTBOX_OVERLOAD" o h) (direct-IsSound b o h e)

  pop-IsSound :
      (items : List (OutItem M)) (o : Outbox M)
      → o.items ≡ items
      → IsSound o
      → IsSound (pop items o).1
  pop-IsSound [] o e h = h
  pop-IsSound (frame f ∷ rest) o e h = ground (arith, ap frame_count e, ap (total item_bytes) e)
  pop-IsSound (direct b ∷ rest) o e h = ground (arith, ap frame_count e, ap (total item_bytes) e)
  pop-IsSound (close_item r ∷ rest) o e h =
      ground (arith, ap frame_count e, ap (total item_bytes) e)

  recv-IsSound : (o : Outbox M) → IsSound o → IsSound (recv o).1
  unfolding recv
  recv-IsSound o h = pop-IsSound o.items o refl h

  -- The outbox after a call.
  unfoldable pub step : Outbox M → Call M → Outbox M
  unfolding push_frame push_direct close recv
  step o (pushes_frame f) = (push_frame f o).1
  step o (pushes_direct b) = (push_direct b o).1
  step o (closes reason) = close reason o
  step o receives = (recv o).1

  unfoldable pub run : Outbox M → List (Call M) → Outbox M
  unfolding step
  run o [] = o
  run o (c ∷ cs) = run (step o c) cs

  step-IsSound : (o : Outbox M) (c : Call M) → IsSound o → IsSound (step o c)
  unfolding step
  step-IsSound o (pushes_frame f) h = push_frame-IsSound f o h
  step-IsSound o (pushes_direct b) h = push_direct-IsSound b o h
  step-IsSound o (closes reason) h = close-IsSound reason o h
  step-IsSound o receives h = recv-IsSound o h

  run_keeps : (o : Outbox M) (cs : List (Call M)) → IsSound o → IsSound (run o cs)
  unfolding run
  run_keeps o [] h = h
  run_keeps o (c ∷ cs) h = run_keeps (step o c) cs (step-IsSound o c h)

  -- After any calls on a new outbox its counts of frames and bytes are those of the queue, the
  -- frames are at most `capacity`, the bytes at most `max_bytes` and the reserve for direct
  -- messages, and a closed outbox holds no frame.
  pub run-new-IsSound :
      (capacity max_bytes : ℕ) (cs : List (Call M)) → IsSound (run (new capacity max_bytes) cs)
  run-new-IsSound capacity max_bytes cs = run_keeps _ cs (new-IsSound capacity max_bytes)
