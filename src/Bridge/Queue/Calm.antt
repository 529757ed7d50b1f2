-- ===== src/Bridge/Queue/Calm.antt =====
-- The parts of commands/queue.rs while SQLite does not fail: what each leaves of a session's entry.
use mathlib.Core.Option.{some-injective}
use agent_console.Base.{
  ==_refl, Bool, Bool-cases, List, Option, Option-cases, String, [], ap, false, if◌then◌else◌, inl,
  inr, is_some, length, lookup, lookup-remove, nat_eq, none, refl, some, string_eq, suc, sym, true,
  zero, ℕ, ◌+◌, ◌∙◌, ◌∷◌, ◌≡◌, ◌≤◌,
}
use agent_console.Bridge.Store.{
  session_eq, SessionKeyRef, NextTurnEntry, queued, paused, ok, LocalStore, get_next_turn,
  set_next_turn, clear_next_turn, update_receipt_status, entry_of,
}
use agent_console.Bridge.Store.Laws.{entry_at, get-set_next_turn}
use agent_console.Bridge.Queue.State.{
  ReceiptState, dispatched_to_codex, receipt_completed, rejected, receipt_outcome_unknown,
  receipt_status_str, Outcome, done, failed_with, World, Query, query, is_busy, retry, retry_busy,
}
use agent_console.Bridge.Queue.Manager.{same_status, with_status}
use agent_console.Bridge.Queue.Events.{
  mark_paused, after_execution, error_status, close_entry, follow_receipts,
}
use agent_console.Bridge.Queue.Pausing.{is_queued}

-- 1 while the session's entry waits to be sent.
abbrev pub due : SessionKeyRef → World → ℕ
due session w = if is_queued (entry_at session w.store) then 1 else 0

-- From `w` to `v` the entry is sent at most once, and then no longer due; no fault is left.
abbrev pub Spends : SessionKeyRef → World → World → Type 0
Spends session w v =
    (v.faults ≡ []) × (length v.sent + due session v ≤ length w.sent + due session w)

-- From `w` to `v` no command is sent, and no fault is left.
abbrev pub Quiet : World → World → Type 0
Quiet w v = (v.faults ≡ []) × (v.sent ≡ w.sent)

-- Moreover the session's entry is not due in `v`.
abbrev pub Rests : SessionKeyRef → World → World → Type 0
Rests session w v = (v.faults ≡ []) × (v.sent ≡ w.sent) × (due session v ≡ 0)

query_free :
    {A : Type 0} (op : Query A) (w : World)
    → w.faults ≡ []
    → query op w ≡ ((op w.store).0, record w { store = (op w.store).1 })
unfolding query
query_free op w h = rw h refl

query-Quiet : {A : Type 0} (op : Query A) (w : World) → w.faults ≡ [] → Quiet w (query op w).1
query-Quiet op w h =
    (ap (λ q. q.1.faults) (query_free op w h) ∙ h, ap (λ q. q.1.sent) (query_free op w h))

module _ {A : Type 0} (op : Query A) (settles : (s : LocalStore) → is_busy (op s).0 ≡ false) where
  retry_is_query : (n : ℕ) (w : World) → w.faults ≡ [] → retry n op w ≡ query op w
  unfolding retry
  retry_is_query zero w h = refl
  retry_is_query (suc n) w h =
      let calm : is_busy (query op w).0 ≡ false =
        ap (λ q. is_busy q.0) (query_free op w h) ∙ settles w.store in
      rw calm refl

  retry_free :
      (w : World)
      → w.faults ≡ []
      → retry_busy op w ≡ ((op w.store).0, record w { store = (op w.store).1 })
  unfolding retry_busy
  retry_free w h = retry_is_query 9 w h ∙ query_free op w h

  -- A retried write leaves what the operation leaves.
  retry-Rests :
      (session : SessionKeyRef) (w : World)
      → w.faults ≡ []
      → is_queued (entry_at session (op w.store).1) ≡ false
      → Rests session w (retry_busy op w).1
  retry-Rests session w h empty =
      let same = retry_free w h in
      (
        ap (λ q. q.1.faults) same ∙ h,
        ap (λ q. q.1.sent) same,
        ap (λ q. due session q.1) same ∙ ap (λ b. if b then 1 else 0) empty,
      )

pub read_free :
    (session : SessionKeyRef) (w : World)
    → w.faults ≡ []
    → query (get_next_turn session) w ≡ (ok (entry_at session w.store), w)
unfolding entry_at get_next_turn
read_free session w h = query_free (get_next_turn session) w h

entry_at-session :
    (session : SessionKeyRef) (s : LocalStore) (e : NextTurnEntry)
    → entry_at session s ≡ some e
    → e.session ≡ session
unfolding entry_at get_next_turn entry_of
entry_at-session session s e h = elim (Option-cases (lookup session s.next_turns)) [
  | inl q ↦ let f : none ≡ some e = sym (rw q refl) ∙ h in cc
  | inr (r, q) ↦
      let f : some (entry_of session r) ≡ some e = sym (rw q refl) ∙ h in
      sym (ap (λ x. x.session) (some-injective _ _ f))
]

set_free :
    (now : String) (e : NextTurnEntry) (s : LocalStore) → (set_next_turn now e true s).0 ≡ ok tt
unfolding set_next_turn
set_free now e s = elim (Bool-cases (is_some (lookup e.session s.next_turns))) [
  | inl b ↦ rw b refl
  | inr b ↦ rw b refl
]

set_paused-due :
    (now : String) (session : SessionKeyRef) (e : NextTurnEntry) (s : LocalStore)
    → e.session ≡ session
    → is_queued (entry_at session (set_next_turn now (with_status paused now e) true s).1) ≡ false
set_paused-due now session e s same =
    let p = with_status paused now e in
    rw (get-set_next_turn now p true s session (set_free now p s), same, ==_refl session) refl

set_settles :
    (now : String) (e : NextTurnEntry) (s : LocalStore)
    → is_busy (set_next_turn now e true s).0 ≡ false
set_settles now e s = ap is_busy (set_free now e s)

due_of :
    (session : SessionKeyRef) (w : World) (o : Option NextTurnEntry)
    → entry_at session w.store ≡ o
    → is_queued o ≡ false
    → due session w ≡ 0
due_of session w o e h = ap (λ x. if is_queued x then 1 else 0) e ∙ ap (λ b. if b then 1 else 0) h

pub mark_paused-Rests :
    (session : SessionKeyRef) (w : World) → w.faults ≡ [] → Rests session w (mark_paused session w)
unfolding mark_paused
mark_paused-Rests session w h =
    rw (read_free session w h) (elim (Option-cases (entry_at session w.store)) [
      | inl q ↦ rw q (h, refl, due_of session w none q refl)
      | inr (e, q) ↦ elim (Bool-cases (same_status e.status queued)) [
        | inl b ↦
            rw (q, b)
              (retry-Rests (set_next_turn w.now (with_status paused w.now e) true)
                (set_settles w.now (with_status paused w.now e)) session w h
                (set_paused-due w.now session e w.store (entry_at-session session w.store e q)))
        | inr b ↦ rw (q, b) (h, refl, due_of session w (some e) q b)
      ]
    ])

clear-due :
    (session : SessionKeyRef) (s : LocalStore)
    → is_queued (entry_at session (clear_next_turn session s).1) ≡ false
unfolding entry_at get_next_turn clear_next_turn
clear-due session s = rw (lookup-remove session session s.next_turns, ==_refl session) refl

follow_receipts-Quiet :
    (id : String) (rs : List ReceiptState) (w : World)
    → w.faults ≡ []
    → Quiet w (follow_receipts id rs w).1
unfolding follow_receipts
follow_receipts-Quiet id [] w h = (h, refl)
follow_receipts-Quiet id (r ∷ rs) w h =
    let v = (query (update_receipt_status w.now id (receipt_status_str r)) w).1 in
    let here = query-Quiet (update_receipt_status w.now id (receipt_status_str r)) w h in
    let later = follow_receipts-Quiet id rs v here.0 in on r here (later.0, later.1 ∙ here.1)
  where
    on :
        (r : ReceiptState)
        → Quiet w (query (update_receipt_status w.now id (receipt_status_str r)) w).1
        → Quiet w
            (follow_receipts id rs
              (query (update_receipt_status w.now id (receipt_status_str r)) w).1).1
        → Quiet w (follow_receipts id (r ∷ rs) w).1
    on dispatched_to_codex here later = later
    on receipt_completed here later = here
    on (rejected code) here later = here
    on receipt_outcome_unknown here later = here

close_entry-Rests :
    (session : SessionKeyRef) (r : Bool × World)
    → r.1.faults ≡ []
    → Rests session r.1 (close_entry session r)
close_entry-Rests session (true, w) h =
    retry-Rests (clear_next_turn session) (λ s. unfold clear_next_turn in refl) session w h
      (clear-due session w.store)
close_entry-Rests session (false, w) h = mark_paused-Rests session w h

pub after_execution-Rests :
    (session : SessionKeyRef) (id : String) (exec : Outcome (List ReceiptState)) (w : World)
    → w.faults ≡ []
    → Rests session w (after_execution session id exec w)
after_execution-Rests session id (done receipts) w h =
    let (free, sent) = follow_receipts-Quiet id receipts w h in
    let (free', sent', rest) = close_entry-Rests session (follow_receipts id receipts w) free in
    (free', sent' ∙ sent, rest)
after_execution-Rests session id (failed_with code) w h =
    let (free, sent) = query-Quiet (update_receipt_status w.now id (error_status code)) w h in
    let (free', sent', rest) =
      mark_paused-Rests session (query (update_receipt_status w.now id (error_status code)) w).1
        free in
    (free', sent' ∙ sent, rest)
