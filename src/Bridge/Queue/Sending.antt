-- ===== src/Bridge/Queue/Sending.antt =====
-- How often the events of one session send its queued turn, when SQLite does not fail.
use agent_console.Base.{
  if_cases, List, Option, String, [], ap, arith, if◌then◌else◌, length, nat_eq, none, not, refl,
  some, string_eq, true, ◌&&◌, ◌+◌, ◌==◌, ◌∙◌, ◌∷◌, ◌≡◌, ◌≤◌,
}
use agent_console.Bridge.Store.{session_eq, SessionKeyRef, NextTurnEntry, queued, ok}
use agent_console.Bridge.Store.Laws.{entry_at}
use agent_console.Bridge.Queue.State.{
  SessionKey, session_ref, TurnId, RuntimeSnapshot, idle, running, finishing, completed, failed,
  interrupted, unknown, DomainEvent, turn_lifecycle, other_event, ReceiptState, Outcome, done,
  failed_with, World,
}
use agent_console.Bridge.Queue.Manager.{same_status, contains}
use agent_console.Bridge.Queue.Events.{
  mark_paused, maybe_auto_send, auto_send_on, auto_send_with, send_queued, begin_send, is_free,
  overtaken, on_started, on_event, clear_inflight,
}
use agent_console.Bridge.Queue.Pausing.{is_queued, Happening, handle, handle_all}
use agent_console.Bridge.Queue.Calm.{
  Spends, after_execution-Rests, due, mark_paused-Rests, read_free,
}

queued-due :
    (session : SessionKeyRef) (w : World) (e : NextTurnEntry)
    → entry_at session w.store ≡ some e
    → same_status e.status queued ≡ true
    → due session w ≡ 1
queued-due session w e q b =
    ap (λ x. if is_queued x then 1 else 0) q ∙ ap (λ b. if b then 1 else 0) b

stays : (session : SessionKeyRef) (w : World) → w.faults ≡ [] → Spends session w w
stays session w h = (h, omega arith)

mark_paused-Spends :
    (session : SessionKeyRef) (w : World) → w.faults ≡ [] → Spends session w (mark_paused session w)
mark_paused-Spends session w h =
    let (free, sent, rest) = mark_paused-Rests session w h in
    (free, omega (arith, ap length sent, rest))

send_queued-Spends :
    (key : SessionKey) (id : String) (exec : Outcome (List ReceiptState)) (e : NextTurnEntry)
    (w : World)
    → w.faults ≡ []
    → due (session_ref key) w ≡ 1
    → Spends (session_ref key) w (send_queued key id exec e w)
send_queued-Spends key id exec e w h d =
    let (free, sent, rest) =
      after_execution-Rests (session_ref key) id exec (begin_send key id e w) h in
    (free, omega (arith, ap length sent, rest))

auto_send_with-Spends :
    (key : SessionKey) (id : String) (snap : Outcome RuntimeSnapshot)
    (exec : Outcome (List ReceiptState)) (e : NextTurnEntry) (w : World)
    → w.faults ≡ []
    → due (session_ref key) w ≡ 1
    → Spends (session_ref key) w (auto_send_with key id snap exec e w)
auto_send_with-Spends key id (failed_with code) exec e w h d =
    mark_paused-Spends (session_ref key) w h
auto_send_with-Spends key id (done snapshot) exec e w h d =
    if_cases (Spends (session_ref key) w) (is_free snapshot) _ _
      (λ _. send_queued-Spends key id exec e w h d) (λ _. stays (session_ref key) w h)

maybe_auto_send-Spends :
    (key : SessionKey) (id : String) (snap : Outcome RuntimeSnapshot)
    (exec : Outcome (List ReceiptState)) (w : World)
    → w.faults ≡ []
    → Spends (session_ref key) w (maybe_auto_send key id snap exec w)
unfolding maybe_auto_send
maybe_auto_send-Spends key id snap exec w h =
    rw (read_free (session_ref key) w h) (at (entry_at (session_ref key) w.store) refl)
  where
    at :
        (o : Option NextTurnEntry)
        → entry_at (session_ref key) w.store ≡ o
        → Spends (session_ref key) w (auto_send_on key id snap exec (ok o, w))
    at none q = stays (session_ref key) w h
    at (some e) q =
        if_cases (Spends (session_ref key) w) (same_status e.status queued)
          (auto_send_with key id snap exec e w) w
          (λ b. auto_send_with-Spends key id snap exec e w h (queued-due (session_ref key) w e q b))
          (λ _. stays (session_ref key) w h)

on_started-Spends :
    (key : SessionKey) (turn : TurnId) (w : World)
    → w.faults ≡ []
    → Spends (session_ref key) w (on_started key turn w)
on_started-Spends key turn w h =
    if_cases (Spends (session_ref key) w) (contains key.native_session_id w.auto_send_inflight) _ _
      (λ _. (h, omega arith))
      λ _. rw (read_free (session_ref key) w h) (over (entry_at (session_ref key) w.store))
  where
    over : (o : Option NextTurnEntry) → Spends (session_ref key) w (overtaken key turn (ok o, w))
    over none = stays (session_ref key) w h
    over (some e) =
        if_cases (Spends (session_ref key) w)
          (same_status e.status queued && not (e.after_turn_id == turn.id))
          (mark_paused (session_ref key) w) w (λ _. mark_paused-Spends (session_ref key) w h)
          (λ _. stays (session_ref key) w h)

on_event-Spends :
    (key : SessionKey) (id : String) (snap : Outcome RuntimeSnapshot)
    (exec : Outcome (List ReceiptState)) (event : DomainEvent) (w : World)
    → w.faults ≡ []
    → Spends (session_ref key) w (on_event key id snap exec event w)
unfolding on_event
on_event-Spends key id snap exec (turn_lifecycle turn idle (some completed)) w h =
    maybe_auto_send-Spends key id snap exec (clear_inflight key w) h
on_event-Spends key id snap exec (turn_lifecycle turn idle (some failed)) w h =
    mark_paused-Spends (session_ref key) (clear_inflight key w) h
on_event-Spends key id snap exec (turn_lifecycle turn idle (some interrupted)) w h =
    mark_paused-Spends (session_ref key) (clear_inflight key w) h
on_event-Spends key id snap exec (turn_lifecycle turn idle (some unknown)) w h = (h, omega arith)
on_event-Spends key id snap exec (turn_lifecycle turn idle none) w h = (h, omega arith)
on_event-Spends key id snap exec (turn_lifecycle turn running outcome) w h =
    on_started-Spends key turn w h
on_event-Spends key id snap exec (turn_lifecycle turn finishing outcome) w h =
    on_started-Spends key turn w h
on_event-Spends key id snap exec other_event w h = (h, omega arith)

handle_all-Spends :
    (key : SessionKey) (hs : List Happening) (w : World)
    → w.faults ≡ []
    → Spends (session_ref key) w (handle_all key w hs)
unfolding handle_all handle
handle_all-Spends key [] w h = (h, omega arith)
handle_all-Spends key (e ∷ es) w h =
    let (free, now) = on_event-Spends key e.id e.snap e.exec e.event w h in
    let (free', later) = handle_all-Spends key es (handle key w e) free in (free', omega arith)

-- If no query fails in SQLite, any sequence of events of a session sends its queued turn at most
-- once, whatever the adapter answers; and once it was sent, the entry no longer waits to be sent.
pub handle_all_sends_once :
    (key : SessionKey) (hs : List Happening) (w : World)
    → w.faults ≡ []
    → let v = handle_all key w hs in
      length v.sent + due (session_ref key) v ≤ length w.sent + due (session_ref key) w
handle_all_sends_once key hs w h = (handle_all-Spends key hs w h).1
