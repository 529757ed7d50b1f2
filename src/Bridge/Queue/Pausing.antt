-- ===== src/Bridge/Queue/Pausing.antt =====
-- Events of commands/queue.rs on a session whose entry is paused or absent.
use agent_console.Base.{
  Bool-cases, inl, inr, remove, ◌==◌, ◌⊎◌, Table, if_cases, Bool, List, Option, String, [], ap,
  false, nat_eq, none, refl, some, string_eq, ◌∙◌, ◌∷◌, ◌≡◌,
}
use agent_console.Bridge.Store.{
  session_eq, SessionKeyRef, NextTurnEntry, queued, StoreError, Stored, ok, err, get_next_turn,
}
use agent_console.Bridge.Store.Laws.{entry_at}
use agent_console.Bridge.Queue.State.{
  SessionKey, session_ref, TurnId, RuntimeSnapshot, idle, running, finishing, completed, failed,
  interrupted, unknown, DomainEvent, turn_lifecycle, other_event, ReceiptState, Outcome, World,
  query, query_at,
}
use agent_console.Bridge.Queue.Manager.{same_status, contains}
use agent_console.Bridge.Queue.Events.{
  mark_paused, mark_paused_on, maybe_auto_send, auto_send_on, overtaken, on_started, on_event,
  clear_inflight,
}

-- Whether an entry is there and waits to be sent.
abbrev pub is_queued : Option NextTurnEntry → Bool
is_queued none = false
is_queued (some e) = same_status e.status queued

abbrev pub reads_queued : Stored (Option NextTurnEntry) → Bool
reads_queued (ok e) = is_queued e
reads_queued (err e) = false

-- Nothing changed but what the answers of SQLite are.
abbrev SameTables : World → World → Type 0
SameTables w v =
    (v.store ≡ w.store)
    × (v.sent ≡ w.sent)
    × (v.watchers ≡ w.watchers)
    × (v.auto_send_inflight ≡ w.auto_send_inflight)

-- The store, the commands sent and the watchers are the same in both worlds, and so are the marks
-- of sending, but for that of the session, which may be gone.
abbrev pub Untouched : SessionKey → World → World → Type 0
Untouched key w v =
    (v.store ≡ w.store)
    × (v.sent ≡ w.sent)
    × (v.watchers ≡ w.watchers)
    × ((v.auto_send_inflight ≡ w.auto_send_inflight)
        ⊎ (v.auto_send_inflight ≡ remove key.native_session_id w.auto_send_inflight))

remove-remove {ℓ} :
    {V : Type ℓ} (k : String) (t : Table String V) → remove k (remove k t) ≡ remove k t
unfolding remove
remove-remove k [] = refl
remove-remove k ((j, v) ∷ t) = elim (Bool-cases (j == k)) [
  | inl e ↦ rw e (remove-remove k t)
  | inr e ↦ rw (e, e) (ap (λ l. (j, v) ∷ l) (remove-remove k t))
]

Untouched-refl : (key : SessionKey) (w : World) → Untouched key w w
Untouched-refl key w = (refl, refl, refl, inl refl)

Untouched-trans :
    (key : SessionKey) (u w v : World) → Untouched key u w → Untouched key w v → Untouched key u v
Untouched-trans key u w v (a, b, c, d) (a', b', c', d') = (
  a' ∙ a,
  b' ∙ b,
  c' ∙ c,
  elim d [
    | inl x ↦ elim d' [
      | inl y ↦ inl (y ∙ x)
      | inr y ↦ inr (y ∙ ap (remove key.native_session_id) x)
    ]
    | inr x ↦ elim d' [
      | inl y ↦ inr (y ∙ x)
      | inr y ↦ inr (
          y
          ∙ ap (remove key.native_session_id) x
          ∙ remove-remove key.native_session_id u.auto_send_inflight)
    ]
  ],
)

clear_inflight-Untouched : (key : SessionKey) (w : World) → Untouched key w (clear_inflight key w)
clear_inflight-Untouched key w = (refl, refl, refl, inr refl)

after_clearing :
    (key : SessionKey) (w v : World) → Untouched key (clear_inflight key w) v → Untouched key w v
after_clearing key w v =
    Untouched-trans key w (clear_inflight key w) v (clear_inflight-Untouched key w)

read-SameTables :
    (session : SessionKeyRef) (w : World) → SameTables w (query (get_next_turn session) w).1
unfolding query get_next_turn
read-SameTables session w = at_faults w.faults
  where
    at_faults :
        (fs : List (Option StoreError)) → SameTables w (query_at (get_next_turn session) fs w).1
    at_faults [] = (refl, refl, refl, refl)
    at_faults (none ∷ fs) = (refl, refl, refl, refl)
    at_faults (some e ∷ fs) = (refl, refl, refl, refl)

read-quiet :
    (session : SessionKeyRef) (w : World)
    → is_queued (entry_at session w.store) ≡ false
    → reads_queued (query (get_next_turn session) w).0 ≡ false
unfolding query get_next_turn entry_at
read-quiet session w h = at_faults w.faults
  where
    at_faults :
        (fs : List (Option StoreError))
        → reads_queued (query_at (get_next_turn session) fs w).0 ≡ false
    at_faults [] = h
    at_faults (none ∷ fs) = h
    at_faults (some e ∷ fs) = refl

mark_paused_on-quiet :
    (r : Stored (Option NextTurnEntry) × World) → reads_queued r.0 ≡ false → mark_paused_on r ≡ r.1
mark_paused_on-quiet (ok none, w) h = refl
mark_paused_on-quiet (ok (some e), w) h = rw h refl
mark_paused_on-quiet (err e, w) h = refl

auto_send_on-quiet :
    (key : SessionKey) (id : String) (snap : Outcome RuntimeSnapshot)
    (exec : Outcome (List ReceiptState)) (r : Stored (Option NextTurnEntry) × World)
    → reads_queued r.0 ≡ false
    → auto_send_on key id snap exec r ≡ r.1
auto_send_on-quiet key id snap exec (ok none, w) h = refl
auto_send_on-quiet key id snap exec (ok (some e), w) h = rw h refl
auto_send_on-quiet key id snap exec (err e, w) h = refl

overtaken-quiet :
    (key : SessionKey) (turn : TurnId) (r : Stored (Option NextTurnEntry) × World)
    → reads_queued r.0 ≡ false
    → overtaken key turn r ≡ r.1
overtaken-quiet key turn (ok none, w) h = refl
overtaken-quiet key turn (ok (some e), w) h = rw h refl
overtaken-quiet key turn (err e, w) h = refl

module _ (key : SessionKey) (w : World)
    (h : is_queued (entry_at (session_ref key) w.store) ≡ false) where
  after_read : {v : World} → v ≡ (query (get_next_turn (session_ref key)) w).1 → Untouched key w v
  after_read e =
      let (store, sent, watchers, marks) = read-SameTables (session_ref key) w in
      (
        ap (λ x. x.store) e ∙ store,
        ap (λ x. x.sent) e ∙ sent,
        ap (λ x. x.watchers) e ∙ watchers,
        inl (ap (λ x. x.auto_send_inflight) e ∙ marks),
      )

  mark_paused-quiet : Untouched key w (mark_paused (session_ref key) w)
  unfolding mark_paused
  mark_paused-quiet = after_read (mark_paused_on-quiet _ (read-quiet (session_ref key) w h))

  maybe_auto_send-quiet :
      (id : String) (snap : Outcome RuntimeSnapshot) (exec : Outcome (List ReceiptState))
      → Untouched key w (maybe_auto_send key id snap exec w)
  unfolding maybe_auto_send
  maybe_auto_send-quiet id snap exec =
      after_read (auto_send_on-quiet key id snap exec _ (read-quiet (session_ref key) w h))

  overtaken_quiet :
      (turn : TurnId)
      → Untouched key w (overtaken key turn (query (get_next_turn (session_ref key)) w))
  overtaken_quiet turn = after_read (overtaken-quiet key turn _ (read-quiet (session_ref key) w h))

  on_started-quiet : (turn : TurnId) → Untouched key w (on_started key turn w)
  on_started-quiet turn =
      if_cases (Untouched key w) (contains key.native_session_id w.auto_send_inflight) _ _
        (λ b. clear_inflight-Untouched key w) (λ b. overtaken_quiet turn)

-- An event as the watcher meets it: the new request's id and the adapter's answers come with it.
pub record Happening : Type 0 where
  pub id : String
  pub snap : Outcome RuntimeSnapshot
  pub exec : Outcome (List ReceiptState)
  pub event : DomainEvent

unfoldable pub handle : SessionKey → World → Happening → World
unfolding on_event
handle key w h = on_event key h.id h.snap h.exec h.event w

unfoldable pub handle_all : SessionKey → World → List Happening → World
unfolding handle
handle_all key w [] = w
handle_all key w (h ∷ hs) = handle_all key (handle key w h) hs

on_event-quiet :
    (key : SessionKey) (id : String) (snap : Outcome RuntimeSnapshot)
    (exec : Outcome (List ReceiptState)) (event : DomainEvent) (w : World)
    → is_queued (entry_at (session_ref key) w.store) ≡ false
    → Untouched key w (on_event key id snap exec event w)
unfolding on_event
on_event-quiet key id snap exec (turn_lifecycle turn idle (some completed)) w h =
    after_clearing key w (maybe_auto_send key id snap exec (clear_inflight key w))
      (maybe_auto_send-quiet key (clear_inflight key w) h id snap exec)
on_event-quiet key id snap exec (turn_lifecycle turn idle (some failed)) w h =
    after_clearing key w (mark_paused (session_ref key) (clear_inflight key w))
      (mark_paused-quiet key (clear_inflight key w) h)
on_event-quiet key id snap exec (turn_lifecycle turn idle (some interrupted)) w h =
    after_clearing key w (mark_paused (session_ref key) (clear_inflight key w))
      (mark_paused-quiet key (clear_inflight key w) h)
on_event-quiet key id snap exec (turn_lifecycle turn idle (some unknown)) w h = Untouched-refl key w
on_event-quiet key id snap exec (turn_lifecycle turn idle none) w h = Untouched-refl key w
on_event-quiet key id snap exec (turn_lifecycle turn running outcome) w h =
    on_started-quiet key w h turn
on_event-quiet key id snap exec (turn_lifecycle turn finishing outcome) w h =
    on_started-quiet key w h turn
on_event-quiet key id snap exec other_event w h = Untouched-refl key w

-- While a session's entry is paused, or it has none, no sequence of events changes the store or
-- the watchers, sends a command or marks one as being sent, whatever the adapter answers and
-- whatever fails in SQLite: at most the mark of this session is taken away.
pub handle_all-quiet :
    (key : SessionKey) (hs : List Happening) (w : World)
    → is_queued (entry_at (session_ref key) w.store) ≡ false
    → Untouched key w (handle_all key w hs)
unfolding handle_all handle
handle_all-quiet key [] w q = Untouched-refl key w
handle_all-quiet key (h ∷ hs) w q =
    let v = handle key w h in
    let one = on_event-quiet key h.id h.snap h.exec h.event w q in
    Untouched-trans key w v (handle_all key v hs) one
      (handle_all-quiet key hs v (ap (λ s. is_queued (entry_at (session_ref key) s)) one.0 ∙ q))
