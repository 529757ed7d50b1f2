-- ===== src/Bridge/Queue/Failure.antt =====
-- What the user's operations of commands/queue.rs leave when they fail, and what `set` binds.
use agent_console.Base.{
  Bool, List, Option, String, [], arith, false, nat_eq, none, refl, some, string_eq, true, ◌∙◌, ◌∷◌,
  ◌≡◌,
}
use agent_console.Bridge.Store.{
  session_eq, NextTurnEntry, StoreError, Stored, ok, err, LocalStore, set_next_turn, get_next_turn,
}
use agent_console.Bridge.Queue.State.{
  SessionKey, session_ref, RuntimeSnapshot, StableErrorCode, Outcome, failed_with, World, Query,
  query, query_at, retry_busy,
}
use agent_console.Bridge.Queue.Manager.{set_stored, set_on, on_ok, set, entry_from_snapshot}
use agent_console.Bridge.Queue.Retry.{Reverts, retry_busy-reverts}

get_next_turn-Reverts : (key : SessionKey) → Reverts (get_next_turn (session_ref key))
unfolding get_next_turn
get_next_turn-Reverts key s e h = refl

pub query-same :
    {A : Type 0} (op : Query A) (w : World)
    → ((s : LocalStore) → (op s).1 ≡ s)
    → (query op w).1.store ≡ w.store
unfolding query
query-same op w h = at_faults w.faults
  where
    at_faults : (fs : List (Option StoreError)) → (query_at op fs w).1.store ≡ w.store
    at_faults [] = h w.store
    at_faults (none ∷ fs) = h w.store
    at_faults (some e ∷ fs) = refl

set_next_turn-Reverts :
    (now : String) (e : NextTurnEntry) (again : Bool) → Reverts (set_next_turn now e again)
unfolding set_next_turn
set_next_turn-Reverts now e again s x h = ground arith

-- A failure behind `?` has touched nothing if neither the query nor what follows it has.
on_ok-fails :
    {A B : Type 0} (f : A → World → Outcome B × World) (r : Stored A × World) (s : LocalStore)
    (code : StableErrorCode)
    → ((e : StoreError) → r.0 ≡ err e → r.1.store ≡ s)
    → ((a : A) → r.0 ≡ ok a → (f a r.1).0 ≡ failed_with code → (f a r.1).1.store ≡ s)
    → (on_ok f r).0 ≡ failed_with code
    → (on_ok f r).1.store ≡ s
on_ok-fails f (ok a, w) s code stops follows h = follows a refl h
on_ok-fails f (err e, w) s code stops follows h = stops e refl

set_stored-fails :
    (subscribed : Bool) (key : SessionKey) (input : String) (again : Bool) (request_id : String)
    (snapshot : RuntimeSnapshot) (w : World) (code : StableErrorCode)
    → (set_stored subscribed key input again request_id snapshot w).0 ≡ failed_with code
    → (set_stored subscribed key input again request_id snapshot w).1.store ≡ w.store
set_stored-fails subscribed key input again request_id snapshot w code =
    let op = set_next_turn w.now (entry_from_snapshot w.now key snapshot input) again in
    on_ok-fails _ (retry_busy op w) w.store code
      (retry_busy-reverts op (set_next_turn-Reverts w.now _ again) w) (λ a q h. cc)

set_on-fails :
    (subscribed : Bool) (key : SessionKey) (input : String) (again : Bool) (request_id : String)
    (snapshot : RuntimeSnapshot) (old : Option NextTurnEntry) (w : World) (code : StableErrorCode)
    → (set_on subscribed key input again request_id snapshot old w).0 ≡ failed_with code
    → (set_on subscribed key input again request_id snapshot old w).1.store ≡ w.store
set_on-fails subscribed key input again request_id snapshot none w code h =
    set_stored-fails subscribed key input again request_id snapshot w code h
set_on-fails subscribed key input true request_id snapshot (some old) w code h =
    set_stored-fails subscribed key input true request_id snapshot w code h
set_on-fails subscribed key input false request_id snapshot (some old) w code h = refl

-- A `set` that fails leaves the store as it was, whatever goes wrong in SQLite on the way.
pub set-fails :
    (subscribed : Bool) (key : SessionKey) (input : String) (again : Bool) (request_id : String)
    (snapshot : RuntimeSnapshot) (w : World) (code : StableErrorCode)
    → (set subscribed key input again request_id snapshot w).0 ≡ failed_with code
    → (set subscribed key input again request_id snapshot w).1.store ≡ w.store
unfolding set
set-fails subscribed key input again request_id snapshot w code =
    let op = get_next_turn (session_ref key) in
    let same = query-same op w (λ s. unfold get_next_turn in refl) in
    on_ok-fails (set_on subscribed key input again request_id snapshot) (query op w) w.store code
      (λ e q. same)
      (λ a q h.
        set_on-fails subscribed key input again request_id snapshot a (query op w).1 code h ∙ same)
