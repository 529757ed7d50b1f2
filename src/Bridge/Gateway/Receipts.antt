-- ===== src/Bridge/Gateway/Receipts.antt =====
-- Which requests have a receipt in the store (local_store/mod.rs), through every operation that the
-- gateway calls.
use agent_console.Base.{
  Bool, Bool-cases, List, Option, Option-cases, String, [], ap, arith, false, if_cases, insert, inl,
  inr, is_some, lookup, lookup-insert, none, refl, some, string_eq, suc, true, zero, ℕ, ◌-◌, ◌==◌,
  ◌≡◌, ◌∷◌, ◌∙◌, sym, not, ◌||◌,
}
use agent_console.Bridge.Store.{
  LocalStore, NextTurnEntry, SessionKeyRef, Stored, StoreError, clear_next_turn, err, get_next_turn,
  ok, put_cursor, set_next_turn, update_receipt_status, session_eq, paused,
}
use agent_console.Bridge.Queue.State.{
  Outcome, Query, RuntimeSnapshot, SessionKey, World, query_at, done, failed_with, is_busy,
  max_attempts, query, retry, retry_busy, session_ref,
}
use agent_console.Bridge.Queue.Manager.{
  cancel, ensure_watcher, on_ok, pause, pause_on, remember_request_id, set, set_on, set_stored,
  same_status, contains, cursor_name, rejection, entry_from_snapshot, domain_turn, with_status,
}

-- Whether a request has a receipt.
abbrev pub is_known : String → LocalStore → Bool
is_known id s = is_some (lookup id s.receipts)

module _ (id : String) where
  -- A query that does not change whether the request is known.
  abbrev pub Keeps {ℓ} : {A : Type ℓ} → Query A → Type 0
  Keeps op = (s : LocalStore) → is_known id (op s).1 ≡ is_known id s

  module _ {ℓ} {A : Type ℓ} (op : Query A) (keeps : Keeps op) where
    pub query-Keeps : (w : World) → is_known id (query op w).1.store ≡ is_known id w.store
    unfolding query
    query-Keeps w = go w.faults
      where
        go :
            (fs : List (Option StoreError))
            → is_known id (query_at op fs w).1.store ≡ is_known id w.store
        go [] = keeps w.store
        go (none ∷ fs) = keeps w.store
        go (some e ∷ fs) = refl

    retry-Keeps : (n : ℕ) (w : World) → is_known id (retry n op w).1.store ≡ is_known id w.store
    unfolding retry
    retry-Keeps zero w = query-Keeps w
    retry-Keeps (suc n) w =
        if_cases (λ r. is_known id r.1.store ≡ is_known id w.store) (is_busy (query op w).0)
          (retry n op (query op w).1) (query op w)
          (λ b. retry-Keeps n (query op w).1 ∙ query-Keeps w) (λ b. query-Keeps w)

    pub retry_busy-Keeps : (w : World) → is_known id (retry_busy op w).1.store ≡ is_known id w.store
    unfolding retry_busy
    retry_busy-Keeps w = retry-Keeps (max_attempts - 1) w

  set_next_turn-Keeps :
      (now : String) (e : NextTurnEntry) (replace : Bool) → Keeps (set_next_turn now e replace)
  unfolding set_next_turn
  set_next_turn-Keeps now e replace s = ground arith

  pub update_receipt_status-Keeps :
      (now r status : String) → Keeps (update_receipt_status now r status)
  unfolding update_receipt_status
  update_receipt_status-Keeps now r status s = elim (Option-cases (lookup r s.receipts)) [
    | inl q ↦ rw q
    | inr (old, q) ↦
        rw (q, lookup-insert r id (record old { status = status; updated_at = now }) s.receipts)
          (elim (Bool-cases (r == id)) [
            | inl b ↦ rw b (
                ap is_some
                  (sym q ∙ ap (λ k. lookup k s.receipts) ((string_eq.equals_iff r id).0 b)))
            | inr b ↦ rw b
          ])
  ]

  -- An operation on the world.
  abbrev KeepsWorld : {B : Type 0} → (World → Outcome B × World) → Type 0
  KeepsWorld f = (w : World) → is_known id (f w).1.store ≡ is_known id w.store

  on_ok-Keeps :
      {A B : Type 0} (f : A → World → Outcome B × World) (r : Stored A × World)
      → ((a : A) → KeepsWorld (f a))
      → is_known id (on_ok f r).1.store ≡ is_known id r.1.store
  on_ok-Keeps f (ok a, w) keeps = keeps a w
  on_ok-Keeps f (err e, w) keeps = refl

  get_next_turn-Keeps : (session : SessionKeyRef) → Keeps (get_next_turn session)
  unfolding get_next_turn
  get_next_turn-Keeps session s = refl

  remember_request_id-Keeps :
      (key : SessionKey) (request_id : String) (w : World)
      → is_known id (remember_request_id key request_id w).store ≡ is_known id w.store
  unfolding remember_request_id put_cursor
  remember_request_id-Keeps key request_id w =
      query-Keeps (put_cursor (cursor_name key) request_id) (λ s. refl) w

  ensure_watcher-store :
      (subscribed : Bool) (key : SessionKey) (w : World)
      → (ensure_watcher subscribed key w).store ≡ w.store
  unfolding ensure_watcher
  ensure_watcher-store subscribed key w =
      if_cases (λ v. v.store ≡ w.store)
        (contains key.native_session_id w.watchers || not subscribed) w
        (record w { watchers = insert key.native_session_id tt w.watchers }) (λ b. refl) (λ b. refl)

  set_stored-Keeps :
      (subscribed : Bool) (key : SessionKey) (input : String) (again : Bool) (request_id : String)
      (snapshot : RuntimeSnapshot)
      → KeepsWorld (set_stored subscribed key input again request_id snapshot)
  set_stored-Keeps subscribed key input again request_id snapshot w =
      let entry = entry_from_snapshot w.now key snapshot input in
      let stored = retry_busy (set_next_turn w.now entry again) w in
      on_ok-Keeps
        (λ u v. (
          done (domain_turn entry request_id input),
          ensure_watcher subscribed key (remember_request_id key request_id v),
        ))
        stored
        (λ u v.
          ap (λ s. is_known id s)
            (ensure_watcher-store subscribed key (remember_request_id key request_id v))
          ∙ remember_request_id-Keeps key request_id v)
      ∙ retry_busy-Keeps (set_next_turn w.now entry again) (set_next_turn-Keeps w.now entry again) w

  pub set-Keeps :
      (subscribed : Bool) (key : SessionKey) (input : String) (again : Bool) (request_id : String)
      (snapshot : RuntimeSnapshot) (w : World)
      → is_known id (set subscribed key input again request_id snapshot w).1.store
        ≡ is_known id w.store
  unfolding set
  set-Keeps subscribed key input again request_id snapshot w =
      on_ok-Keeps (set_on subscribed key input again request_id snapshot)
        (query (get_next_turn (session_ref key)) w) on_old
      ∙ query-Keeps (get_next_turn (session_ref key)) (get_next_turn-Keeps (session_ref key)) w
    where
      on_old :
          (old : Option NextTurnEntry)
          → KeepsWorld (set_on subscribed key input again request_id snapshot old)
      on_old none v = set_stored-Keeps subscribed key input again request_id snapshot v
      on_old (some old) v =
          if_cases (λ r. is_known id r.1.store ≡ is_known id v.store) again
            (set_stored subscribed key input again request_id snapshot v)
            (failed_with (rejection old.status), v)
            (λ b. set_stored-Keeps subscribed key input again request_id snapshot v) (λ b. refl)

  pub cancel-Keeps :
      (key : SessionKey) (w : World) → is_known id (cancel key w).1.store ≡ is_known id w.store
  unfolding cancel clear_next_turn
  cancel-Keeps key w =
      on_ok-Keeps (λ b v. (done b, v)) (retry_busy (clear_next_turn (session_ref key)) w)
        (λ b v. refl)
      ∙ retry_busy-Keeps (clear_next_turn (session_ref key)) (λ s. refl) w

  pub pause-Keeps :
      (key : SessionKey) (w : World) → is_known id (pause key w).1.store ≡ is_known id w.store
  unfolding pause
  pause-Keeps key w =
      on_ok-Keeps pause_on (query (get_next_turn (session_ref key)) w) on_entry
      ∙ query-Keeps (get_next_turn (session_ref key)) (get_next_turn-Keeps (session_ref key)) w
    where
      on_entry : (entry : Option NextTurnEntry) → KeepsWorld (pause_on entry)
      on_entry none v = refl
      on_entry (some entry) v =
          let stored = retry_busy (set_next_turn v.now (with_status paused v.now entry) true) v in
          if_cases (λ r. is_known id r.1.store ≡ is_known id v.store)
            (same_status entry.status paused) (done false, v)
            (on_ok (λ u v'. (done true, v')) stored) (λ b. refl)
            (λ b.
              on_ok-Keeps (λ u v'. (done true, v')) stored (λ u v'. refl)
              ∙ retry_busy-Keeps (set_next_turn v.now (with_status paused v.now entry) true)
                  (set_next_turn-Keeps v.now (with_status paused v.now entry) true) v)
