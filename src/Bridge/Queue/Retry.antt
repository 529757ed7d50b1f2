-- ===== src/Bridge/Queue/Retry.antt =====
-- `retry_busy` of commands/queue.rs: how often it asks, and what it leaves.
use agent_console.Base.{
  Bool, List, Option, [], arith, drop, false, if◌then◌else◌, ltb, nat_eq, none, refl, some,
  string_eq, suc, true, zero, ℕ, ◌∷◌, ◌≡◌,
}
use agent_console.Bridge.Store.{
  StoreError, sqlx, duplicate_request_mismatch, queue_already_exists, Stored, ok, err, LocalStore,
}
use agent_console.Bridge.Queue.State.{
  World, Query, query, query_at, is_busy, retry, max_attempts, retry_busy,
}

abbrev pub is_busy_fault : Option StoreError → Bool
is_busy_fault (some (sqlx locked)) = locked
is_busy_fault _ = false

-- How many of the next queries find the database locked before one does not.
abbrev pub busy_prefix : List (Option StoreError) → ℕ
busy_prefix [] = 0
busy_prefix (f ∷ fs) = let n = busy_prefix fs in if is_busy_fault f then suc n else 0

-- The world when `n` faults have been met.
abbrev pub past : ℕ → World → World
past n w = record w { faults = drop n w.faults }

ltb_zero : (n : ℕ) → ltb 0 (suc n) ≡ true
ltb_zero n = ground arith

ltb-suc : (a b : ℕ) → ltb (suc a) (suc b) ≡ ltb a b
ltb-suc a b = ground arith

ltb_one : (a : ℕ) → ltb (suc a) 1 ≡ false
ltb_one a = ground arith

module _ {ℓ} {A : Type ℓ} (op : Query A)
    (settles : (s : LocalStore) → is_busy (op s).0 ≡ false) where
  retry_at :
      (n : ℕ) (w : World) (fs : List (Option StoreError))
      → retry n op (record w { faults = fs }) ≡ (
          if ltb (busy_prefix fs) (suc n)
          then query op (record w { faults = drop (busy_prefix fs) fs })
          else (err (sqlx true), record w { faults = drop (suc n) fs }))
  unfolding retry query
  retry_at zero w [] = refl
  retry_at zero w (none ∷ fs) = refl
  retry_at zero w (some (sqlx true) ∷ fs) = rw (ltb_one (busy_prefix fs)) refl
  retry_at zero w (some (sqlx false) ∷ fs) = refl
  retry_at zero w (some (duplicate_request_mismatch id) ∷ fs) = refl
  retry_at zero w (some queue_already_exists ∷ fs) = refl
  retry_at (suc n) w [] = rw (settles w.store, ltb_zero (suc n)) refl
  retry_at (suc n) w (none ∷ fs) = rw (settles w.store, ltb_zero (suc n)) refl
  retry_at (suc n) w (some (sqlx true) ∷ fs) =
      rw (ltb-suc (busy_prefix fs) (suc n)) (retry_at n w fs)
  retry_at (suc n) w (some (sqlx false) ∷ fs) = rw (ltb_zero (suc n)) refl
  retry_at (suc n) w (some (duplicate_request_mismatch id) ∷ fs) = rw (ltb_zero (suc n)) refl
  retry_at (suc n) w (some queue_already_exists ∷ fs) = rw (ltb_zero (suc n)) refl

  -- Where the operation itself never reports a locked database, `retry_busy` is one query after
  -- the leading locked ones, if those are fewer than ten; otherwise it fails as locked, and the
  -- store is untouched.
  pub retry_busy_lem :
      (w : World)
      → retry_busy op w ≡ (
          if ltb (busy_prefix w.faults) max_attempts
          then query op (past (busy_prefix w.faults) w)
          else (err (sqlx true), past max_attempts w))
  unfolding retry_busy
  retry_busy_lem w = retry_at 9 w w.faults

busy_is {ℓ} : {A : Type ℓ} → (r : Stored A) → is_busy r ≡ true → r ≡ err (sqlx true)
busy_is (ok a) h = cc
busy_is (err (sqlx true)) h = refl
busy_is (err (sqlx false)) h = cc
busy_is (err (duplicate_request_mismatch id)) h = cc
busy_is (err queue_already_exists) h = cc

-- An operation that leaves the store as it was when it fails.
abbrev pub Reverts {ℓ} : {A : Type ℓ} → Query A → Type ℓ
Reverts {A = A} op = (s : LocalStore) (e : StoreError) → (op s).0 ≡ err e → (op s).1 ≡ s

module _ {ℓ} {A : Type ℓ} (op : Query A) (reverts : Reverts op) where
  query_at-reverts :
      (fs : List (Option StoreError)) (w : World) (e : StoreError)
      → (query_at op fs w).0 ≡ err e
      → (query_at op fs w).1.store ≡ w.store
  query_at-reverts [] w e h = reverts w.store e h
  query_at-reverts (none ∷ fs) w e h = reverts w.store e h
  query_at-reverts (some f ∷ fs) w e h = refl

  pub query-reverts :
      (w : World) (e : StoreError) → (query op w).0 ≡ err e → (query op w).1.store ≡ w.store
  unfolding query
  query-reverts w e h = query_at-reverts w.faults w e h

  retry-reverts :
      (n : ℕ) (w : World) (e : StoreError)
      → (retry n op w).0 ≡ err e
      → (retry n op w).1.store ≡ w.store
  unfolding retry
  retry-reverts zero w e h = query-reverts w e h
  retry-reverts (suc n) w e h = ground (
    arith,
    retry-reverts n (query op w).1 e,
    query-reverts w e,
    busy_is (query op w).0,
    query-reverts w (sqlx true),
  )

  pub retry_busy-reverts :
      (w : World) (e : StoreError)
      → (retry_busy op w).0 ≡ err e
      → (retry_busy op w).1.store ≡ w.store
  unfolding retry_busy
  retry_busy-reverts w e h = retry-reverts 9 w e h
