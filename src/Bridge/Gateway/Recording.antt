-- ===== src/Bridge/Gateway/Recording.antt =====
-- `record_receipt` of local_store/mod.rs as the gateway calls it, under the faults of SQLite.
use agent_console.Base.{
  Bool, List, Option, Option-cases, String, [], arith, false, if_cases, inl, inr, lookup,
  lookup-insert, none, refl, some, string_eq, true, ◌==◌, ◌≡◌, ◌∷◌, ◌||◌,
}
use agent_console.Bridge.Store.{
  LocalStore, RequestReceipt, Stored, StoreError, err, inserted, existing, ok, record_receipt,
  duplicate_request_mismatch, ReceiptUpsertOutcome, session_eq,
}
use agent_console.Bridge.Queue.State.{World, query_at, query}
use agent_console.Bridge.Gateway.Receipts.{is_known}

abbrev pub is_inserted : Stored ReceiptUpsertOutcome → Bool
is_inserted (ok inserted) = true
is_inserted _ = false

record_receipt-inserted :
    (row : RequestReceipt) (s : LocalStore)
    → is_inserted (record_receipt row s).0 ≡ true
    → (is_known row.request_id s ≡ false)
      × ((id : String)
          → is_known id (record_receipt row s).1 ≡ (row.request_id == id || is_known id s))
unfolding record_receipt
record_receipt-inserted row s h = elim (Option-cases (lookup row.request_id s.receipts)) [
  | inl q ↦ (rw q, λ id. rw (q, lookup-insert row.request_id id row s.receipts) (ground arith))
  | inr (old, q) ↦
      let refusal : is_inserted (record_receipt row s).0 ≡ false =
        rw (record_receipt, q)
          (if_cases {A = Stored ReceiptUpsertOutcome × LocalStore} (λ r. is_inserted r.0 ≡ false)
            (old.payload_digest == row.payload_digest) (ok existing, s)
            (err (duplicate_request_mismatch row.request_id), s) (λ b. refl) (λ b. refl)) in
      cc
]

record_receipt-refused :
    (row : RequestReceipt) (s : LocalStore)
    → is_inserted (record_receipt row s).0 ≡ false
    → (record_receipt row s).1 ≡ s
unfolding record_receipt
record_receipt-refused row s h = elim (Option-cases (lookup row.request_id s.receipts)) [
  | inl q ↦
      let accepts : is_inserted (record_receipt row s).0 ≡ true = rw (record_receipt, q) refl in cc
  | inr (old, q) ↦ rw (q) (
      if_cases {A = Stored ReceiptUpsertOutcome × LocalStore} (λ r. r.1 ≡ s)
        (old.payload_digest == row.payload_digest) (ok existing, s)
        (err (duplicate_request_mismatch row.request_id), s) (λ b. refl) (λ b. refl))
]

module _ (row : RequestReceipt) (w : World) where
  -- A receipt that is inserted was not known, and is the only one that becomes known.
  pub query-record_receipt-inserted :
      is_inserted (query (record_receipt row) w).0 ≡ true
      → (is_known row.request_id w.store ≡ false)
        × ((id : String)
            → is_known id (query (record_receipt row) w).1.store
              ≡ (row.request_id == id || is_known id w.store))
  unfolding query
  query-record_receipt-inserted h = go w.faults h
    where
      go :
          (fs : List (Option StoreError))
          → is_inserted (query_at (record_receipt row) fs w).0 ≡ true
          → (is_known row.request_id w.store ≡ false)
            × ((id : String)
                → is_known id (query_at (record_receipt row) fs w).1.store
                  ≡ (row.request_id == id || is_known id w.store))
      go [] k = record_receipt-inserted row w.store k
      go (none ∷ fs) k = record_receipt-inserted row w.store k
      go (some e ∷ fs) k = cc

  pub query-record_receipt-refused :
      is_inserted (query (record_receipt row) w).0 ≡ false
      → (query (record_receipt row) w).1.store ≡ w.store
  unfolding query
  query-record_receipt-refused h = go w.faults h
    where
      go :
          (fs : List (Option StoreError))
          → is_inserted (query_at (record_receipt row) fs w).0 ≡ false
          → (query_at (record_receipt row) fs w).1.store ≡ w.store
      go [] k = record_receipt-refused row w.store k
      go (none ∷ fs) k = record_receipt-refused row w.store k
      go (some e ∷ fs) k = refl
