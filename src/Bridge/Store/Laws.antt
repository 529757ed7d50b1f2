-- ===== src/Bridge/Store/Laws.antt =====
-- What the queue's rows and the receipts of apps/bridge/src/local_store/mod.rs give back.
use mathlib.Core.Option.{some-injective}
use agent_console.Base.{
  ==_refl, Bool, Bool-cases, List, Option, Option-cases, String, [], ap, false, if◌then◌else◌, inl,
  inr, lookup, lookup-insert, nat_eq, none, refl, some, string_eq, sym, true, ◌==◌, ◌∙◌, ◌∷◌, ◌≡◌,
}
use agent_console.Bridge.Store.{
  SessionKeyRef, session_eq, QueueStatus, queued, paused, empty, as_str, parse, NextTurnEntry,
  NextTurnRow, RequestReceipt, ReceiptUpsertOutcome, inserted, existing, duplicate_request_mismatch,
  queue_already_exists, Stored, ok, err, LocalStore, record_receipt, update_receipt_status, row_of,
  set_next_turn, entry_of, get_next_turn,
}

pub parse-as_str : (q : QueueStatus) → parse (as_str q) ≡ q
unfolding parse as_str
parse-as_str queued = refl
parse-as_str paused = refl
parse-as_str empty = refl

abbrev pub first_created : NextTurnEntry → Option NextTurnEntry → String
first_created e none = e.created_at
first_created e (some old) = old.created_at

abbrev entry_in : Stored (Option NextTurnEntry) → Option NextTurnEntry
entry_in (ok e) = e
entry_in (err e) = none

-- The entry of a session, if it has one.
unfoldable pub entry_at : SessionKeyRef → LocalStore → Option NextTurnEntry
unfolding get_next_turn
entry_at session s = entry_in (get_next_turn session s).0

abbrev stamped : String → NextTurnEntry → NextTurnEntry
stamped t e = record e { created_at = t; updated_at = t }

entry_of-row_of :
    (now : String) (e : NextTurnEntry) (old : Option NextTurnRow) (j : SessionKeyRef)
    → (e.session == j) ≡ true
    → entry_of j (row_of now e old) ≡ stamped (row_of now e old).created_at e
unfolding entry_of
entry_of-row_of now e none j b =
    ap (λ x. entry_of x (row_of now e none)) (sym ((session_eq.equals_iff e.session j).0 b))
    ∙ ap (λ q. stamped e.created_at (record e { status = q })) (parse-as_str e.status)
entry_of-row_of now e (some old) j b =
    ap (λ x. entry_of x (row_of now e (some old))) (sym ((session_eq.equals_iff e.session j).0 b))
    ∙ ap (λ q. stamped old.created_at (record e { status = q })) (parse-as_str e.status)

refused :
    (now : String) (e : NextTurnEntry) (replace : Bool) (s : LocalStore) (old : NextTurnRow)
    → lookup e.session s.next_turns ≡ some old
    → replace ≡ false
    → (set_next_turn now e replace s).0 ≡ err queue_already_exists
unfolding set_next_turn
refused now e replace s old q c = rw (q, c) refl

-- What `set_next_turn` wrote is read back whole, under the time of the first writing, and the
-- entries of the other sessions stay.
pub get-set_next_turn :
    (now : String) (e : NextTurnEntry) (replace : Bool) (s : LocalStore) (j : SessionKeyRef)
    → (set_next_turn now e replace s).0 ≡ ok tt
    → let t = first_created e (entry_at e.session s) in
      entry_at j (set_next_turn now e replace s).1 ≡ (
        if e.session == j then some (record e { created_at = t; updated_at = t }) else entry_at j s)
unfolding entry_at get_next_turn set_next_turn entry_of
get-set_next_turn now e replace s j h = elim (Option-cases (lookup e.session s.next_turns)) [
  | inl q ↦
      let l = lookup-insert e.session j (row_of now e none) s.next_turns in
      elim (Bool-cases (e.session == j)) [
        | inl b ↦ rw (q, l, b) (ap some (entry_of-row_of now e none j b))
        | inr b ↦ rw (q, l, b) refl
      ]
  | inr (old, q) ↦
      let l = lookup-insert e.session j (row_of now e (some old)) s.next_turns in
      elim (Bool-cases replace) [
        | inl c ↦ elim (Bool-cases (e.session == j)) [
          | inl b ↦ rw (q, c, l, b) (ap some (entry_of-row_of now e (some old) j b))
          | inr b ↦ rw (q, c, l, b) refl
        ]
        | inr c ↦
            let f : err queue_already_exists ≡ ok tt = sym (refused now e replace s old q c) ∙ h in
            cc
      ]
]

-- A call on the receipts: a request is recorded, or its status is updated.
pub data ReceiptCall : Type 0 where
  records : RequestReceipt → ReceiptCall
  updates : (now id status : String) → ReceiptCall

unfoldable pub run_receipts : List ReceiptCall → LocalStore → LocalStore
unfolding record_receipt update_receipt_status
run_receipts [] s = s
run_receipts (records r ∷ calls) s = run_receipts calls (record_receipt r s).1
run_receipts (updates now id status ∷ calls) s =
    run_receipts calls (update_receipt_status now id status s).1

abbrev Holds : String → String → Option RequestReceipt → Type 0
Holds id digest r = (x : RequestReceipt) × (r ≡ some x) × (x.payload_digest ≡ digest)

update-Holds :
    (now id status j digest : String) (s : LocalStore)
    → Holds j digest (lookup j s.receipts)
    → Holds j digest (lookup j (update_receipt_status now id status s).1.receipts)
unfolding update_receipt_status
update-Holds now id status j digest s (x, found, same) =
    elim (Option-cases (lookup id s.receipts)) [
      | inl q ↦ rw q (x, found, same)
      | inr (r, q) ↦
          rw (q, lookup-insert id j (record r { status = status; updated_at = now }) s.receipts)
            (elim (Bool-cases (id == j)) [
              | inl b ↦
                  let same_row =
                    sym q
                    ∙ ap (λ k. lookup k s.receipts) ((string_eq.equals_iff id j).0 b)
                    ∙ found in
                  rw b (
                    record r { status = status; updated_at = now },
                    refl,
                    ap (λ a. a.payload_digest) (some-injective r x same_row) ∙ same,
                  )
              | inr b ↦ rw b (x, found, same)
            ])
    ]

record-Holds :
    (r : RequestReceipt) (j digest : String) (s : LocalStore)
    → Holds j digest (lookup j s.receipts)
    → Holds j digest (lookup j (record_receipt r s).1.receipts)
unfolding record_receipt
record-Holds r j digest s (x, found, same) = elim (Option-cases (lookup r.request_id s.receipts)) [
  | inl q ↦
      rw (q, lookup-insert r.request_id j r s.receipts)
        (elim (Bool-cases (r.request_id == j)) [
          | inl b ↦
              let new =
                sym q
                ∙ ap (λ k. lookup k s.receipts) ((string_eq.equals_iff r.request_id j).0 b)
                ∙ found in
              cc
          | inr b ↦ rw b (x, found, same)
        ])
  | inr (old, q) ↦ rw q (elim (Bool-cases (old.payload_digest == r.payload_digest)) [
    | inl b ↦ rw b (x, found, same)
    | inr b ↦ rw b (x, found, same)
  ])
]

run_receipts-Holds :
    (calls : List ReceiptCall) (j digest : String) (s : LocalStore)
    → Holds j digest (lookup j s.receipts)
    → Holds j digest (lookup j (run_receipts calls s).receipts)
unfolding run_receipts
run_receipts-Holds [] j digest s h = h
run_receipts-Holds (updates now id status ∷ calls) j digest s h =
    run_receipts-Holds calls j digest (update_receipt_status now id status s).1
      (update-Holds now id status j digest s h)
run_receipts-Holds (records r ∷ calls) j digest s h =
    run_receipts-Holds calls j digest (record_receipt r s).1 (record-Holds r j digest s h)

abbrev not_new : Stored ReceiptUpsertOutcome → Bool
not_new (ok inserted) = false
not_new _ = true

record_receipt-Holds :
    (r : RequestReceipt) (s : LocalStore)
    → (record_receipt r s).0 ≡ ok inserted
    → Holds r.request_id r.payload_digest (lookup r.request_id (record_receipt r s).1.receipts)
unfolding record_receipt
record_receipt-Holds r s h = elim (Option-cases (lookup r.request_id s.receipts)) [
  | inl q ↦
      rw (q, lookup-insert r.request_id r.request_id r s.receipts, ==_refl r.request_id)
        (r, refl, refl)
  | inr (old, q) ↦
      let f : not_new ((record_receipt r s).0) ≡ true =
        rw q (elim (Bool-cases (old.payload_digest == r.payload_digest)) [
          | inl b ↦ rw b refl
          | inr b ↦ rw b refl
        ]) in
      let g : not_new (ok inserted) ≡ true = ap not_new (sym h) ∙ f in cc
]

if-beside {ℓ κ} :
    {A : Type ℓ} {B : Type κ} (b : Bool) (x y : A) (v : B)
    → let both : A × B = (if b then x else y, v) in (if b then (x, v) else (y, v)) ≡ both
if-beside true x y v = refl
if-beside false x y v = refl

-- A request that was recorded once is never recorded again, whatever calls record this or other
-- requests and update receipts between: with the same digest the later call says that it exists,
-- with another it fails, and either way the store stays as it is.
pub record_receipt_again :
    (first second : RequestReceipt) (calls : List ReceiptCall) (s : LocalStore)
    → second.request_id ≡ first.request_id
    → (record_receipt first s).0 ≡ ok inserted
    → let v = run_receipts calls (record_receipt first s).1 in
      record_receipt second v ≡ (
        (if first.payload_digest == second.payload_digest
            then ok existing
            else err (duplicate_request_mismatch second.request_id)),
        v,
      )
unfolding record_receipt
record_receipt_again first second calls s same h =
    let (x, found, digest) =
      run_receipts-Holds calls first.request_id first.payload_digest (record_receipt first s).1
        (record_receipt-Holds first s h) in
    rw (same, found, digest)
      (if-beside (first.payload_digest == second.payload_digest) (ok existing)
        (err (duplicate_request_mismatch first.request_id))
        (run_receipts calls (record_receipt first s).1))
