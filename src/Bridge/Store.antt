-- ===== src/Bridge/Store.antt =====
-- apps/bridge/src/local_store: the rows of models.rs, the errors of error.rs, and the operations of
-- mod.rs on receipts, on the queue of next turns and on cursors. A table of SQLite is a `Table`
-- with the columns of its primary key; one SQL transaction is one step. The text of a time is
-- the argument `now`. Whether a query fails in SQLite is up to a list of faults, one for each query.
use agent_console.Base.{
  >>=-some, ◌>>=◌, Bool, Eq, Option, String, Table, [], arith, false, if◌then◌else◌, insert,
  is_some, lookup, nat_eq, none, not, remove, some, string_eq, suc, true, ℕ, ◌&&◌, ◌==◌, ◌↔◌, ◌≡◌,
}
pub mod Laws

pub record SessionKeyRef : Type 0 where
  pub device_id : String
  pub agent_kind : ℕ
  pub native_session_id : String

abbrev pub session_beq : SessionKeyRef → SessionKeyRef → Bool
session_beq a b =
    a.device_id == b.device_id
    && (a.agent_kind == b.agent_kind && a.native_session_id == b.native_session_id)

pub session_beq_iff : (a b : SessionKeyRef) → (session_beq a b ≡ true) ↔ (a ≡ b)
session_beq_iff a b = ground (
  arith,
  string_eq.equals_iff a.device_id b.device_id,
  nat_eq.equals_iff a.agent_kind b.agent_kind,
  string_eq.equals_iff a.native_session_id b.native_session_id,
)

instance abbrev pub session_eq : Eq SessionKeyRef
session_eq = record { equals = session_beq; equals_iff = session_beq_iff }

pub data QueueStatus : Type 0 where
  queued paused empty : QueueStatus

unfoldable pub as_str : QueueStatus → String
as_str queued = "QUEUED"
as_str paused = "PAUSED"
as_str empty = "EMPTY"

unfoldable pub parse : String → QueueStatus
parse s = if s == "PAUSED" then paused else if s == "EMPTY" then empty else queued

pub record NextTurnEntry : Type 0 where
  pub session : SessionKeyRef
  pub prompt : String
  pub after_turn_id : String
  pub runtime_revision : ℕ
  pub status : QueueStatus
  pub created_at : String
  pub updated_at : String

-- The columns of `next_turn_queue` behind its key.
pub record NextTurnRow : Type 0 where
  pub prompt : String
  pub after_turn_id : String
  pub runtime_revision : ℕ
  pub status : String
  pub created_at : String
  pub updated_at : String

pub record RequestReceipt : Type 0 where
  pub request_id : String
  pub session : SessionKeyRef
  pub operation : String
  pub status : String
  pub payload_digest : String
  pub created_at : String
  pub updated_at : String

pub data ReceiptUpsertOutcome : Type 0 where
  inserted existing : ReceiptUpsertOutcome

-- An error of SQLite is told apart only by whether its text contains "database is locked".
pub data StoreError : Type 0 where
  sqlx : (locked : Bool) → StoreError
  duplicate_request_mismatch : String → StoreError
  queue_already_exists : StoreError

pub data Stored {ℓ} (A : Type ℓ) : Type ℓ where
  ok : A → Stored A
  err : StoreError → Stored A

pub record LocalStore : Type 0 where
  pub receipts : Table String RequestReceipt
  pub next_turns : Table SessionKeyRef NextTurnRow
  pub cursors : Table String String

abbrev upsert_at :
    RequestReceipt → Option RequestReceipt → LocalStore → Stored ReceiptUpsertOutcome × LocalStore
upsert_at receipt none s =
    (ok inserted, record s { receipts = insert receipt.request_id receipt s.receipts })
upsert_at receipt (some old) s =
    if old.payload_digest == receipt.payload_digest
    then (ok existing, s)
    else (err (duplicate_request_mismatch receipt.request_id), s)

unfoldable pub record_receipt :
    RequestReceipt → LocalStore → Stored ReceiptUpsertOutcome × LocalStore
unfolding lookup insert
record_receipt receipt s = upsert_at receipt (lookup receipt.request_id s.receipts) s

abbrev update_at :
    String → String → String → Option RequestReceipt → LocalStore → Stored Bool × LocalStore
update_at request_id status now none s = (ok false, s)
update_at request_id status now (some r) s = (
  ok true,
  record s {
    receipts = insert request_id (record r { status = status; updated_at = now }) s.receipts;
  },
)

unfoldable pub update_receipt_status :
    String → String → String → LocalStore → Stored Bool × LocalStore
unfolding lookup insert
update_receipt_status now request_id status s =
    update_at request_id status now (lookup request_id s.receipts) s

-- The column `updated_at` is not read: the time of creation stands in for it.
unfoldable pub get_receipt : String → LocalStore → Stored (Option RequestReceipt) × LocalStore
unfolding lookup
get_receipt request_id s =
    (ok (do r ← lookup request_id s.receipts; some (record r { updated_at = r.created_at })), s)

-- `UPDATE` keeps the time of creation and sets that of the update; `INSERT` takes both.
abbrev pub row_of : String → NextTurnEntry → Option NextTurnRow → NextTurnRow
row_of now e none = record {
  prompt = e.prompt;
  after_turn_id = e.after_turn_id;
  runtime_revision = e.runtime_revision;
  status = as_str e.status;
  created_at = e.created_at;
  updated_at = e.updated_at;
}
row_of now e (some old) = record {
  prompt = e.prompt;
  after_turn_id = e.after_turn_id;
  runtime_revision = e.runtime_revision;
  status = as_str e.status;
  created_at = old.created_at;
  updated_at = now;
}

unfoldable pub set_next_turn :
    String → NextTurnEntry → Bool → LocalStore → Stored (Unit {0}) × LocalStore
unfolding lookup insert as_str
set_next_turn now e replace s =
    let old = lookup e.session s.next_turns in
    if is_some old && not replace
    then (err queue_already_exists, s)
    else (ok tt, record s { next_turns = insert e.session (row_of now e old) s.next_turns })

unfoldable pub entry_of : SessionKeyRef → NextTurnRow → NextTurnEntry
unfolding parse
entry_of session r = record {
  session = session;
  prompt = r.prompt;
  after_turn_id = r.after_turn_id;
  runtime_revision = r.runtime_revision;
  status = parse r.status;
  created_at = r.created_at;
  updated_at = r.created_at;
}

unfoldable pub get_next_turn :
    SessionKeyRef → LocalStore → Stored (Option NextTurnEntry) × LocalStore
unfolding lookup entry_of
get_next_turn session s = (ok (do r ← lookup session s.next_turns; some (entry_of session r)), s)

unfoldable pub clear_next_turn : SessionKeyRef → LocalStore → Stored Bool × LocalStore
unfolding lookup remove
clear_next_turn session s = (
  ok (is_some (lookup session s.next_turns)),
  record s { next_turns = remove session s.next_turns },
)

unfoldable pub put_cursor : String → String → LocalStore → Stored (Unit {0}) × LocalStore
unfolding insert
put_cursor key value s = (ok tt, record s { cursors = insert key value s.cursors })

unfoldable pub get_cursor : String → LocalStore → Stored (Option String) × LocalStore
unfolding lookup
get_cursor key s = (ok (lookup key s.cursors), s)
