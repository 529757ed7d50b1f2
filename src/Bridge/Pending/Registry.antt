-- ===== src/Bridge/Pending/Registry.antt =====
-- The data of apps/bridge/src/zcode/pending.rs, and the access to one record under the lock.
use agent_console.Base.{
  Bool, List, Option, String, Table, [], false, insert, lookup, nat_eq, none, some, string_eq, true,
  ℕ, ◌∷◌,
}

pub data InvokeKind : Type 0 where
  permission_request ask_user : InvokeKind

pub data PendingState : Type 0 where
  waiting decided returned_to_runtime runtime_processed expired handled_locally : PendingState

pub PendingState-discrete : Discrete PendingState
PendingState-discrete = hlevel

unfoldable pub is_terminal : PendingState → Bool
is_terminal returned_to_runtime = true
is_terminal runtime_processed = true
is_terminal expired = true
is_terminal handled_locally = true
is_terminal _ = false

-- `==` on the derived `PartialEq`.
abbrev pub same_state : PendingState → PendingState → Bool
same_state waiting waiting = true
same_state decided decided = true
same_state returned_to_runtime returned_to_runtime = true
same_state runtime_processed runtime_processed = true
same_state expired expired = true
same_state handled_locally handled_locally = true
same_state _ _ = false

pub record HookReply : Type 0 where
  pub status : String
  pub message : Option String
  pub option : Option String
  pub text : Option String

pub record AskRequest : Type 0 where
  pub question : String
  pub options : List String
  pub allow_free_text : Bool
  pub call_id : Option String

pub data DeliveryOutcome : Type 0 where
  delivered unconfirmed : DeliveryOutcome

-- The ends of a one-shot channel that a record holds.
pub data Sender : Type 0 where
  sender : Sender

pub data Receiver : Type 0 where
  receiver : Receiver

pub record PendingRecord : Type 0 where
  pub invoke_id : String
  pub kind : InvokeKind
  pub native_session_id : Option String
  pub tool_name : Option String
  pub tool_use_id : Option String
  pub ask_question : Option String
  pub ask_options : List String
  pub ask_allow_free_text : Bool
  pub action_summary : Option String
  pub state : PendingState
  pub created_at : ℕ
  pub deadline : ℕ
  pub responder : Option Sender
  pub delivery_tx : Option Sender
  pub delivery_rx : Option Receiver

pub data PendingError : Type 0 where
  unknown already_decided expired_error cancelled duplicate : PendingError
  rejected : String → PendingError

pub data Result {ℓ} (A : Type ℓ) : Type ℓ where
  ok : A → Result A
  err : PendingError → Result A

pub record Registry : Type 0 where
  pub inner : Table String PendingRecord
  pub replies : List (String × HookReply)
  pub confirmations : List (String × DeliveryOutcome)

abbrev pub empty : Registry
empty = record { inner = []; replies = []; confirmations = [] }

-- What the body of an operation makes of a record: its result, the record that it leaves, and
-- what it sends.
pub record Change (A : Type 0) : Type 0 where
  pub result : A
  pub after : PendingRecord
  pub reply : Option HookReply
  pub confirmation : Option DeliveryOutcome

abbrev pub log_one {ℓ} : {B : Type ℓ} → String → Option B → List (String × B) → List (String × B)
log_one id none l = l
log_one id (some b) l = (id, b) ∷ l

abbrev pub applied : {A : Type 0} → String → Change A → Registry → A × Registry
applied id c r = (
  c.result,
  record {
    inner = insert id c.after r.inner;
    replies = log_one id c.reply r.replies;
    confirmations = log_one id c.confirmation r.confirmations;
  },
)

-- `inner.get_mut(invoke_id)` with the body for the record that is there.
unfoldable pub with_record :
    {A : Type 0} → String → A → (PendingRecord → Change A) → Registry → A × Registry
with_record id missing body r = elim (lookup id r.inner) [
  | none ↦ (missing, r)
  | some rec ↦ applied id (body rec) r
]
