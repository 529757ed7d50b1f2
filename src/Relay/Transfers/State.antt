-- ===== src/Relay/Transfers/State.antt =====
-- `Transfer` and its state under the lock, of transfers/mod.rs. An end of a one-shot channel is
-- whether it is still there, and what went through the channels is counted or logged beside it. An
-- error code is its number in the protocol. Times are milliseconds.
use agent_console.Base.{
  Bool, List, Option, String, [], false, if◌then◌else◌, ltb, none, some, true, ℕ, ◌+◌, ◌*◌, ◌∷◌,
}

pub data TransferDirection : Type 0 where
  download upload : TransferDirection

-- The owner and the device by their ids; names, ranges and lengths are only passed on.
pub record TransferInfo : Type 0 where
  pub direction : TransferDirection
  pub owner : String
  pub device : String

pub data TransferOutcome : Type 0 where
  outcome_unspecified outcome_completed outcome_cancelled outcome_failed : TransferOutcome

pub record TransferResult : Type 0 where
  pub transfer_id : String
  pub outcome : TransferOutcome
  pub error_code : ℕ
  pub upload_file_handle : String

abbrev pub transfer_expired : ℕ
transfer_expired = 27

abbrev pub rate_limited : ℕ
rate_limited = 31

abbrev pub internal_error : ℕ
internal_error = 32

abbrev pub transfer_ttl : ℕ
transfer_ttl = 10 * 60 * 1000

-- `registered` says whether the registry still holds the transfer; a handler may hold it longer.
-- `handoffs` and `pipes` count what the waiting ends got, `results` what went to the one who waits
-- for the upload's result, `notices` the cancellations that went to the bridge, newest first.
pub record Transfer : Type 0 where
  pub id : String
  pub info : TransferInfo
  pub expires_at : ℕ
  pub producer_tx : Bool
  pub consumer_tx : Bool
  pub producer_ack : Bool
  pub result_tx : Bool
  pub cancelled : Bool
  pub terminal : Bool
  pub terminal_code : Option ℕ
  pub registered : Bool
  pub handoffs : ℕ
  pub pipes : ℕ
  pub results : List TransferResult
  pub notices : List TransferResult

abbrev pub expired : ℕ → Transfer → Bool
expired now t = ltb t.expires_at now

unfoldable pub set_producer : Transfer → Bool × Transfer
set_producer t =
    if t.terminal
    then (false, t)
    else if t.producer_tx
    then (true, record t { producer_tx = false; handoffs = t.handoffs + 1 })
    else (false, t)

unfoldable pub set_consumer : Transfer → Bool × Transfer
set_consumer t =
    if t.terminal
    then (false, t)
    else if t.consumer_tx
    then (true, record t { consumer_tx = false; pipes = t.pipes + 1 })
    else (false, t)

-- `producer` keeps the sender of its response, whatever happened since `set_producer`.
abbrev pub keep_ack : Transfer → Transfer
keep_ack t = record t { producer_ack = true }

abbrev pub send_result : TransferResult → Transfer → Transfer
send_result result t =
    if t.result_tx then record t { result_tx = false; results = result ∷ t.results } else t

unfoldable pub complete : Transfer → Transfer
complete t = record t { terminal = true; producer_ack = false }

abbrev pub cancelled_result : ℕ → Transfer → TransferResult
cancelled_result code t = record {
  transfer_id = t.id;
  outcome = outcome_cancelled;
  error_code = code;
  upload_file_handle = "";
}

unfoldable pub cancel : ℕ → Transfer → Transfer
cancel code t =
    if t.terminal
    then t
    else send_result (cancelled_result code t) (record t {
      terminal = true;
      terminal_code = some code;
      producer_ack = false;
      cancelled = true;
    })

abbrev pub notify_cancelled : Bool → ℕ → Transfer → Transfer
notify_cancelled hub code t =
    if hub then record t { notices = cancelled_result code t ∷ t.notices } else t

abbrev pub new_transfer : String → TransferInfo → ℕ → Transfer
new_transfer id info now = record {
  id = id;
  info = info;
  expires_at = now + transfer_ttl;
  producer_tx = true;
  consumer_tx = true;
  producer_ack = false;
  result_tx = true;
  cancelled = false;
  terminal = false;
  terminal_code = none;
  registered = true;
  handoffs = 0;
  pipes = 0;
  results = [];
  notices = [];
}
