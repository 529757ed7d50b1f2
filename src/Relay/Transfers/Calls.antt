-- ===== src/Relay/Transfers/Calls.antt =====
-- `TransferRegistry` and the handlers of the bridge's messages, of transfers/mod.rs. The registry is a
-- table of all transfers that were created, of which it holds those that are registered, so that a
-- handler that got a transfer before still reaches it. The random id of a transfer is an argument of
-- `create`, and the clock of what reads it. A step is what happens under one lock; between two steps
-- of a handler those of others may come, so a handler that takes several locks is a list of calls.
-- `touch` takes the transfer as the handler found it, whether or not the registry still holds it.
use agent_console.Base.{
  Bool, List, Option, String, Table, [], false, if◌then◌else◌, insert, leb, none, not, some,
  string_eq, total, ◌++◌, ℕ, ◌&&◌, ◌==◌, ◌∷◌,
}
use agent_console.Relay.Transfers.State.{
  Transfer, TransferInfo, TransferResult, cancel, complete, expired, keep_ack, new_transfer,
  rate_limited, send_result, set_consumer, set_producer, notify_cancelled,
}

pub record TransferRegistry : Type 0 where
  pub transfers : Table String Transfer
  pub hub : Bool

abbrev pub max_concurrent_per_browser : ℕ
max_concurrent_per_browser = 2

abbrev pub max_concurrent_per_device : ℕ
max_concurrent_per_device = 2

-- One transfer changes.
unfoldable pub modify :
    String → (Transfer → Transfer) → Table String Transfer → Table String Transfer
modify id f [] = []
modify id f ((j, t) ∷ ts) =
    let rest = modify id f ts in if j == id then (j, f t) ∷ ts else (j, t) ∷ rest

abbrev pub one_if : Bool → ℕ
one_if b = if b then 1 else 0

-- How many of the transfers that the registry holds are not terminal and pass a test on their info.
abbrev pub live : (TransferInfo → Bool) → Table String Transfer → ℕ
live p ts = total (λ e. one_if (e.1.registered && (not e.1.terminal && p e.1.info))) ts

abbrev pub of_owner : String → TransferInfo → Bool
of_owner owner info = info.owner == owner

abbrev pub of_device : String → TransferInfo → Bool
of_device device info = info.device == device

-- The error code, or none.
unfoldable pub create : String → TransferInfo → ℕ → TransferRegistry → Option ℕ × TransferRegistry
unfolding insert
create id info now r =
    if leb max_concurrent_per_browser (live (of_owner info.owner) r.transfers)
    then (some rate_limited, r)
    else if leb max_concurrent_per_device (live (of_device info.device) r.transfers)
    then (some rate_limited, r)
    else (none, record r { transfers = insert id (new_transfer id info now) r.transfers })

abbrev pub unregister : Transfer → Transfer
unregister t = record t { registered = false }

abbrev pub sweep_one : ℕ → Transfer → Transfer
sweep_one now t = if expired now t then unregister t else t

abbrev pub sweep_all : ℕ → Table String Transfer → Table String Transfer
sweep_all now [] = []
sweep_all now ((j, t) ∷ ts) = (j, sweep_one now t) ∷ sweep_all now ts

-- What the sweep does under the lock of the registry; `cancel_calls` follows for each that it took.
unfoldable pub sweep : ℕ → TransferRegistry → TransferRegistry
sweep now r = record r { transfers = sweep_all now r.transfers }

abbrev pub ready_one : String → Bool → ℕ → Transfer → Transfer
ready_one device ready rejection_code t =
    if t.info.device == device && not ready then cancel rejection_code t else t

-- `completing` follows, under a lock of its own.
abbrev pub result_one : String → TransferResult → Transfer → Transfer
result_one device result t = if t.info.device == device then send_result result t else t

-- What is done to one transfer under one lock, by a handler that holds it.
pub data Touch : Type 0 where
  cancelling notifying : ℕ → Touch
  removing set_producing acknowledging set_consuming completing : Touch
  bridge_ready : String → Bool → ℕ → Touch
  bridge_result : String → TransferResult → Touch

unfoldable pub touch : Bool → Touch → Transfer → Transfer
unfolding set_producer set_consumer complete cancel
touch hub (cancelling code) t = cancel code t
touch hub (notifying code) t = notify_cancelled hub code t
touch hub removing t = unregister t
touch hub set_producing t = (set_producer t).1
touch hub acknowledging t = keep_ack t
touch hub set_consuming t = (set_consumer t).1
touch hub completing t = complete t
touch hub (bridge_ready device ready code) t = ready_one device ready code t
touch hub (bridge_result device result) t = result_one device result t

pub data Call : Type 0 where
  creating : String → TransferInfo → ℕ → Call
  sweeping : ℕ → Call
  touching : String → Touch → Call

-- `already` is what the handler read of `terminal` before it cancels, under a lock of its own.
abbrev pub cancel_calls : String → ℕ → Bool → List Call
cancel_calls id code already =
    touching id (cancelling code) ∷ (if already then [] else touching id (notifying code) ∷ [])

abbrev pub cancel_and_remove : String → ℕ → Bool → List Call
cancel_and_remove id code already = cancel_calls id code already ++ touching id removing ∷ []

unfoldable pub perform : Call → TransferRegistry → TransferRegistry
unfolding create sweep modify touch
perform (creating id info now) r = (create id info now r).1
perform (sweeping now) r = sweep now r
perform (touching id what) r = record r { transfers = modify id (touch r.hub what) r.transfers }

unfoldable pub run : List Call → TransferRegistry → TransferRegistry
unfolding perform
run [] r = r
run (call ∷ calls) r = run calls (perform call r)
