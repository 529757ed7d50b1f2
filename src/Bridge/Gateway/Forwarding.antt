-- ===== src/Bridge/Gateway/Forwarding.antt =====
-- The forwarding of receipts and `graceful_shutdown` of commands/gateway.rs. A task of
-- `spawn_forward` is an entry of `forwarding`; a shutdown drains the map in the order of its list.
use agent_console.Base.{
  List, Option, String, [], if◌then◌else◌, is_some, lookup, map, nat_eq, none, remove, some,
  string_eq, true, ◌∷◌,
}
use agent_console.Bridge.Queue.State.{ReceiptState, receipt_outcome_unknown}
use agent_console.Bridge.Gateway.State.{CommandGateway, turn_eq}
use agent_console.Bridge.Gateway.Submit.{finalize_receipt, is_terminal, report}

-- The task of `spawn_forward` that serves a request ends: `none` is a stream that ended.
abbrev pub forward_next : String → Option ReceiptState → CommandGateway → CommandGateway
forward_next request_id none g =
    let g' = finalize_receipt request_id receipt_outcome_unknown g in
    record g' { forwarding = remove request_id g'.forwarding }
forward_next request_id (some state) g =
    if is_terminal state
    then (let g' = finalize_receipt request_id state g in
        record g' { forwarding = remove request_id g'.forwarding })
    else report request_id state g

unfoldable pub forward : String → Option ReceiptState → CommandGateway → CommandGateway
unfolding report finalize_receipt lookup
forward request_id next g =
    if is_some (lookup request_id g.forwarding) then forward_next request_id next g else g

abbrev pub finalize_all : List String → CommandGateway → CommandGateway
finalize_all [] g = g
finalize_all (request_id ∷ ids) g = finalize_all ids (report request_id receipt_outcome_unknown g)

unfoldable pub graceful_shutdown : CommandGateway → List String × CommandGateway
unfolding report
graceful_shutdown g =
    let pending = map (λ p. p.0) g.inflight in
    (pending, finalize_all pending (record g { closed = true; inflight = [] }))
