-- ===== src/Bridge/Queue/Resume.antt =====
-- `get` and `resume` of commands/queue.rs. Parsing a UUID is the uuid crate's.
use agent_console.Base.{Bool, List, Option, String, nat_eq, none, some, string_eq, true}
use agent_console.Bridge.Store.{
  NextTurnEntry, queued, Stored, ok, set_next_turn, get_next_turn, get_cursor,
}
use agent_console.Bridge.Queue.State.{
  SessionKey, session_ref, RuntimeSnapshot, ReceiptState, Outcome, done, World, query, retry_busy,
}
use agent_console.Bridge.Queue.Manager.{
  QueuedTurn, cursor_name, domain_turn, ensure_watcher, entry_from_snapshot, on_ok, with_snapshot,
}
use agent_console.Bridge.Queue.Events.{maybe_auto_send}

module _ (parse_uuid : String → Option String) where
  abbrev uuid_of : Stored (Option String) → String
  uuid_of (ok (some text)) = elim (parse_uuid text) [
    | some id ↦ id
    | none ↦ "00000000-0000-0000-0000-000000000000"
  ]
  uuid_of _ = "00000000-0000-0000-0000-000000000000"

  unfoldable pub stored_request_id : SessionKey → World → String × World
  unfolding query
  stored_request_id key w = let (r, v) = query (get_cursor (cursor_name key)) w in (uuid_of r, v)

  abbrev get_on : SessionKey → Option NextTurnEntry → World → Outcome (Option QueuedTurn) × World
  get_on key none w = (done none, w)
  get_on key (some entry) w =
      let (id, v) = stored_request_id key w in (done (some (domain_turn entry id entry.prompt)), v)

  unfoldable pub get : SessionKey → World → Outcome (Option QueuedTurn) × World
  unfolding stored_request_id domain_turn session_ref
  get key w = on_ok (get_on key) (query (get_next_turn (session_ref key)) w)

  abbrev rebound : String → SessionKey → RuntimeSnapshot → NextTurnEntry → NextTurnEntry
  rebound now key snapshot entry = record entry {
    after_turn_id = (entry_from_snapshot now key snapshot entry.prompt).after_turn_id;
    runtime_revision = (entry_from_snapshot now key snapshot entry.prompt).runtime_revision;
    status = queued;
    updated_at = now;
  }

  -- `again` is the snapshot that `maybe_auto_send` takes for itself.
  abbrev resume_bound :
      Bool
      → SessionKey
      → String
      → Outcome RuntimeSnapshot
      → Outcome (List ReceiptState)
      → NextTurnEntry
      → World
      → Outcome (Option QueuedTurn) × World
  resume_bound subscribed key id again exec entry w =
      on_ok
        (λ u v.
          let (request_id, x) = stored_request_id key (ensure_watcher subscribed key v) in
          (
            done (some (domain_turn entry request_id entry.prompt)),
            maybe_auto_send key id again exec x,
          ))
        (retry_busy (set_next_turn w.now entry true) w)

  abbrev resume_on :
      Bool
      → SessionKey
      → String
      → Outcome RuntimeSnapshot
      → Outcome RuntimeSnapshot
      → Outcome (List ReceiptState)
      → Option NextTurnEntry
      → World
      → Outcome (Option QueuedTurn) × World
  resume_on subscribed key id snap again exec none w = (done none, w)
  resume_on subscribed key id snap again exec (some entry) w =
      with_snapshot
        (λ snapshot v.
          resume_bound subscribed key id again exec (rebound v.now key snapshot entry) v)
        snap w

  unfoldable pub resume :
      Bool
      → SessionKey
      → String
      → Outcome RuntimeSnapshot
      → Outcome RuntimeSnapshot
      → Outcome (List ReceiptState)
      → World
      → Outcome (Option QueuedTurn) × World
  unfolding stored_request_id domain_turn session_ref entry_from_snapshot ensure_watcher
  resume subscribed key id snap again exec w =
      on_ok (resume_on subscribed key id snap again exec)
        (query (get_next_turn (session_ref key)) w)
