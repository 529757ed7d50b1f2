-- ===== src/Relay/Streams/Stash.antt =====
-- `push_pending` and `clear_pending` of apps/relay/src/realtime/mod.rs: the batches of events that
-- wait for the first snapshot. `event_len` is prost's length of an encoded event.
pub mod Budget
use agent_console.Base.{
  Bool, false, if◌then◌else◌, length, List, ltb, none, Option, some, string_eq, suc, total, true,
  zero, [], ℕ, ◌++◌, ◌+◌, ◌-◌, ◌||◌, ◌∷◌,
}
use agent_console.Relay.Frame.Messages.{Event, same_kind, mergeable}
use agent_console.Relay.Frame.Classify.{classify}
use agent_console.Relay.Streams.State.{
  DStream, PendingUpstreamBatch, buffer_max_bytes, snapshot_pending_max_events,
}

module _ {M : Type 0} where
  abbrev pub is_mergeable : Event M → Bool
  is_mergeable e = same_kind (classify e).0 mergeable

  -- `position` and `remove`: the first Mergeable event, and the others.
  unfoldable pub take_mergeable : List (Event M) → Option (Event M × List (Event M))
  take_mergeable [] = none
  take_mergeable (e ∷ es) =
      let later = take_mergeable es in
      if is_mergeable e
      then some (e, es)
      else elim later [ none ↦ none | some (x, rest) ↦ some (x, e ∷ rest) ]

  -- A batch that has lost its last event leaves.
  abbrev pub put_back :
      PendingUpstreamBatch M
      → List (Event M)
      → List (PendingUpstreamBatch M)
      → List (PendingUpstreamBatch M)
  put_back b [] bs = bs
  put_back b (e ∷ es) bs = (record b { events = e ∷ es }) ∷ bs

  -- The `'drop` loop: the first Mergeable event of the first batch that has one.
  unfoldable pub evict_one :
      List (PendingUpstreamBatch M) → Option (Event M × List (PendingUpstreamBatch M))
  unfolding take_mergeable
  evict_one [] = none
  evict_one (b ∷ bs) =
      let later = evict_one bs in
      elim (take_mergeable b.events) [
        | some (e, rest) ↦ some (e, put_back b rest bs)
        | none ↦ elim later [ none ↦ none | some (e, rest) ↦ some (e, b ∷ rest) ]
      ]

  abbrev pub over_budget : DStream M → Bool
  over_budget d =
      ltb snapshot_pending_max_events d.pending_events || ltb buffer_max_bytes d.pending_bytes

  module _ (event_len : Event M → ℕ) where
    abbrev pub evicted : Event M → List (PendingUpstreamBatch M) → DStream M → DStream M
    evicted e rest d = record d {
      pending_batches = rest;
      pending_events = d.pending_events - 1;
      pending_bytes = d.pending_bytes - event_len e;
    }

    -- The `while` loop. Each turn removes an event.
    unfoldable pub relieve_pending : ℕ → DStream M → DStream M × Bool
    unfolding evict_one
    relieve_pending zero d = (d, false)
    relieve_pending (suc fuel) d = elim (over_budget d) [
      | false ↦ (d, false)
      | true ↦ elim (evict_one d.pending_batches) [
        | none ↦ (d, true)
        | some (e, rest) ↦ relieve_pending fuel (evicted e rest d)
      ]
    ]

    abbrev pub stashed : PendingUpstreamBatch M → DStream M → DStream M
    stashed batch d = record d {
      pending_events = d.pending_events + length batch.events;
      pending_bytes = d.pending_bytes + total event_len batch.events;
      pending_batches = d.pending_batches ++ batch ∷ [];
    }

    -- `true` asks the caller for a recovery.
    unfoldable pub push_pending : PendingUpstreamBatch M → DStream M → DStream M × Bool
    unfolding relieve_pending
    push_pending batch d = let d1 = stashed batch d in relieve_pending (suc d1.pending_events) d1

  unfoldable pub clear_pending : DStream M → DStream M
  clear_pending d = record d { pending_batches = []; pending_bytes = 0; pending_events = 0 }
