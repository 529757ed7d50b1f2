-- ===== src/Relay/Streams/Restart.antt =====
-- What `handle_upstream_subscribed` does to a stream.
use agent_console.Base.{
  ap, keep, map, not, ◌++◌, eqb_iff, Option, ◌-◌, ◌==◌, ◌≢◌, arith, nat_eq, ==_refl, All,
  Bool-cases, false, inl, inr, insert, lookup, lookup-insert, List, refl, some, String, string_eq,
  Table, true, [], ℕ, ◌+◌, ◌∙◌, ◌∷◌, ◌≡◌, ◌⊎◌,
}
use agent_console.Relay.StreamBuffer.{clear}
use agent_console.Relay.Streams.State.{DKey, dkey_eq, DStream, SubscriberState, UpstreamBinding}
use agent_console.Relay.Streams.Stash.{clear_pending}
use agent_console.Relay.Streams.Hub.{awaits, Control, forget, Hub, keys, update_all}
use agent_console.Relay.Streams.Subscribed.{
  epoch_changed, fixed, handle_upstream_subscribed, reset_for,
}
use agent_console.Relay.Streams.Duplicates.{find_upstream-of, Leads}

update_all-awaits :
    (t : Table String SubscriberState)
    → All (λ e. e.1.awaiting_snapshot ≡ true) (update_all awaits t)
update_all-awaits [] = tt
update_all-awaits (e ∷ t) = (refl, update_all-awaits t)

update_all-keys : (t : Table String SubscriberState) → keys (update_all awaits t) ≡ keys t
update_all-keys [] = refl
update_all-keys (e ∷ t) = rw (update_all-keys t) refl

-- The binding as an answer leaves it: it waits for the snapshot of the epoch, and what is below
-- the base is taken as seen.
abbrev pub IsAnswered : ℕ → ℕ → UpstreamBinding → Option UpstreamBinding → Type 0
IsAnswered epoch base b found =
    (c : UpstreamBinding) × (found ≡ some c)
    × (c.device ≡ b.device)
    × (c.epoch ≡ epoch)
    × (c.last_seq ≡ base - 1)
    × (c.snapshot_covers ≡ base)
    × (c.snapshot_received ≡ false)

epoch_changed-true :
    (epoch : ℕ) (b : UpstreamBinding)
    → epoch_changed epoch b ≡ true
    → (b.snapshot_received ≡ true) × (b.epoch ≢ epoch)
epoch_changed-true epoch b h =
    (ground arith, λ e. let same = (eqb_iff b.epoch epoch).1 e in absurd (ground arith))

epoch_changed-false :
    (epoch : ℕ) (b : UpstreamBinding)
    → epoch_changed epoch b ≡ false
    → (b.snapshot_received ≡ false) ⊎ (b.epoch ≡ epoch)
epoch_changed-false epoch b h = elim (Bool-cases b.snapshot_received) [
  | inr q ↦ inl q
  | inl q ↦ inr (ground (arith, q))
]

keep-insert :
    (uid : String) (b : UpstreamBinding) (t : Table String UpstreamBinding)
    → keep (λ e. not (e.0 == uid)) (insert uid b t) ≡ keep (λ e. not (e.0 == uid)) t
unfolding insert
keep-insert uid b [] = rw (==_refl uid) refl
keep-insert uid b ((j, c) ∷ t) = elim (Bool-cases (j == uid)) [
  | inl q ↦ rw (q, ==_refl uid) refl
  | inr q ↦ rw (q, q) (ap (λ l. (j, c) ∷ l) (keep-insert uid b t))
]

module _ {M : Type 0} where
  -- The stream in a new epoch: nothing is cached or stashed, every subscriber waits for a snapshot,
  -- and the numbers go on.
  abbrev pub IsRestarted : DStream M → DStream M → Type 0
  IsRestarted d e =
      (e.key ≡ d.key)
      × (e.stream_id ≡ d.stream_id)
      × (e.epoch ≡ d.epoch + 1)
      × (e.next_seq ≡ d.next_seq)
      × (e.snapshots ≡ [])
      × (e.buffer.items ≡ [])
      × (e.buffer.bytes ≡ 0)
      × (e.pending_batches ≡ [])
      × (e.pending_bytes ≡ 0)
      × (e.pending_events ≡ 0)
      × (keys e.subscribers ≡ keys d.subscribers)
      × All (λ s. s.1.awaiting_snapshot ≡ true) e.subscribers

  -- All of the stream is as it was, but for its bindings.
  abbrev pub IsContinued : DStream M → DStream M → Type 0
  IsContinued d e = record d { upstreams = e.upstreams } ≡ e

  -- The upstreams of the stream but for one are asked for their snapshots again.
  abbrev pub AsksOthers : String → DStream M → DKey → Hub M → Hub M → Type 0
  AsksOthers uid d key h g =
      g.asked
      ≡ h.asked ++ map (λ e. (e.1.device, key.tag)) (keep (λ e. not (e.0 == uid)) d.upstreams)

  -- The hub but for its streams.
  abbrev pub SameAround : Hub M → Hub M → Type 0
  SameAround h g =
      (g.upstream_index ≡ h.upstream_index)
      × (g.browsers ≡ h.browsers)
      × (g.browser_streams ≡ h.browser_streams)
      × (g.asked ≡ h.asked)

  -- What an answer of an upstream makes of its stream `d`, which becomes `e`: another epoch than
  -- that of a snapshot restarts it, and otherwise only the one binding changes.
  abbrev pub Restarts :
      ℕ
      → ℕ
      → String
      → String
      → DKey
      → UpstreamBinding
      → DStream M
      → DStream M
      → Hub M
      → Hub M
      → Type 0
  Restarts epoch base uid other key b d e h g =
      ((b.snapshot_received ≡ true)
        × (b.epoch ≢ epoch)
        × IsRestarted d e
        × AsksOthers uid d key h g)
      ⊎ (((b.snapshot_received ≡ false) ⊎ (b.epoch ≡ epoch))
          × IsContinued d e
          × IsAnswered epoch base b (lookup uid e.upstreams)
          × (lookup other e.upstreams ≡ lookup other d.upstreams)
          × SameAround h g)

  reset_for-IsRestarted : (uid : String) (d : DStream M) → IsRestarted d (reset_for uid d)
  unfolding reset_for forget clear clear_pending
  reset_for-IsRestarted uid d = (
    refl,
    refl,
    refl,
    refl,
    refl,
    refl,
    refl,
    refl,
    refl,
    refl,
    update_all-keys d.subscribers,
    update_all-awaits d.subscribers,
  )

  -- When an upstream that had its snapshot answers with another epoch, the caches and the stash of
  -- its stream are emptied, its epoch counts up, all its subscribers wait, its numbers go on, and
  -- every other upstream of it is subscribed to again.
  -- Any other answer changes the binding of this upstream and nothing else of the stream, and no
  -- other part of the hub. Either way every other stream stays as it was.
  pub handle_upstream_subscribed-Restarts :
      (encode_direct : Control → List ℕ) (uid other : String) (epoch base : ℕ) (h : Hub M)
      (key beside : DKey) (d : DStream M) (b : UpstreamBinding)
      → Leads uid h key d b
      → (uid == other) ≡ false
      → (key == beside) ≡ false
      → let g = handle_upstream_subscribed encode_direct uid epoch base h in
        (lookup beside g.streams ≡ lookup beside h.streams)
        × ((e : DStream M) × (lookup key g.streams ≡ some e)
            × Restarts epoch base uid other key b d e h g)
  unfolding handle_upstream_subscribed
  handle_upstream_subscribed-Restarts encode_direct uid other epoch base h key beside d b l apart
        away =
      let found = find_upstream-of uid h key d b l in
      let c = fixed epoch base b in
      let e = record d { upstreams = insert uid c d.upstreams } in
      elim (Bool-cases (epoch_changed epoch b)) [
        | inl q ↦
            let (had, other_epoch) = epoch_changed-true epoch b q in
            rw (handle_upstream_subscribed, found, q)
              (
                lookup-insert key beside (reset_for uid e) h.streams ∙ rw away refl,
                (
                  reset_for uid e,
                  lookup-insert key key (reset_for uid e) h.streams ∙ rw (==_refl key) refl,
                  inl (
                    had,
                    other_epoch,
                    reset_for-IsRestarted uid e,
                    ap (λ t. h.asked ++ map (λ o. (o.1.device, key.tag)) t)
                        (keep-insert uid c d.upstreams),
                  ),
                ),
              )
        | inr q ↦
            rw (handle_upstream_subscribed, found, q)
              (
                lookup-insert key beside e h.streams ∙ rw away refl,
                (
                  e,
                  lookup-insert key key e h.streams ∙ rw (==_refl key) refl,
                  inr (
                    epoch_changed-false epoch b q,
                    refl,
                    (
                      c,
                      lookup-insert uid uid c d.upstreams ∙ rw (==_refl uid) refl,
                      refl,
                      refl,
                      refl,
                      refl,
                      refl,
                    ),
                    lookup-insert uid other c d.upstreams ∙ rw apart refl,
                    (refl, refl, refl, refl),
                  ),
                ),
              )
      ]
