-- ===== src/Relay/Streams/Invariant/Upkeep.antt =====
-- The hub's own actions keep the invariant of the hub.
use agent_console.Base.{
  arith, if_cases, inl, inr, List, lookup, ltb, none, Option, Option-cases, refl, remove, some,
  String, string_eq, Table, [], ℕ, ◌==◌, ◌∷◌,
}
use agent_console.Relay.Frame.Messages.{Envelope, Event}
use agent_console.Relay.Frame.Merge.{with_upstream_seq}
use agent_console.Relay.StreamBuffer.{clear}
use agent_console.Relay.Streams.State.{DKey, dkey_eq, DStream}
use agent_console.Relay.Streams.Stash.{clear_pending}
use agent_console.Relay.Streams.Hub.{Control, Hub, view_of}
use agent_console.Relay.Streams.Publish.{fan_live, numbered}
use agent_console.Relay.Streams.Upkeep.{
  close_browser, deserted, emptied, estimate, fan_out_presence, global_buffer_max_bytes, is_quiet,
  lists_of, presence_frame, present_all, present_at, relieve_at, retire_all, sweep_global_memory,
  worst_of,
}
use agent_console.Relay.Streams.Browsers.{remove_browser}
use agent_console.Relay.Streams.Sound.{IsSound, numbered-IsSound}
use agent_console.Relay.Streams.Handlers.{detach_all-IsSound}
use agent_console.Relay.Streams.Invariant.Tables.{
  AllValues, AreSound, lookup-AllValues, put-AreSound,
}
use agent_console.Relay.Streams.Invariant.Browsers.{remove_browser-AreSound}

remove-AllValues {ℓ μ} :
    {V : Type ℓ} (P : V → Type μ) (k : DKey) (t : Table DKey V)
    → AllValues P t
    → AllValues P (remove k t)
unfolding remove
remove-AllValues P k [] a = tt
remove-AllValues P k ((j, v) ∷ t) a =
    if_cases (AllValues P) (j == k) _ _ (λ _. remove-AllValues P k t a.1)
      (λ _. (a.0, remove-AllValues P k t a.1))

module _ {M : Type 0} (event_len : Event M → ℕ) where
  pub close_browser-AreSound :
      (conn reason : String) (h : Hub M)
      → AreSound event_len h
      → AreSound event_len (close_browser conn reason h).0
  unfolding close_browser remove_browser
  close_browser-AreSound conn reason h a = elim (Option-cases (lookup conn h.browsers)) [
    | inl q ↦ rw (close_browser, q) a
    | inr (o, q) ↦ rw (close_browser, q) (remove_browser-AreSound event_len conn h a)
  ]

  retire_all-AreSound :
      (ks : List DKey) (h : Hub M) → AreSound event_len h → AreSound event_len (retire_all ks h)
  unfolding retire_all
  retire_all-AreSound [] h a = a
  retire_all-AreSound (k ∷ ks) h a =
      retire_all-AreSound ks _ (remove-AllValues (IsSound event_len) k h.streams a)

  emptied-IsSound : (d : DStream M) → IsSound event_len (emptied d)
  unfolding emptied clear clear_pending
  emptied-IsSound d = record {
    counted = (refl, refl);
    snapshots_below = tt;
    buffer_below = tt;
    cached = omega arith;
  }

  module _ (encode_direct : Control → List ℕ) where
    relieve_at-AreSound :
        (w : Option (DKey × ℕ)) (h : Hub M)
        → AreSound event_len h
        → AreSound event_len (relieve_at encode_direct w h)
    relieve_at-AreSound none h a = a
    relieve_at-AreSound (some (key, n)) h a = elim (Option-cases (lookup key h.streams)) [
      | inl q ↦ rw (relieve_at, q) a
      | inr (d, q) ↦
          rw (relieve_at, q)
            (put-AreSound event_len key (emptied d) h.streams (emptied-IsSound d) a)
    ]

    pub sweep_global_memory-AreSound :
        (h : Hub M)
        → AreSound event_len h
        → AreSound event_len (sweep_global_memory encode_direct h).0
    unfolding sweep_global_memory
    sweep_global_memory-AreSound h a =
        let g = retire_all (deserted h.streams) h in
        let b = retire_all-AreSound (deserted h.streams) h a in
        if_cases (AreSound event_len) (ltb global_buffer_max_bytes (estimate g)) _ _
          (λ _. relieve_at-AreSound (worst_of none g.streams) g b) (λ _. b)

    module _ (encoded_len : Envelope M → ℕ) (message_id : ℕ → String) (now : ℕ) where
      present_at-AreSound :
          (device : String) (presence : M) (key : DKey) (d : DStream M) (h : Hub M)
          → IsSound event_len d
          → AreSound event_len h
          → AreSound event_len
              (present_at encoded_len encode_direct message_id now device presence key d h)
      unfolding present_at presence_frame with_upstream_seq
      present_at-AreSound device presence key d h s a =
          let f = presence_frame encoded_len message_id now device presence d in
          let e = (numbered encoded_len now f d).0 in
          let r = fan_live f e.subscribers (h.browsers, []) in
          if_cases (AreSound event_len) (is_quiet d) _ _ (λ _. a)
            (λ _.
              put-AreSound event_len key _ h.streams
                (detach_all-IsSound event_len encode_direct key r.1
                  (record (view_of e h) { browsers = r.0 })
                  (numbered-IsSound encoded_len now event_len f d refl s))
                a)

      present_all-AreSound :
          (device : String) (presence : M) (ks : List DKey) (h : Hub M)
          → AreSound event_len h
          → AreSound event_len
              (present_all encoded_len encode_direct message_id now device presence ks h)
      unfolding present_all
      present_all-AreSound device presence [] h a = a
      present_all-AreSound device presence (k ∷ ks) h a =
          present_all-AreSound device presence ks _ one
        where
          one : AreSound event_len (elim (lookup k h.streams) [
            | none ↦ h
            | some d ↦ present_at encoded_len encode_direct message_id now device presence k d h
          ])
          one = elim (Option-cases (lookup k h.streams)) [
            | inl q ↦ rw q a
            | inr (d, q) ↦ rw q (
                present_at-AreSound device presence k d h
                  (lookup-AllValues (IsSound event_len) k d h.streams q a) a)
          ]

      pub fan_out_presence-AreSound :
          (device owner : String) (presence : M) (h : Hub M)
          → AreSound event_len h
          → AreSound event_len
              (fan_out_presence encoded_len encode_direct message_id now device owner presence h)
      unfolding fan_out_presence
      fan_out_presence-AreSound device owner presence h a =
          present_all-AreSound device presence (lists_of owner h.streams) h a
