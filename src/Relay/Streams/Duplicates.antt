-- ===== src/Relay/Streams/Duplicates.antt =====
-- Batches that an upstream sends again.
use mathlib.Core.Bool.{false≢true}
use agent_console.Base.{
  ◌&&◌, ◌∙◌, ◌∷◌, ◌≡◌, ◌≢◌, ◌≤◌, ap, arith, Bool-cases, eqb, false, if_cases, inl, inr, List,
  lookup, lookup-insert, nat_eq, not, refl, some, String, string_eq, sym, true, [], ℕ, ==_refl,
}
use agent_console.Relay.Frame.Messages.{Envelope, Event, Frame}
use agent_console.Relay.StreamBuffer.{buffered, InsertOutcome, overflow_reset}
use agent_console.Relay.Streams.State.{DKey, dkey_eq, DStream, UpstreamBinding}
use agent_console.Relay.Streams.Hub.{
  Control, detach_all, detach_failed_subscriber, Hub, put_view, View, view_of,
}
use agent_console.Relay.Streams.Publish.{
  event_frame, Incoming, is_empty, numbered, publish, publish_all, seen, spread,
}
use agent_console.Relay.Streams.Upstream.{advance, fan_out_events, find_upstream, publish_batch}

seen_at : (n m : ℕ) → m ≢ 0 → m ≤ n → seen m n ≡ true
seen_at n m p l = ground arith

seen_below : (n m k : ℕ) → m ≢ 0 → m ≤ n → seen n k ≡ true → seen m k ≡ true
seen_below n m k p l s = ground arith

positive : (n m : ℕ) → m ≢ 0 → m ≤ n → eqb n 0 ≡ false
positive n m p l = ground arith

advance-marks :
    {M : Type 0} (uid : String) (inc : Incoming) (b : UpstreamBinding) (d : DStream M)
    → eqb inc.sequence 0 ≡ false
    → lookup uid (advance uid inc b d).upstreams ≡ some (record b { last_seq = inc.sequence })
advance-marks uid inc b d n =
    if_cases
      (λ (e : DStream _). lookup uid e.upstreams ≡ some (record b { last_seq = inc.sequence }))
      (eqb inc.sequence 0) _ _ (λ y. absurd (false≢true (sym n ∙ y)))
      (λ _.
        lookup-insert uid uid (record b { last_seq = inc.sequence }) d.upstreams
        ∙ rw (==_refl uid) refl)

module _ {M : Type 0} where
  -- The upstreams of a stream change neither while frames go out nor while subscribers leave.
  module _ (encode_direct : Control → List ℕ) where
    detach_all-upstreams :
        (key : DKey) (cs : List String) (v : View M)
        → (detach_all encode_direct key cs v).stream.upstreams ≡ v.stream.upstreams
    unfolding detach_all detach_failed_subscriber
    detach_all-upstreams key [] v = refl
    detach_all-upstreams key (c ∷ cs) v =
        detach_all-upstreams key cs (detach_failed_subscriber encode_direct key c v)

    spread-upstreams :
        (f : Frame M) (k : DStream M × InsertOutcome) (r : View M × List String)
        → (spread encode_direct f k r).0.stream.upstreams ≡ k.0.upstreams
    spread-upstreams f (d, overflow_reset) r = refl
    spread-upstreams f (d, buffered) r = refl

    module _ (encoded_len : Envelope M → ℕ) (message_id : ℕ → String) (now : ℕ) where
      publish_all-upstreams :
          (inc : Incoming) (es : List (Event M)) (r : View M × List String)
          → (publish_all encoded_len encode_direct message_id now inc es r).0.stream.upstreams
            ≡ r.0.stream.upstreams
      unfolding publish_all publish
      publish_all-upstreams inc [] r = refl
      publish_all-upstreams inc (e ∷ es) r =
          let f = event_frame encoded_len message_id now inc r.0.stream e in
          let k = numbered encoded_len now f r.0.stream in
          publish_all-upstreams inc es (spread encode_direct f k r) ∙ spread-upstreams f k r

      publish_batch-upstreams :
          (event_len : Event M → ℕ) (key : DKey) (inc : Incoming) (es : List (Event M)) (v : View M)
          → (publish_batch encoded_len event_len encode_direct message_id now key inc es
              v).stream.upstreams
            ≡ v.stream.upstreams
      unfolding publish_batch
      publish_batch-upstreams event_len key inc es v =
          let r = publish_all encoded_len encode_direct message_id now inc es (v, []) in
          detach_all-upstreams key r.1 r.0 ∙ publish_all-upstreams inc es (v, [])

  -- The parts of a route, and a route from its parts.
  abbrev pub Leads : String → Hub M → DKey → DStream M → UpstreamBinding → Type 0
  Leads uid h key d b =
      (lookup uid h.upstream_index ≡ some key)
      × (lookup key h.streams ≡ some d)
      × (lookup uid d.upstreams ≡ some b)

  pub find_upstream-of :
      (uid : String) (h : Hub M) (key : DKey) (d : DStream M) (b : UpstreamBinding)
      → Leads uid h key d b
      → find_upstream uid h ≡ some (key, d, b)
  find_upstream-of uid h key d b (x, y, z) = rw (find_upstream, x) (rw y (rw z refl))

  module _ (encoded_len : Envelope M → ℕ) (event_len : Event M → ℕ)
      (encode_direct : Control → List ℕ) (message_id : ℕ → String) (now : ℕ) where
    fan_out_seen :
        (uid : String) (inc : Incoming) (es : List (Event M)) (h : Hub M) (key : DKey)
        (d : DStream M) (b : UpstreamBinding)
        → Leads uid h key d b
        → seen inc.sequence b.last_seq ≡ true
        → fan_out_events encoded_len event_len encode_direct message_id now uid inc es h ≡ h
    unfolding fan_out_events
    fan_out_seen uid inc es h key d b l s =
        rw (fan_out_events, find_upstream-of uid h key d b l) (rw s refl)

    -- A batch with some event comes from an upstream that the hub routes to a stream, and is not
    -- stashed, as the upstream or the stream has a snapshot. Whatever the upstream then sends with
    -- a number that is not zero and not above that of the batch changes nothing at all.
    pub fan_out_events-once :
        (uid : String) (inc again : Incoming) (e : Event M) (es more : List (Event M)) (h : Hub M)
        (key : DKey) (d : DStream M) (b : UpstreamBinding)
        → Leads uid h key d b
        → (not b.snapshot_received && is_empty d.snapshots) ≡ false
        → again.sequence ≢ 0
        → again.sequence ≤ inc.sequence
        → fan_out_events encoded_len event_len encode_direct message_id now uid again more
            (fan_out_events encoded_len event_len encode_direct message_id now uid inc (e ∷ es) h)
          ≡ fan_out_events encoded_len event_len encode_direct message_id now uid inc (e ∷ es) h
    unfolding fan_out_events
    fan_out_events-once uid inc again e es more h key d b (x, y, z) ready some_number below =
        elim (Bool-cases (seen inc.sequence b.last_seq)) [
          | inl old ↦
              let same = fan_out_seen uid inc (e ∷ es) h key d b (x, y, z) old in
              rw same (
                fan_out_seen uid again more h key d b (x, y, z)
                  (seen_below inc.sequence again.sequence b.last_seq some_number below old))
          | inr fresh ↦
              let v = view_of (advance uid inc b d) h in
              let w =
                publish_batch encoded_len event_len encode_direct message_id now key inc (e ∷ es)
                  v in
              let sent : fan_out_events encoded_len event_len encode_direct message_id now uid inc
                    (e ∷ es) h
                  ≡ put_view key w h =
                rw (fan_out_events, find_upstream-of uid h key d b (x, y, z))
                  (rw fresh (rw ready refl)) in
              let marked : lookup uid w.stream.upstreams
                  ≡ some (record b { last_seq = inc.sequence }) =
                ap (lookup uid) (
                  publish_batch-upstreams encode_direct encoded_len message_id now event_len key inc
                    (e ∷ es) v)
                ∙ advance-marks uid inc b d
                    (positive inc.sequence again.sequence some_number below) in
              let found : lookup key (put_view key w h).streams ≡ some w.stream =
                lookup-insert key key w.stream h.streams ∙ rw (==_refl key) refl in
              rw sent (
                fan_out_seen uid again more (put_view key w h) key w.stream
                  (record b { last_seq = inc.sequence }) (x, found, marked)
                  (seen_at inc.sequence again.sequence some_number below))
        ]
