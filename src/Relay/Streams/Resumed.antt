-- ===== src/Relay/Streams/Resumed.antt =====
-- What becomes of a browser that subscribes to a stream.
use agent_console.Base.{
  ap, Bool, false, true, none, Option, is_none, [], ◌≢◌, ◌&&◌, if◌then◌else◌, ==_refl, if_cases,
  inl, inr, insert, List, lookup-insert, lookup, map, refl, some, String, string_eq, ◌∙◌, ◌∷◌, ◌≡◌,
  ◌⊎◌, ℕ,
}
use agent_console.Relay.Outbox.{direct, frame, Outbox, OutItem}
use agent_console.Relay.Streams.State.{DKey, dkey_eq, DStream, SubscriberState, TargetTag}
use agent_console.Relay.Streams.Replay.{replay}
use agent_console.Relay.Streams.Hub.{
  Control, goes_live, Hub, view_of, upstream_stream_id, replay_to, subscribed, View,
}
use agent_console.Relay.Streams.Browsers.{restore, entry_for, joined, browser_subscribe}
use agent_console.Relay.Streams.Bindings.{
  need_binding, need_bindings, stream_at, is_session, has_snapshot,
}
use agent_console.Relay.Streams.Publish.{is_empty}
use agent_console.Relay.Frame.Messages.{Frame}
use agent_console.Relay.Streams.Handover.{replay_to-HasTaken}
use agent_console.Relay.Streams.Restored.{IsServed}
use agent_console.Relay.Streams.Seats.{detach-IsDetached, IsDetached, outbox, subscriber}

entry_for-fields :
    (correlation : String) (awaiting : Bool) (old : Option SubscriberState)
    → ((entry_for correlation awaiting old).awaiting_snapshot ≡ awaiting)
      × ((entry_for correlation awaiting old).subscribe_correlation ≡ correlation)
entry_for-fields correlation awaiting none = (refl, refl)
entry_for-fields correlation awaiting (some s) = (refl, refl)

module _ {M : Type 0} where
  is_empty-true : (fs : List (Frame M)) → is_empty fs ≡ true → fs ≡ []
  is_empty-true [] h = refl
  is_empty-true (f ∷ fs) h = cc

  is_empty-false : (fs : List (Frame M)) → is_empty fs ≡ false → fs ≢ []
  is_empty-false [] h e = cc
  is_empty-false (f ∷ fs) h e = cc

  need_binding-browsers :
      (fresh : String) (key : DKey) (n : String × TargetTag) (h : Hub M)
      → (need_binding fresh key n h).browsers ≡ h.browsers
  unfolding need_binding
  need_binding-browsers fresh key (device, tag) h =
      let P = λ (g : Hub M). g.browsers ≡ h.browsers in
      let uid = upstream_stream_id device tag in
      let d = stream_at fresh key h in
      if_cases P (is_none (lookup uid d.upstreams)) _ _ (λ _. refl)
        λ _.
          if_cases P (is_session key.tag && has_snapshot uid d.upstreams) _ _ (λ _. refl)
            (λ _. refl)

  need_bindings-browsers :
      (fresh : String) (key : DKey) (needs : List (String × TargetTag)) (h : Hub M)
      → (need_bindings fresh key needs h).browsers ≡ h.browsers
  unfolding need_bindings
  need_bindings-browsers fresh key [] h = refl
  need_bindings-browsers fresh key (n ∷ ns) h =
      need_bindings-browsers fresh key ns (need_binding fresh key n h)
      ∙ need_binding-browsers fresh key n h

module _ {M : Type 0} (encode_direct : Control → List ℕ) where
  -- The answer to a subscription, and the replay window of the stream.
  abbrev pub answered : String → DStream M → List (OutItem M)
  answered correlation d =
      direct (encode_direct (subscribed d.stream_id d.epoch (replay d).0 correlation))
      ∷ map frame (replay d).1

  -- A subscriber that is restored either is live, and its open outbox has taken the answer to its
  -- request with the base of the replay window and then the whole window in order; or it is no
  -- longer a subscriber, and its outbox is closed.
  restore-restores :
      (key : DKey) (conn correlation : String) (s : SubscriberState) (o : Outbox M) (v : View M)
      → IsServed conn s o
          (answered correlation v.stream)
          (restore encode_direct key conn correlation s o v)
        ⊎ IsDetached conn (restore encode_direct key conn correlation s o v)
  unfolding restore
  restore-restores key conn correlation s o v =
      let d = v.stream in
      let answer = encode_direct (subscribed d.stream_id d.epoch (replay d).0 correlation) in
      let r = replay_to answer (replay d).1 o in
      let w = record v { browsers = insert conn r.1 v.browsers } in
      let box : lookup conn w.browsers ≡ some r.1 =
        lookup-insert conn conn r.1 v.browsers ∙ rw (==_refl conn) refl in
      if_cases
        (λ (u : View M). IsServed conn s o (answered correlation v.stream) u ⊎ IsDetached conn u)
        r.0 _ _
        (λ ok. inl (
          lookup-insert conn conn (goes_live s) d.subscribers ∙ rw (==_refl conn) refl,
          (r.1, box, replay_to-HasTaken answer (replay d).1 o ok),
        ))
        (λ _. inr (detach-IsDetached encode_direct key conn w r.1 box))

  abbrev entered : String → String → DStream M → DStream M
  entered conn correlation d = record d {
    subscribers =
        insert conn (entry_for correlation (is_empty d.snapshots) (lookup conn d.subscribers))
          d.subscribers;
  }

  -- A subscriber of a stream without a snapshot waits, under the correlation of its request, and
  -- its outbox is as it was. Of a stream with one it is live, and its open outbox has taken the
  -- answer and the whole window; or it is no subscriber, and its outbox is closed.
  abbrev pub Joins : String → String → Outbox M → DStream M → View M → Type 0
  Joins conn correlation o d u =
      ((d.snapshots ≡ [])
        × ((s : SubscriberState) × (subscriber conn u ≡ some s)
            × (s.awaiting_snapshot ≡ true)
            × (s.subscribe_correlation ≡ correlation)
            × (outbox conn u ≡ some o)))
      ⊎ ((d.snapshots ≢ [])
          × (((s : SubscriberState) × (s.subscribe_correlation ≡ correlation)
                × IsServed conn s o (answered correlation (entered conn correlation d)) u)
              ⊎ IsDetached conn u))

  attached-Joins :
      (key : DKey) (conn correlation : String) (o : Outbox M) (d : DStream M) (h : Hub M)
      → lookup conn h.browsers ≡ some o
      → let awaiting = is_empty d.snapshots in
        let s = entry_for correlation awaiting (lookup conn d.subscribers) in
        let v : View M = record (view_of (entered conn correlation d) h) {
          browser_streams = joined conn key h.browser_streams;
        } in
        Joins conn correlation o d
          (if awaiting then v else restore encode_direct key conn correlation s o v)
  attached-Joins key conn correlation o d h b =
      let awaiting = is_empty d.snapshots in
      let s = entry_for correlation awaiting (lookup conn d.subscribers) in
      let (waits, named) = entry_for-fields correlation awaiting (lookup conn d.subscribers) in
      let v : View M = record (view_of (entered conn correlation d) h) {
        browser_streams = joined conn key h.browser_streams;
      } in
      if_cases (λ (u : View M). Joins conn correlation o d u) awaiting _ _
        (λ q. inl (
          is_empty-true d.snapshots q,
          (
            s,
            lookup-insert conn conn s d.subscribers ∙ rw (==_refl conn) refl,
            waits ∙ q,
            named,
            b,
          ),
        ))
        (λ q. inr (
          is_empty-false d.snapshots q,
          elim (restore-restores key conn correlation s o v) [
            | inl x ↦ inl (s, named, x)
            | inr x ↦ inr x
          ],
        ))

  -- A connected browser that subscribes to a stream waits if the stream has no snapshot, its
  -- outbox as it was; if the stream has one, it is live and its open outbox has taken the answer
  -- with the base and then the whole replay window in order, or it is detached and its outbox
  -- closed. The stream is the one that the bindings left, a new one if there was none.
  pub browser_subscribe-Joins :
      (fresh conn : String) (key : DKey) (needs : List (String × TargetTag)) (correlation : String)
      (h : Hub M) (o : Outbox M)
      → lookup conn h.browsers ≡ some o
      → let d = stream_at fresh key (need_bindings fresh key needs h) in
        let g = browser_subscribe encode_direct fresh conn key needs correlation h in
        (u : View M) × (lookup key g.streams ≡ some u.stream)
        × (g.browsers ≡ u.browsers)
        × Joins conn correlation o d u
  unfolding browser_subscribe
  browser_subscribe-Joins fresh conn key needs correlation h o b =
      let g = need_bindings fresh key needs h in
      let d = stream_at fresh key g in
      let s = entry_for correlation (is_empty d.snapshots) (lookup conn d.subscribers) in
      let v : View M = record (view_of (entered conn correlation d) g) {
        browser_streams = joined conn key g.browser_streams;
      } in
      let u =
        if is_empty d.snapshots then v else restore encode_direct key conn correlation s o v in
      let box : lookup conn g.browsers ≡ some o =
        ap (λ t. lookup conn t) (need_bindings-browsers fresh key needs h) ∙ b in
      rw (browser_subscribe, b)
        (
          u,
          lookup-insert key key u.stream g.streams ∙ rw (==_refl key) refl,
          refl,
          attached-Joins key conn correlation o d g box,
        )
