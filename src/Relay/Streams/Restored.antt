-- ===== src/Relay/Streams/Restored.antt =====
-- What becomes of one subscriber when a snapshot is handed out, and when it subscribes or resumes.
use mathlib.Core.Bool.{false≢true}
use agent_console.Base.{
  ◌∙◌, ◌∷◌, ◌≡◌, ◌⊎◌, Bool, false, if◌then◌else◌, inl, inr, List, map, refl, some, String,
  string_eq, sym, true, [], ℕ,
}
use agent_console.Relay.Frame.Messages.{Frame}
use agent_console.Relay.Outbox.{direct, frame, Outbox, OutItem, push_frame}
use agent_console.Relay.Streams.State.{DKey, DStream, dkey_eq, SubscriberState}
use agent_console.Relay.Streams.Replay.{replay}
use agent_console.Relay.Streams.Hub.{Control, goes_live, keys, replay_to, subscribed, View}
use agent_console.Relay.Streams.Upstream.{accepted_by, deliver_snapshot, flush, hand_to}
use agent_console.Relay.Streams.Handover.{HasTaken, push_frame-HasTaken, replay_to-HasTaken}
use agent_console.Relay.Streams.Seats.{detach_all-cases, IsDetached, IsDistinct, outbox, subscriber}
use agent_console.Relay.Streams.Flushing.{flush-IsSettled, IsSettled, lookup-occurs, SameStream}

module _ {M : Type 0} where
  -- A subscriber's outbox after a snapshot: what it held, and then the answer to its subscription
  -- with the whole replay window if it was waiting, or else the frame of the snapshot.
  abbrev pub due : (Control → List ℕ) → Frame M → DStream M → SubscriberState → List (OutItem M)
  due encode_direct f d s =
      if s.awaiting_snapshot
      then direct
          (encode_direct (subscribed d.stream_id d.epoch (replay d).0 s.subscribe_correlation))
        ∷ map frame (replay d).1
      else frame f ∷ []

  -- A subscriber that is served in full is live, and its open outbox has taken what is due.
  abbrev pub IsServed : String → SubscriberState → Outbox M → List (OutItem M) → View M → Type 0
  IsServed c s o added v =
      (subscriber c v ≡ some (goes_live s))
      × ((q : Outbox M) × (outbox c v ≡ some q) × HasTaken o added q)

  hand_to-HasTaken :
      (encode_direct : Control → List ℕ) (f : Frame M) (d : DStream M) (s : SubscriberState)
      (o : Outbox M)
      → (hand_to encode_direct f (replay d) d s o).0 ≡ true
      → HasTaken o (due encode_direct f d s) (hand_to encode_direct f (replay d) d s o).1
  hand_to-HasTaken encode_direct f d s o =
      let answer =
        encode_direct (subscribed d.stream_id d.epoch (replay d).0 s.subscribe_correlation) in
      in_either (direct answer ∷ map frame (replay d).1) (frame f ∷ [])
        (replay_to answer (replay d).1 o) (accepted_by (push_frame f o)) s.awaiting_snapshot
        (replay_to-HasTaken answer (replay d).1 o) (push_frame-HasTaken f o)
    where
      in_either :
          (a b : List (OutItem M)) (x y : Bool × Outbox M) (w : Bool)
          → (x.0 ≡ true → HasTaken o a x.1)
          → (y.0 ≡ true → HasTaken o b y.1)
          → (if w then x else y).0 ≡ true
          → HasTaken o (if w then a else b) (if w then x else y).1
      in_either a b x y true h g = h
      in_either a b x y false h g = g

  -- When a snapshot is handed out, a subscriber with an outbox, in a table where no subscriber
  -- stands twice, is either live and its open outbox has taken all that is due, or detached: then
  -- it is no longer a subscriber and its outbox is closed.
  pub deliver_snapshot-restores :
      (encode_direct : Control → List ℕ) (key : DKey) (f : Frame M) (v : View M) (c : String)
      (s : SubscriberState) (o : Outbox M)
      → IsDistinct (keys v.stream.subscribers)
      → subscriber c v ≡ some s
      → outbox c v ≡ some o
      → IsServed c s o (due encode_direct f v.stream s) (deliver_snapshot encode_direct key f v)
        ⊎ IsDetached c (deliver_snapshot encode_direct key f v)
  unfolding deliver_snapshot IsSettled SameStream
  deliver_snapshot-restores encode_direct key f v c s o d e b =
      let cs = keys v.stream.subscribers in
      let r = flush encode_direct f (replay v.stream) cs (v, []) in
      let k = hand_to encode_direct f (replay v.stream) v.stream s o in
      let (box, ways) =
        flush-IsSettled encode_direct f (replay v.stream) v c s o cs (v, []) (refl, refl) e b refl
          (lookup-occurs c s v.stream.subscribers e) d in
      elim (detach_all-cases encode_direct key c r.1 r.0 k.1 box) [
        | inl (m, gone) ↦ inr gone
        | inr (m, (x, y)) ↦ elim ways [
          | inl (ok, live, n) ↦
              inl (x ∙ live, (k.1, y ∙ box, hand_to-HasTaken encode_direct f v.stream s o ok))
          | inr n ↦ absurd (false≢true (sym m ∙ n))
        ]
      ]
