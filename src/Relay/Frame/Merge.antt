-- ===== src/Relay/Frame/Merge.antt =====
-- `merge_pair` of apps/relay/src/realtime/buffer.rs. `encoded_len` is prost's.
use Prim.Native.Nat.{min}
use agent_console.Base.{
  ◌>>=◌, Bool, List, Option, [], eqb, if◌then◌else◌, ltb, nat_eq, none, not, some, split_last,
  string_eq, ℕ, ◌%◌, ◌&&◌, ◌*◌, ◌++◌, ◌+◌, ◌==◌, ◌^◌, ◌∷◌,
}
use agent_console.Relay.Frame.Messages.{
  OutputAppend, Event, output_append, DomainEvent, EventBatch, Payload, event_batch, other_payload,
  Envelope, FrameKind, AppendInfo, MergeInfo, append_info, replace_latest, Frame,
}

abbrev pub u64_mod : ℕ
u64_mod = 2 ^ 64

-- MAX_FRAME_BYTES of crates/protocol/src/codec.rs
abbrev pub max_frame_bytes : ℕ
max_frame_bytes = 1024 * 1024

abbrev pub append_of : Option MergeInfo → Option AppendInfo
append_of (some (append_info a)) = some a
append_of (some (replace_latest key)) = none
append_of none = none

-- The same key, and the second output begins where the first ends.
abbrev pub contiguous : AppendInfo → AppendInfo → Bool
contiguous a b = a.key == b.key && eqb ((a.offset + a.len) % u64_mod) b.offset

-- The lower upstream number, if both are known.
abbrev pub min_seq : Option ℕ → Option ℕ → Option ℕ
min_seq (some s) (some t) = some (min s t)
min_seq _ _ = none

-- The batch of an envelope, when its last event is an `OutputAppend`: what the `as_mut()?` and
-- `last_mut()?` chain reaches.
pub record LastAppend (M : Type 0) : Type 0 where
  pub batch : EventBatch M
  pub before : List (DomainEvent M)
  pub event : DomainEvent M
  pub append : OutputAppend

module _ {M : Type 0} where
  abbrev event_append : Option (Event M) → Option OutputAppend
  event_append (some (output_append a)) = some a
  event_append _ = none

  abbrev pub last_append_of : Option (Payload M) → Option (LastAppend M)
  last_append_of none = none
  last_append_of (some (other_payload m)) = none
  last_append_of (some (event_batch b)) = do
    (before, d) ← split_last b.events
    a ← event_append d.event
    some (record { batch = b; before = before; event = d; append = a })

  unfoldable pub last_append : Envelope M → Option (LastAppend M)
  unfolding split_last
  last_append env = last_append_of env.payload

  -- `app_a.bytes.extend_from_slice(bytes_b)` on a clone of the envelope.
  unfoldable pub extended : Envelope M → LastAppend M → List ℕ → Envelope M
  extended env l extra = record env {
    payload = some (
        event_batch (record batch {
          events =
              l.before
              ++ (record event {
                event = some (output_append (record append { bytes = append.bytes ++ extra }));
              })
                ∷ [];
        }));
  }
    where
      open l use {batch, event, append}

  module _ (encoded_len : Envelope M → ℕ) where
    -- `Frame::with_upstream_seq`, at the time `now`.
    unfoldable pub with_upstream_seq :
        ℕ → Envelope M → FrameKind → Option MergeInfo → Option ℕ → Frame M
    with_upstream_seq now env kind merge upstream_seq = record {
      env = env;
      kind = kind;
      merge = merge;
      upstream_seq = upstream_seq;
      ts = now;
      bytes_len = encoded_len env;
    }

    unfoldable pub merged :
        ℕ → Frame M → AppendInfo → AppendInfo → LastAppend M → LastAppend M → Option ℕ → Frame M
    unfolding with_upstream_seq
    merged now a ia ib la lb =
        with_upstream_seq now (extended a.env la lb.append.bytes) a.kind
          (some (append_info (record ia { len = ia.len + ib.len })))

    unfoldable pub merge_pair : ℕ → Frame M → Frame M → Option (Frame M)
    unfolding merged last_append
    merge_pair now a b = do
      ia ← append_of a.merge
      ib ← append_of b.merge
      if not (contiguous ia ib) then none else do
        la ← last_append a.env
        lb ← last_append b.env
        if ltb max_frame_bytes (encoded_len (extended a.env la lb.append.bytes))
            then none
            else some (merged now a ia ib la lb (min_seq a.upstream_seq b.upstream_seq))
