-- ===== src/Relay/StreamBuffer.antt =====
-- `StreamBuffer` of apps/relay/src/realtime/buffer.rs: the bounded replay window of a stream. The
-- queue is a list, its front first. All readings of the clock within one call are the argument
-- `now`. Byte counts are sizes of frames in memory and do not wrap.
pub mod Bounds
pub mod Queue
pub mod Critical
pub mod Output
pub mod Covered
pub mod Kept
use mathlib.Core.List.{reverse}
use agent_console.Base.{
  >>=-some, ◌>>=◌, Bool, List, Option, String, [], false, if◌then◌else◌, keep, leb, length, ltb,
  nat_eq, none, not, some, split_last, string_eq, suc, total, true, zero, ℕ, ◌&&◌, ◌++◌, ◌+◌, ◌-◌,
  ◌==◌, ◌∷◌,
}
use agent_console.Relay.Frame.Messages.{
  Envelope, FrameKind, recoverable, mergeable, same_kind, MergeInfo, append_info, replace_latest,
  Frame,
}
use agent_console.Relay.Frame.Merge.{merge_pair}
use agent_console.Relay.Coalesce.{replaces, coalesce}

pub record StreamBuffer (M : Type 0) : Type 0 where
  pub items : List (Frame M)
  pub bytes : ℕ
  pub max_events : ℕ
  pub max_bytes : ℕ
  pub retention : ℕ

pub data InsertOutcome : Type 0 where
  buffered overflow_reset : InsertOutcome

abbrev pub recent_window : ℕ
recent_window = 32

module _ {M : Type 0} where
  unfoldable pub new : ℕ → ℕ → ℕ → StreamBuffer M
  new max_events max_bytes retention = record {
    items = [];
    bytes = 0;
    max_events = max_events;
    max_bytes = max_bytes;
    retention = retention;
  }

  abbrev pub within : StreamBuffer M → Bool
  within b = leb (length b.items) b.max_events && leb b.bytes b.max_bytes

  -- The loop that pops expired frames off the front. `duration_since` stops at zero.
  unfoldable pub evict_expired : ℕ → ℕ → List (Frame M) → ℕ → List (Frame M) × ℕ
  evict_expired now retention [] bytes = ([], bytes)
  evict_expired now retention (f ∷ fs) bytes =
      let rest = evict_expired now retention fs (bytes - f.bytes_len) in
      if ltb retention (now - f.ts) then rest else (f ∷ fs, bytes)

  -- The first frame of the list, within a window, that a test finds; and the list without it.
  unfoldable pub take_first :
      ℕ → (Frame M → Bool) → List (Frame M) → Option (Frame M × List (Frame M))
  take_first zero p fs = none
  take_first (suc w) p [] = none
  take_first (suc w) p (f ∷ fs) =
      let later = take_first w p fs in
      if p f then some (f, fs) else elim later [ none ↦ none | some (g, rest) ↦ some (g, f ∷ rest) ]

  -- The latest frame with the same `ReplaceLatest` key, among the last frames, leaves.
  abbrev pub drop_replaced : Option MergeInfo → List (Frame M) → ℕ → List (Frame M) × ℕ
  drop_replaced (some (replace_latest key)) fs bytes =
      elim (take_first recent_window (λ f. replaces key f.merge) (reverse fs)) [
        | none ↦ (fs, bytes)
        | some (old, rest) ↦ (reverse rest, bytes - old.bytes_len)
      ]
  drop_replaced (some (append_info a)) fs bytes = (fs, bytes)
  drop_replaced none fs bytes = (fs, bytes)

  abbrev pub push_back : Frame M → List (Frame M) × ℕ → List (Frame M) × ℕ
  push_back f q = (q.0 ++ f ∷ [], q.1 + f.bytes_len)

  -- One turn of the eviction loop: the first frame of the kind leaves.
  unfoldable pub evict_kind : ℕ → FrameKind → StreamBuffer M → StreamBuffer M
  evict_kind zero kind b = b
  evict_kind (suc fuel) kind b = elim (within b) [
    | true ↦ b
    | false ↦ elim (take_first (length b.items) (λ f. same_kind f.kind kind) b.items) [
      | none ↦ b
      | some (f, rest) ↦
          evict_kind fuel kind (record b { items = rest; bytes = b.bytes - f.bytes_len })
    ]
  ]

  -- Each turn removes a frame, so the queue's length is fuel enough.
  abbrev pub evict_all : FrameKind → StreamBuffer M → StreamBuffer M
  evict_all kind b = evict_kind (length b.items) kind b

  unfoldable pub clear : StreamBuffer M → StreamBuffer M
  clear b = record b { items = []; bytes = 0 }

  -- The end of the pressure path: Mergeable frames go first, then Recoverable ones.
  unfoldable pub evict_or_reset : StreamBuffer M → StreamBuffer M × InsertOutcome
  unfolding evict_kind clear take_first
  evict_or_reset b =
      let b1 = evict_all mergeable b in
      if within b1
      then (b1, buffered)
      else let b2 = evict_all recoverable b1 in
        if within b2 then (b2, buffered) else (clear b2, overflow_reset)

  module _ (encoded_len : Envelope M → ℕ) where
    -- The frame joins the back of the queue, merged with the last frame where that is possible.
    unfoldable pub place : ℕ → Frame M → List (Frame M) → ℕ → List (Frame M) × ℕ
    unfolding split_last take_first
    place now frame fs bytes = elim (split_last fs) [
      | none ↦ push_back frame (drop_replaced frame.merge fs bytes)
      | some (front, prev) ↦ elim (merge_pair encoded_len now prev frame) [
        | some m ↦ (front ++ m ∷ [], bytes - prev.bytes_len + m.bytes_len)
        | none ↦ push_back frame (drop_replaced frame.merge fs bytes)
      ]
    ]

    abbrev pub with_queue : StreamBuffer M → List (Frame M) × ℕ → StreamBuffer M
    with_queue b q = record b { items = q.0; bytes = q.1 }

    abbrev pub live_queue : ℕ → StreamBuffer M → List (Frame M) × ℕ
    live_queue now b = evict_expired now b.retention b.items b.bytes

    -- After the eviction of expired frames and the placing of the new one.
    unfoldable pub placed : ℕ → Frame M → StreamBuffer M → StreamBuffer M
    unfolding evict_expired place
    placed now frame b = with_queue b (place now frame (live_queue now b).0 (live_queue now b).1)

    unfoldable pub relieve : ℕ → StreamBuffer M → StreamBuffer M × InsertOutcome
    unfolding coalesce evict_or_reset
    relieve now b =
        let b1 = with_queue b (coalesce encoded_len now b.items) in
        if within b1 then (b1, buffered) else evict_or_reset b1

    unfoldable pub insert_frame : ℕ → Frame M → StreamBuffer M → StreamBuffer M × InsertOutcome
    unfolding placed relieve
    insert_frame now frame b =
        let b1 = placed now frame b in if within b1 then (b1, buffered) else relieve now b1

  pub frames_from : ℕ → StreamBuffer M → List (Frame M)
  frames_from from b = keep (λ f. leb from f.env.sequence) b.items

  -- A frame that a snapshot covers: from the same device, with a known and covered batch number.
  abbrev pub covered : String → ℕ → Frame M → Bool
  covered device seq f =
      f.env.device_id == device && elim f.upstream_seq [ none ↦ false | some s ↦ leb s seq ]

  -- The new buffer and the number of frames that left; the bytes are counted anew if any did.
  unfoldable pub retain_uncovered : String → ℕ → StreamBuffer M → StreamBuffer M × ℕ
  retain_uncovered device seq b =
      let items = keep (λ f. not (covered device seq f)) b.items in
      let removed = length b.items - length items in
      (
        record b {
          items = items;
          bytes = if ltb 0 removed then total (λ f. f.bytes_len) items else b.bytes;
        },
        removed,
      )
