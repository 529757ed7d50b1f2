-- ===== src/Relay/Outbox.antt =====
-- `Outbox` of apps/relay/src/realtime/buffer.rs: the bounded queue towards one browser. The mutex
-- makes each operation one step, but for `push_direct`, which takes the lock again to close; no
-- other call is modelled between the two. `recv` waits for a notification and tries again: one
-- try is `recv` here. The counter of overload closes is diagnostic and left out.
pub mod Limits
pub mod Delivery
pub mod Fifo
use agent_console.Base.{
  >>=-some, ◌>>=◌, Bool, List, Option, String, [], eqb, false, if◌then◌else◌, keep, length, ltb,
  nat_eq, none, not, some, string_eq, suc, total, true, ℕ, ◌*◌, ◌++◌, ◌+◌, ◌-◌, ◌||◌, ◌∷◌,
}
use agent_console.Relay.Frame.Messages.{Frame}

pub data OutItem (M : Type 0) : Type 0 where
  frame : Frame M → OutItem M
  direct : List ℕ → OutItem M
  close_item : String → OutItem M

pub data PushError : Type 0 where
  slow_consumer is_closed_error : PushError

pub record Outbox (M : Type 0) : Type 0 where
  pub capacity : ℕ
  pub max_bytes : ℕ
  pub items : List (OutItem M)
  pub frames : ℕ
  pub bytes : ℕ
  pub closed : Bool

abbrev pub direct_reserve_bytes : ℕ
direct_reserve_bytes = 1024 * 1024

-- What a receiver finds: an item, the end, or nothing yet.
pub data Received (M : Type 0) : Type 0 where
  item : OutItem M → Received M
  ended : Received M
  waits : Received M

module _ {M : Type 0} where
  abbrev pub is_frame : OutItem M → Bool
  is_frame (frame f) = true
  is_frame _ = false

  abbrev pub direct_bytes : OutItem M → ℕ
  direct_bytes (direct b) = length b
  direct_bytes _ = 0

  unfoldable pub new : ℕ → ℕ → Outbox M
  new capacity max_bytes = record {
    capacity = capacity;
    max_bytes = max_bytes;
    items = [];
    frames = 0;
    bytes = 0;
    closed = false;
  }

  -- `none` is `Ok(())`.
  unfoldable pub push_frame : Frame M → Outbox M → Option PushError × Outbox M
  push_frame f o =
      if o.closed
      then (some is_closed_error, o)
      else if ltb o.capacity (o.frames + 1) || ltb o.max_bytes (o.bytes + f.bytes_len)
      then (some slow_consumer, o)
      else (
        none,
        record o {
          items = o.items ++ frame f ∷ [];
          frames = o.frames + 1;
          bytes = o.bytes + f.bytes_len;
        },
      )

  unfoldable pub close : String → Outbox M → Outbox M
  close reason o =
      let rest = keep (λ i. not (is_frame i)) o.items in
      if o.closed then o else record o {
        items = rest ++ close_item reason ∷ [];
        frames = 0;
        bytes = total direct_bytes rest;
        closed = true;
      }

  unfoldable pub push_direct : List ℕ → Outbox M → Bool × Outbox M
  unfolding close
  push_direct b o =
      if o.closed
      then (false, o)
      else if eqb (length b) 0
      then (false, o)
      else if ltb (o.max_bytes + direct_reserve_bytes) (o.bytes + length b)
      then (false, close "OUTBOX_OVERLOAD" o)
      else (true, record o { items = o.items ++ direct b ∷ []; bytes = o.bytes + length b })

  abbrev pub after_pop : OutItem M → List (OutItem M) → Outbox M → Outbox M
  after_pop (frame f) rest o = record o {
    items = rest;
    frames = o.frames - 1;
    bytes = o.bytes - f.bytes_len;
  }
  after_pop (direct b) rest o = record o { items = rest; bytes = o.bytes - length b }
  after_pop (close_item reason) rest o = record o { items = rest }

  abbrev pub pop : List (OutItem M) → Outbox M → Received M × Outbox M
  pop (i ∷ rest) o = (item i, after_pop i rest o)
  pop [] o = (if o.closed then ended else waits, o)

  unfoldable pub recv : Outbox M → Received M × Outbox M
  recv o = pop o.items o

pub data Call (M : Type 0) : Type 0 where
  pushes_frame : Frame M → Call M
  pushes_direct : List ℕ → Call M
  closes : String → Call M
  receives : Call M
