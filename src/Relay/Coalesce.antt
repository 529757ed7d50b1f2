-- ===== src/Relay/Coalesce.antt =====
-- `coalesce` of apps/relay/src/realtime/buffer.rs. `now` is the time at which merged frames are
-- made; the queue is a list, its front first. The byte count that it is given is not read: the
-- scan counts anew.
pub mod Contents
use agent_console.Base.{
  any, >>=-some, ◌>>=◌, Bool, List, Option, String, [], false, if◌then◌else◌, nat_eq, none, some,
  string_eq, suc, take, total, ℕ, ◌+◌, ◌-◌, ◌==◌, ◌∷◌,
}
use agent_console.Relay.Frame.Messages.{Envelope, MergeInfo, append_info, replace_latest, Frame}
use agent_console.Relay.Frame.Merge.{merge_pair}

abbrev pub replace_window : ℕ
replace_window = 64

abbrev pub replaces : String → Option MergeInfo → Bool
replaces key (some (replace_latest k)) = key == k
replaces key (some (append_info a)) = false
replaces key none = false

module _ {M : Type 0} where
  -- A later frame in the window has the same `ReplaceLatest` key: `remove[i]`.
  abbrev pub superseded : Option MergeInfo → List (Frame M) → Bool
  superseded (some (replace_latest key)) later =
      any (λ f. replaces key f.merge) (take replace_window later)
  superseded (some (append_info a)) later = false
  superseded none later = false

  -- Whether a frame goes is decided on the queue as it was, so the pass is one recursion.
  unfoldable pub drop_superseded : List (Frame M) → List (Frame M)
  drop_superseded [] = []
  drop_superseded (f ∷ fs) =
      let rest = drop_superseded fs in if superseded f.merge fs then rest else f ∷ rest

  module _ (encoded_len : Envelope M → ℕ) where
    -- The scan with `last` at the back of `result`, and `total` bytes in it.
    unfoldable pub merge_scan : ℕ → Frame M → ℕ → List (Frame M) → List (Frame M) × ℕ
    merge_scan now last total [] = (last ∷ [], total)
    merge_scan now last total (f ∷ fs) = elim (merge_pair encoded_len now last f) [
      | some m ↦ merge_scan now m (total - last.bytes_len + m.bytes_len) fs
      | none ↦ let r = merge_scan now f (total + f.bytes_len) fs in (last ∷ r.0, r.1)
    ]

    abbrev pub merge_adjacent : ℕ → List (Frame M) → List (Frame M) × ℕ
    merge_adjacent now [] = ([], 0)
    merge_adjacent now (f ∷ fs) = merge_scan now f f.bytes_len fs

    unfoldable pub coalesce : ℕ → List (Frame M) → List (Frame M) × ℕ
    unfolding drop_superseded merge_scan
    coalesce now items = merge_adjacent now (drop_superseded items)
