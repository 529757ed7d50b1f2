-- ===== src/Relay/Frame/Lossless.antt =====
-- Merging two frames loses nothing of their output.
use mathlib.Core.Option.{some-injective}
use text.Mathlib.TextEquality.{eq_iff}
use agent_console.Base.{
  split_last-snoc, if-none-some, >>=-some, Bool-cases, List, Option, String, [], arith, false,
  if◌then◌else◌, inl, inr, is_none, ltb, nat_eq, none, not, refl, some, string_eq, sym, true, ℕ,
  ◌++◌, ◌==◌, ◌∷◌, ◌≡◌, ◌≤◌,
}
use agent_console.Relay.Frame.Messages.{Envelope, AppendInfo, Frame}
use agent_console.Relay.Frame.Merge.{
  max_frame_bytes, append_of, min_seq, LastAppend, last_append, extended, contiguous, merged,
  merge_pair,
}

-- The output that a frame carries for a merge key: the bytes of the append that it ends in.
abbrev bytes_of : {M : Type 0} → Option (LastAppend M) → List ℕ
bytes_of none = []
bytes_of (some l) = l.append.bytes

unfoldable pub output_of : {M : Type 0} → String → Frame M → List ℕ
output_of k f = elim (append_of f.merge) [
  | none ↦ []
  | some i ↦ if i.key == k then bytes_of (last_append f.env) else []
]

-- The output of a queue of frames, oldest first.
unfoldable pub outputs_of : {M : Type 0} → String → List (Frame M) → List ℕ
outputs_of k [] = []
outputs_of k (f ∷ fs) = output_of k f ++ outputs_of k fs

-- How a merge comes about.
pub record IsMerge {M : Type 0} (encoded_len : Envelope M → ℕ) (now : ℕ) (a b m : Frame M)
    : Type 0 where
  pub left_info : AppendInfo
  pub right_info : AppendInfo
  pub left : LastAppend M
  pub right : LastAppend M
  pub left_is : append_of a.merge ≡ some left_info
  pub right_is : append_of b.merge ≡ some right_info
  pub meets : contiguous left_info right_info ≡ true
  pub left_ends : last_append a.env ≡ some left
  pub right_ends : last_append b.env ≡ some right
  pub fits : ltb max_frame_bytes (encoded_len (extended a.env left right.append.bytes)) ≡ false
  pub result :
      m
      ≡ merged encoded_len now a left_info right_info left right
          (min_seq a.upstream_seq b.upstream_seq)

module _ {M : Type 0} (encoded_len : Envelope M → ℕ) where
  pub merge_pair-IsMerge :
      (now : ℕ) (a b m : Frame M)
      → merge_pair encoded_len now a b ≡ some m
      → IsMerge encoded_len now a b m
  unfolding merge_pair
  merge_pair-IsMerge now a b m h =
      let (ia, ea, h1) = >>=-some (append_of a.merge) _ h in
      let (ib, eb, h2) = >>=-some (append_of b.merge) _ h1 in
      let (meets, h3) = if-none-some (not (contiguous ia ib)) _ h2 in
      let (la, ela, h4) = >>=-some (last_append a.env) _ h3 in
      let (lb, elb, h5) = >>=-some (last_append b.env) _ h4 in
      let (fits, h6) = if-none-some _ _ h5 in
      record {
        left_info = ia;
        right_info = ib;
        left = la;
        right = lb;
        left_is = ea;
        right_is = eb;
        meets = ground arith;
        left_ends = ela;
        right_ends = elb;
        fits = fits;
        result = sym (some-injective _ _ h6);
      }

bytes-extended :
    {M : Type 0} (env : Envelope M) (l : LastAppend M) (extra : List ℕ)
    → bytes_of (last_append (extended env l extra)) ≡ l.append.bytes ++ extra
unfolding last_append extended
bytes-extended env l extra = rw (split_last-snoc l.before) refl

output_of-is :
    {M : Type 0} (k : String) (f : Frame M) (i : AppendInfo) (l : LastAppend M)
    → append_of f.merge ≡ some i
    → last_append f.env ≡ some l
    → output_of k f ≡ (if i.key == k then l.append.bytes else [])
unfolding output_of
output_of-is k f i l e d = rw (e, output_of) (rw d refl)

output_of-merged :
    {M : Type 0} (encoded_len : Envelope M → ℕ) (k : String) (now : ℕ) (a : Frame M)
    (ia ib : AppendInfo) (la lb : LastAppend M) (u : Option ℕ)
    → output_of k (merged encoded_len now a ia ib la lb u)
      ≡ (if ia.key == k then la.append.bytes ++ lb.append.bytes else [])
unfolding output_of merged
output_of-merged encoded_len k now a ia ib la lb u =
    rw (bytes-extended a.env la lb.append.bytes) refl

contiguous-key : (ia ib : AppendInfo) → contiguous ia ib ≡ true → ia.key ≡ ib.key
contiguous-key ia ib h = (eq_iff ia.key ib.key).0 (ground arith)

module _ {M : Type 0} (encoded_len : Envelope M → ℕ) where
  output-IsMerge :
      (now : ℕ) (k : String) (a b m : Frame M)
      → IsMerge encoded_len now a b m
      → output_of k m ≡ output_of k a ++ output_of k b
  output-IsMerge now k a b m g =
      rw
        (
          g.result,
          output_of-merged encoded_len k now a g.left_info g.right_info g.left g.right
              (min_seq a.upstream_seq b.upstream_seq),
          output_of-is k a g.left_info g.left g.left_is g.left_ends,
          output_of-is k b g.right_info g.right g.right_is g.right_ends,
          ← contiguous-key g.left_info g.right_info g.meets,
        )
        (elim (Bool-cases (g.left_info.key == k)) [ inl e ↦ rw e | inr e ↦ rw e ])

  -- The merged frame carries the output of the two frames, in order, for every key.
  pub output-merge :
      (now : ℕ) (k : String) (a b m : Frame M)
      → merge_pair encoded_len now a b ≡ some m
      → output_of k m ≡ output_of k a ++ output_of k b
  output-merge now k a b m h =
      output-IsMerge now k a b m (merge_pair-IsMerge encoded_len now a b m h)

  -- What a merged frame takes from the two.
  pub record Continues (a b m : Frame M) : Type 0 where
    pub kind : m.kind ≡ a.kind
    pub sequence : m.env.sequence ≡ a.env.sequence
    pub device : m.env.device_id ≡ a.env.device_id
    pub sized : m.bytes_len ≡ encoded_len m.env
    pub fits : m.bytes_len ≤ max_frame_bytes
    pub upstream : m.upstream_seq ≡ min_seq a.upstream_seq b.upstream_seq
    pub appends : is_none (append_of m.merge) ≡ false
    pub left_appends : is_none (append_of a.merge) ≡ false
    pub right_appends : is_none (append_of b.merge) ≡ false

  IsMerge-Continues : (now : ℕ) (a b m : Frame M) → IsMerge encoded_len now a b m → Continues a b m
  unfolding merged extended
  IsMerge-Continues now a b m g =
      let fit : encoded_len (extended a.env g.left g.right.append.bytes) ≤ max_frame_bytes =
        ground (arith, g.fits) in
      rw g.result (record {
        kind = refl;
        sequence = refl;
        device = refl;
        sized = refl;
        fits = fit;
        upstream = refl;
        appends = refl;
        left_appends = rw g.left_is;
        right_appends = rw g.right_is;
      })

  -- The merged frame keeps the kind, the stream sequence and the device of the first; its size is
  -- that of its envelope and within the protocol's limit; and its upstream number is the lower one.
  pub merge-Continues :
      (now : ℕ) (a b m : Frame M) → merge_pair encoded_len now a b ≡ some m → Continues a b m
  merge-Continues now a b m h =
      IsMerge-Continues now a b m (merge_pair-IsMerge encoded_len now a b m h)
