-- ===== src/Relay/Coalesce/Contents.antt =====
-- What `coalesce` keeps.
use agent_console.Base.{
  All, Bool, Bool-cases, List, Option, Option-cases, String, [], ap, arith, false, if◌then◌else◌,
  inl, inr, is_none, keep, nat_eq, none, refl, some, string_eq, sym, total, true, ℕ, ◌++◌, ◌+◌, ◌-◌,
  ◌∙◌, ◌∷◌, ◌≡◌, ◌≤◌,
}
use agent_console.Relay.Frame.Messages.{
  Envelope, critical, same_kind, MergeInfo, append_info, replace_latest, Frame,
}
use mathlib.Core.Bool.{false≢true}
use mathlib.Core.List.{append_assoc}
use agent_console.Relay.Frame.Merge.{merge_pair, append_of}
use agent_console.Relay.Frame.Lossless.{output_of, outputs_of, output-merge, merge-Continues}
use agent_console.Relay.Coalesce.{superseded, drop_superseded, merge_scan, merge_adjacent, coalesce}

pub appends-some : (m : Option MergeInfo) → is_none (append_of m) ≡ false → is_none m ≡ false
appends-some none h = cc
appends-some (some m) h = refl

module _ {M : Type 0} where
  abbrev pub is_critical : Frame M → Bool
  is_critical f = same_kind f.kind critical

  -- Frames that must not be dropped in silence.
  abbrev pub criticals : List (Frame M) → List (Frame M)
  criticals = keep is_critical

  -- A critical frame takes part in no merge, as `classify` makes it.
  abbrev pub IsPlain : Frame M → Type 0
  IsPlain f = (if is_critical f then is_none f.merge else true) ≡ true

  abbrev pub size : List (Frame M) → ℕ
  size = total (λ f. f.bytes_len)

  superseded-append :
      (m : Option MergeInfo) (later : List (Frame M))
      → superseded m later ≡ true
      → append_of m ≡ none
  superseded-append (some (replace_latest key)) later h = refl
  superseded-append (some (append_info a)) later h = cc
  superseded-append none later h = refl

  superseded-some :
      (m : Option MergeInfo) (later : List (Frame M))
      → superseded m later ≡ true
      → is_none m ≡ false
  superseded-some (some m) later h = refl
  superseded-some none later h = cc

  pub not_critical : (f : Frame M) → IsPlain f → is_none f.merge ≡ false → is_critical f ≡ false
  not_critical f p h = elim (Bool-cases (is_critical f)) [
    | inl e ↦ absurd (false≢true (sym h ∙ (rw e at p)))
    | inr e ↦ e
  ]

  pub not_critical-IsPlain : (f : Frame M) → is_critical f ≡ false → IsPlain f
  not_critical-IsPlain f h = rw h

  outputs_of-drop :
      (k : String) (fs : List (Frame M)) → outputs_of k (drop_superseded fs) ≡ outputs_of k fs
  unfolding outputs_of drop_superseded output_of
  outputs_of-drop k [] = refl
  outputs_of-drop k (f ∷ fs) = elim (Bool-cases (superseded f.merge fs)) [
    | inl e ↦
        rw (e, drop_superseded)
          (rw (superseded-append f.merge fs e, output_of) (outputs_of-drop k fs))
    | inr e ↦ rw (e, drop_superseded) (ap (λ l. output_of k f ++ l) (outputs_of-drop k fs))
  ]

  criticals-drop :
      (fs : List (Frame M)) → All IsPlain fs → criticals (drop_superseded fs) ≡ criticals fs
  unfolding drop_superseded
  criticals-drop [] p = refl
  criticals-drop (f ∷ fs) p = elim (Bool-cases (superseded f.merge fs)) [
    | inl e ↦
        rw (e, drop_superseded)
          (rw (not_critical f p.0 (superseded-some f.merge fs e)) (criticals-drop fs p.1))
    | inr e ↦
        rw (e, drop_superseded)
          (ap (λ l. if is_critical f then f ∷ l else l) (criticals-drop fs p.1))
  ]

  All-drop : (P : Frame M → Type 0) (fs : List (Frame M)) → All P fs → All P (drop_superseded fs)
  unfolding drop_superseded
  All-drop P [] p = tt
  All-drop P (f ∷ fs) p = elim (Bool-cases (superseded f.merge fs)) [
    | inl e ↦ rw (e, drop_superseded) (All-drop P fs p.1)
    | inr e ↦ rw (e, drop_superseded) (p.0, All-drop P fs p.1)
  ]

  module _ (encoded_len : Envelope M → ℕ) where
    outputs_of-scan :
        (now : ℕ) (k : String) (last : Frame M) (t : ℕ) (fs : List (Frame M))
        → outputs_of k (merge_scan encoded_len now last t fs).0
          ≡ output_of k last ++ outputs_of k fs
    unfolding merge_scan outputs_of
    outputs_of-scan now k last t [] = refl
    outputs_of-scan now k last t (f ∷ fs) =
        elim (Option-cases (merge_pair encoded_len now last f)) [
          | inl e ↦
              rw (e, merge_scan)
                (ap (λ l. output_of k last ++ l) (outputs_of-scan now k f (t + f.bytes_len) fs))
          | inr (m, e) ↦
              rw (e, merge_scan)
                (outputs_of-scan now k m (t - last.bytes_len + m.bytes_len) fs
                  ∙ rw (output-merge encoded_len now k last f m e)
                      (append_assoc (output_of k last) (output_of k f) (outputs_of k fs)))
        ]

    outputs_of-adjacent :
        (now : ℕ) (k : String) (fs : List (Frame M))
        → outputs_of k (merge_adjacent encoded_len now fs).0 ≡ outputs_of k fs
    unfolding outputs_of
    outputs_of-adjacent now k [] = refl
    outputs_of-adjacent now k (f ∷ fs) = outputs_of-scan now k f f.bytes_len fs

    -- Coalescing loses no output: for every merge key the concatenated bytes are the same.
    pub outputs_of-coalesce :
        (now : ℕ) (k : String) (fs : List (Frame M))
        → outputs_of k (coalesce encoded_len now fs).0 ≡ outputs_of k fs
    unfolding coalesce
    outputs_of-coalesce now k fs =
        outputs_of-adjacent now k (drop_superseded fs) ∙ outputs_of-drop k fs

    pub merge-plain :
        (now : ℕ) (a b m : Frame M)
        → merge_pair encoded_len now a b ≡ some m
        → IsPlain a
        → IsPlain b
        → (is_critical a ≡ false) × (is_critical b ≡ false) × (is_critical m ≡ false)
    merge-plain now a b m h p q =
        let c = merge-Continues encoded_len now a b m h in
        let x = not_critical a p (appends-some a.merge c.left_appends) in
        (x, not_critical b q (appends-some b.merge c.right_appends), rw c.kind x)

    criticals-scan :
        (now : ℕ) (last : Frame M) (t : ℕ) (fs : List (Frame M))
        → IsPlain last
        → All IsPlain fs
        → criticals (merge_scan encoded_len now last t fs).0 ≡ criticals (last ∷ fs)
    unfolding merge_scan
    criticals-scan now last t [] p q = refl
    criticals-scan now last t (f ∷ fs) p q =
        elim (Option-cases (merge_pair encoded_len now last f)) [
          | inl e ↦
              rw (e, merge_scan)
                (ap (λ l. if is_critical last then last ∷ l else l)
                  (criticals-scan now f (t + f.bytes_len) fs q.0 q.1))
          | inr (m, e) ↦
              let (x, y, z) = merge-plain now last f m e p q.0 in
              rw (e, merge_scan)
                (criticals-scan now m (t - last.bytes_len + m.bytes_len) fs
                    (not_critical-IsPlain m z) q.1
                  ∙ rw (x, y, z))
        ]

    size-scan :
        (now : ℕ) (last : Frame M) (t : ℕ) (fs : List (Frame M))
        → last.bytes_len ≤ t
        → (merge_scan encoded_len now last t fs).1 + last.bytes_len
          ≡ t + size (merge_scan encoded_len now last t fs).0
    unfolding merge_scan
    size-scan now last t [] h = omega arith
    size-scan now last t (f ∷ fs) h = elim (Option-cases (merge_pair encoded_len now last f)) [
      | inl e ↦
          rw (e, merge_scan) (omega (arith, size-scan now f (t + f.bytes_len) fs (omega arith)))
      | inr (m, e) ↦
          rw (e, merge_scan)
            (omega (arith, size-scan now m (t - last.bytes_len + m.bytes_len) fs (omega arith)))
    ]

    size-adjacent :
        (now : ℕ) (fs : List (Frame M))
        → (merge_adjacent encoded_len now fs).1 ≡ size (merge_adjacent encoded_len now fs).0
    size-adjacent now [] = refl
    size-adjacent now (f ∷ fs) = omega (arith, size-scan now f f.bytes_len fs (omega arith))

    -- The byte count that the scan keeps by sums and differences is that of the new queue.
    pub size-coalesce :
        (now : ℕ) (fs : List (Frame M))
        → (coalesce encoded_len now fs).1 ≡ size (coalesce encoded_len now fs).0
    unfolding coalesce
    size-coalesce now fs = size-adjacent now (drop_superseded fs)

    criticals-adjacent :
        (now : ℕ) (fs : List (Frame M))
        → All IsPlain fs
        → criticals (merge_adjacent encoded_len now fs).0 ≡ criticals fs
    criticals-adjacent now [] p = refl
    criticals-adjacent now (f ∷ fs) p = criticals-scan now f f.bytes_len fs p.0 p.1

    -- Where no critical frame has merge data, coalescing leaves the critical frames as they are.
    pub criticals-coalesce :
        (now : ℕ) (fs : List (Frame M))
        → All IsPlain fs
        → criticals (coalesce encoded_len now fs).0 ≡ criticals fs
    unfolding coalesce
    criticals-coalesce now fs p =
        criticals-adjacent now (drop_superseded fs) (All-drop IsPlain fs p) ∙ criticals-drop fs p
