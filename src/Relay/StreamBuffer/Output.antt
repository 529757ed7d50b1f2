-- ===== src/Relay/StreamBuffer/Output.antt =====
-- Without eviction the stream buffer loses no output.
use mathlib.Core.List.{reverse, reverse-append, append_assoc, append-nil, reverse-reverse}
use mathlib.Core.Bool.{false≢true}
use agent_console.Base.{
  split_last-some, Bool, Bool-cases, List, Option, Option-cases, String, [], ap, arith, inl, inr,
  nat_eq, none, refl, some, split_last, string_eq, suc, sym, true, zero, ℕ, ◌++◌, ◌∙◌, ◌∷◌, ◌≡◌,
  ◌⊎◌,
}
use agent_console.Relay.Frame.Messages.{Envelope, MergeInfo, append_info, replace_latest, Frame}
use agent_console.Relay.StreamBuffer.{
  StreamBuffer, recent_window, within, take_first, drop_replaced, place, with_queue, live_queue,
  placed, relieve, insert_frame,
}
use agent_console.Relay.Coalesce.{replaces, coalesce}
use agent_console.Relay.Coalesce.Contents.{outputs_of-coalesce}
use agent_console.Relay.Frame.Merge.{merge_pair, append_of}
use agent_console.Relay.Frame.Lossless.{output_of, outputs_of, output-merge}

module _ {M : Type 0} where
  outputs_of-append :
      (k : String) (xs ys : List (Frame M))
      → outputs_of k (xs ++ ys) ≡ outputs_of k xs ++ outputs_of k ys
  unfolding outputs_of
  outputs_of-append k [] ys = refl
  outputs_of-append k (x ∷ xs) ys =
      ap (λ l. output_of k x ++ l) (outputs_of-append k xs ys)
      ∙ sym (append_assoc (output_of k x) (outputs_of k xs) (outputs_of k ys))

  -- Where the frame stood that `take_first` found.
  record Found (p : Frame M → Bool) (fs rest : List (Frame M)) (g : Frame M) : Type 0 where
    before : List (Frame M)
    after : List (Frame M)
    whole : fs ≡ before ++ g ∷ after
    without : rest ≡ before ++ after
    hit : p g ≡ true

  take_first-Found :
      (w : ℕ) (p : Frame M → Bool) (fs rest : List (Frame M)) (g : Frame M)
      → take_first w p fs ≡ some (g, rest)
      → Found p fs rest g
  unfolding take_first
  take_first-Found zero p fs rest g h = cc
  take_first-Found (suc w) p [] rest g h = cc
  take_first-Found (suc w) p (f ∷ fs) rest g h = elim (Bool-cases (p f)) [
    | inl e ↦ record {
      before = [];
      after = fs;
      whole = ground arith;
      without = ground arith;
      hit = ground arith;
    }
    | inr e ↦ elim (Option-cases (take_first w p fs)) [
      | inl x ↦ absurd (ground arith)
      | inr ((g', rest'), x) ↦
          let found = take_first-Found w p fs rest' g' x in
          record {
            before = f ∷ found.before;
            after = found.after;
            whole = ground (arith, found.whole);
            without = ground (arith, found.without);
            hit = ground (arith, found.hit);
          }
    ]
  ]

  replaces-output :
      (key k : String) (f : Frame M) → replaces key f.merge ≡ true → output_of k f ≡ []
  unfolding output_of
  replaces-output key k f h = rw (keyed f.merge h, output_of)
    where
      keyed : (m : Option MergeInfo) → replaces key m ≡ true → append_of m ≡ none
      keyed none q = cc
      keyed (some (append_info i)) q = cc
      keyed (some (replace_latest l)) q = refl

  outputs_of-without :
      (k : String) (xs ys : List (Frame M)) (g : Frame M)
      → output_of k g ≡ []
      → outputs_of k (xs ++ ys) ≡ outputs_of k (xs ++ g ∷ ys)
  outputs_of-without k xs ys g h =
      rw (outputs_of-append k xs ys, outputs_of-append k xs (g ∷ ys)) (unfold outputs_of in rw h)

  drop_replaced-outputs :
      (k : String) (m : Option MergeInfo) (fs : List (Frame M)) (n : ℕ)
      → outputs_of k (drop_replaced m fs n).0 ≡ outputs_of k fs
  drop_replaced-outputs k (some (replace_latest key)) fs n =
      elim (Option-cases (take_first recent_window (λ f. replaces key f.merge) (reverse fs))) [
        | inl e ↦ rw (e, drop_replaced)
        | inr ((old, rest), e) ↦
            let p = λ (f : Frame M). replaces key f.merge in
            let d = take_first-Found _ p (reverse fs) rest old e in
            let back : fs ≡ (reverse d.after ++ old ∷ []) ++ reverse d.before =
              sym (reverse-reverse fs)
              ∙ ap reverse d.whole
              ∙ reverse-append d.before (old ∷ d.after)
              ∙ ap (λ l. l ++ reverse d.before) (reverse-append (old ∷ []) d.after) in
            rw (e, drop_replaced)
              (ap (λ l. outputs_of k (reverse l)) d.without
                ∙ ap (outputs_of k) (reverse-append d.before d.after)
                ∙ outputs_of-without k (reverse d.after) (reverse d.before) old
                    (replaces-output key k old d.hit)
                ∙ ap (outputs_of k)
                    (sym (append_assoc (reverse d.after) (old ∷ []) (reverse d.before)) ∙ sym back))
      ]
  drop_replaced-outputs k (some (append_info i)) fs n = refl
  drop_replaced-outputs k none fs n = refl

  outputs_of-snoc :
      (k : String) (fs : List (Frame M)) (f : Frame M)
      → outputs_of k (fs ++ f ∷ []) ≡ outputs_of k fs ++ output_of k f
  outputs_of-snoc k fs f =
      outputs_of-append k fs (f ∷ [])
      ∙ ap (λ l. outputs_of k fs ++ l) (unfold outputs_of in append-nil (output_of k f))

  module _ (encoded_len : Envelope M → ℕ) where
    place-outputs :
        (now : ℕ) (k : String) (frame : Frame M) (fs : List (Frame M)) (n : ℕ)
        → outputs_of k (place encoded_len now frame fs n).0 ≡ outputs_of k fs ++ output_of k frame
    unfolding place
    place-outputs now k frame fs n =
        let apart =
          outputs_of-snoc k (drop_replaced frame.merge fs n).0 frame
          ∙ ap (λ l. l ++ output_of k frame) (drop_replaced-outputs k frame.merge fs n) in
        elim (Option-cases (split_last fs)) [
          | inl e ↦ rw (e, place) apart
          | inr ((front, prev), e) ↦ elim (Option-cases (merge_pair encoded_len now prev frame)) [
            | inl x ↦ rw (e, place) (rw x apart)
            | inr (m, x) ↦
                rw (e, place)
                  (rw x (
                    outputs_of-snoc k front m
                    ∙ ap (λ l. outputs_of k front ++ l)
                        (output-merge encoded_len now k prev frame m x)
                    ∙ sym (append_assoc (outputs_of k front) (output_of k prev) (output_of k frame))
                    ∙ ap (λ l. l ++ output_of k frame)
                        (sym (outputs_of-snoc k front prev)
                          ∙ ap (outputs_of k) (sym (split_last-some fs front prev e)))))
          ]
        ]

    -- The buffer of an insertion after coalescing, before any eviction.
    pub coalesced : ℕ → Frame M → StreamBuffer M → StreamBuffer M
    coalesced now frame b =
        let b1 = placed encoded_len now frame b in
        with_queue encoded_len b1 (coalesce encoded_len now b1.items)

    -- If the frames fit, at once or after coalescing, then for every merge key the output in the
    -- queue is that of the unexpired frames followed by that of the new frame: merging, replacing
    -- and coalescing lose and reorder nothing.
    pub insert_frame-outputs :
        (now : ℕ) (k : String) (frame : Frame M) (b : StreamBuffer M)
        → (within (placed encoded_len now frame b) ≡ true) ⊎ (within (coalesced now frame b) ≡ true)
        → outputs_of k (insert_frame encoded_len now frame b).0.items
          ≡ outputs_of k (live_queue encoded_len now b).0 ++ output_of k frame
    unfolding insert_frame relieve placed coalesced
    insert_frame-outputs now k frame b fits =
        let b1 = placed encoded_len now frame b in
        let (fs, n) = live_queue encoded_len now b in
        let first = place-outputs now k frame fs n in
        let second = outputs_of-coalesce encoded_len now k b1.items ∙ first in
        elim (Bool-cases (within b1)) [
          | inl e ↦ rw e first
          | inr e ↦ elim fits [ inl f ↦ absurd (false≢true (sym e ∙ f)) | inr f ↦ rw (e, f) second ]
        ]
