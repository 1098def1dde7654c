-- ===== src/Storage/Sentence/Extract.antt =====
-- `extract_sentence` of common/utils.c and `ss_get_sentence_bounds` of the storage server, two
-- loops over a text, agree on what a sentence is.
use mathlib.Core.List.{append_assoc}
use distributed_documentatio.Base.{
  ℕ, CText, ◌≡◌, Option, Bool, length, some, ◌++◌, ◌+◌, if◌then◌else◌, ltb, arith, ◌-◌,
  drop-append_left, none, ◌∷◌, take-append_left, [], true, false, length-append, ◌<◌, ◌||◌, ◌∙◌,
  ◌==◌, ap, sym, Option-cases, inl, inr, subst, take, refl,
}
use distributed_documentatio.Text.{extract_from, extract_sentence}
use distributed_documentatio.Text.Trim.{skip_spaces-SpacesBefore}
use distributed_documentatio.Storage.Sentence.{
  scan_bounds, span, ss_get_sentence_bounds, first_sentence, skip_spaces,
}

span_middle :
    (pre word post : CText) (n : ℕ)
    → n ≡ length pre + length word
    → span (pre ++ (word ++ post)) (length pre) n ≡ word
unfolding span
span_middle pre word post n e =
    let width : n - length pre ≡ length word = omega arith in
    rw (width, drop-append_left pre (word ++ post)) (take-append_left word post)

-- The text of a scanned sentence; an empty sentence has none.
abbrev cut_out : CText → Option (ℕ × ℕ) → Option CText
cut_out text none = none
cut_out text (some b) = if ltb b.0 b.1 then some (span text b.0 b.1) else none

module _ (text : CText) (index : ℕ) where
  extract_from-scan_bounds :
      (skipping : Bool) (current start offset : ℕ) (pre word s : CText)
      → text ≡ pre ++ (word ++ s)
      → start ≡ length pre
      → offset ≡ start + length word
      → extract_from index skipping current word s
        ≡ cut_out text (scan_bounds index skipping current start offset s)
  unfolding extract_from scan_bounds
  extract_from-scan_bounds skipping current start offset pre word [] e p q =
      let mid : span text start offset ≡ word =
        rw (e, p) (span_middle pre word [] offset (omega arith)) in
      ground arith
  extract_from-scan_bounds skipping current start offset pre word (c ∷ s) e p q =
      let longer = length-append word (c ∷ []) in
      let more : text ≡ pre ++ ((word ++ c ∷ []) ++ s) =
        e ∙ ap (◌++◌ pre) (sym (append_assoc word (c ∷ []) s)) in
      let done : text ≡ (pre ++ (word ++ c ∷ [])) ++ ([] ++ s) =
        more ∙ sym (append_assoc pre (word ++ c ∷ []) s) in
      let mid : span text start (offset + 1) ≡ word ++ c ∷ [] =
        rw (more, p) (span_middle pre (word ++ c ∷ []) s (offset + 1) (omega (arith, longer))) in
      let far : offset + 1 ≡ length (pre ++ (word ++ c ∷ [])) =
        omega (arith, longer, length-append pre (word ++ c ∷ [])) in
      ground (
        arith,
        extract_from-scan_bounds true current (offset + 1) (offset + 1) (pre ++ (word ++ c ∷ [])) []
            s,
        extract_from-scan_bounds true (current + 1) (offset + 1) (offset + 1)
            (pre ++ (word ++ c ∷ [])) [] s,
        extract_from-scan_bounds false current start (offset + 1) pre (word ++ c ∷ []) s,
      )

-- The first sentence of a text that is not blank has a byte.
scan_bounds-nonempty :
    (index start offset : ℕ) (s : CText) (b : ℕ × ℕ)
    → start < offset
    → scan_bounds index false index start offset s ≡ some b
    → b.0 < b.1
unfolding scan_bounds
scan_bounds-nonempty index start offset [] b h e = ground arith
scan_bounds-nonempty index start offset (c ∷ s) b h e =
    ground (arith, scan_bounds-nonempty index start (offset + 1) s b)

first_nonempty :
    (lead : ℕ) (c : ℕ) (s : CText) (b : ℕ × ℕ)
    → scan_bounds 0 false 0 lead lead (c ∷ s) ≡ some b
    → b.0 < b.1
unfolding scan_bounds
first_nonempty lead c s b e = ground (arith, scan_bounds-nonempty 0 lead (lead + 1) s b)

-- An empty sentence, past a last delimiter, has bounds and no text, but at index 0.
abbrev pub sentence_text : CText → ℕ → Option (ℕ × ℕ) → Option CText
sentence_text text index none = none
sentence_text text index (some b) =
    if ltb b.0 b.1 || index == 0 then some (span text b.0 b.1) else none

cut_out-sentence_text :
    (text : CText) (index lead c : ℕ) (s : CText)
    → cut_out text (scan_bounds index false 0 lead lead (c ∷ s))
      ≡ sentence_text text index (scan_bounds index false 0 lead lead (c ∷ s))
cut_out-sentence_text text index lead c s =
    elim (Option-cases (scan_bounds index false 0 lead lead (c ∷ s))) [
      | inl e ↦ rw e refl
      | inr (b, e) ↦
          let positive : index ≡ 0 → b.0 < b.1 = λ z.
            first_nonempty lead c s b
              (subst (λ k. scan_bounds k false 0 lead lead (c ∷ s) ≡ some b) z e) in
          rw e (ground (arith, positive))
    ]

-- The whole text is blank, or starts with some spaces and a byte of its first sentence.
module _ (text : CText) (index : ℕ) where
  from_first :
      (pre t : CText)
      → text ≡ pre ++ t
      → skip_spaces text ≡ t
      → extract_sentence text index ≡ sentence_text text index (ss_get_sentence_bounds text index)
  unfolding extract_sentence ss_get_sentence_bounds first_sentence extract_from span take
  from_first pre [] e f = rw (f, extract_sentence, first_sentence) (ground arith)
  from_first pre (c ∷ s) e f =
      let lead : length text - length (skip_spaces text) ≡ length pre =
        omega (arith, ap length e, ap length f, length-append pre (c ∷ s)) in
      rw (f, extract_sentence, first_sentence, lead)
        (extract_from-scan_bounds text index false 0 (length pre) (length pre) pre [] (c ∷ s) e refl
            (omega arith)
          ∙ cut_out-sentence_text text index (length pre) c s)

  -- `extract_sentence` returns the text between the bounds of the sentence, and nothing exactly if the
  -- sentence has no bounds, or is empty at an index other than 0.
  pub extract_sentence-bounds :
      extract_sentence text index ≡ sentence_text text index (ss_get_sentence_bounds text index)
  extract_sentence-bounds =
      let (pre, e, k) = skip_spaces-SpacesBefore text in from_first pre (skip_spaces text) e refl
