-- ===== src/Storage/Sentence.antt =====
-- storage_server/storage_server.c: `ss_get_sentence_bounds` and `count_sentences_in_span`.
pub mod Bounds
pub mod Extract
use distributed_documentatio.Base.{
  ℕ, zero, suc, CText, Bool, Option, take, ◌∷◌, if◌then◌else◌, ◌==◌, length, ◌-◌, leb, [], ◌&&◌,
  some, drop, none, false, true, ◌+◌,
}
use distributed_documentatio.Text.{is_space, skip_spaces, is_sentence_delimiter}

-- The loop over the text from byte `offset` on; `skipping` says that the inner loop over the spaces
-- after a delimiter is running. A sentence is a pair of its first byte and the byte behind its last.
unfoldable pub scan_bounds : ℕ → Bool → ℕ → ℕ → ℕ → CText → Option (ℕ × ℕ)
scan_bounds index skipping current start offset [] =
    if current == index && leb start offset then some (start, offset) else none
scan_bounds index skipping current start offset (c ∷ s) = elim (skipping && is_space c) [
  | true ↦ scan_bounds index true current (offset + 1) (offset + 1) s
  | false ↦ elim (is_sentence_delimiter c) [
    | true ↦ elim (current == index) [
      | true ↦ some (start, offset + 1)
      | false ↦ scan_bounds index true (current + 1) (offset + 1) (offset + 1) s
    ]
    | false ↦ scan_bounds index false current start (offset + 1) s
  ]
]

-- After the leading spaces.
unfoldable pub first_sentence : ℕ → ℕ → CText → Option (ℕ × ℕ)
unfolding scan_bounds
first_sentence index lead [] = if index == 0 then some (lead, lead) else none
first_sentence index lead (c ∷ s) = scan_bounds index false 0 lead lead (c ∷ s)

-- `none` is the return value -1; an index is never negative here.
unfoldable pub ss_get_sentence_bounds : CText → ℕ → Option (ℕ × ℕ)
unfolding first_sentence skip_spaces is_space is_sentence_delimiter
ss_get_sentence_bounds text index =
    first_sentence index (length text - length (skip_spaces text)) (skip_spaces text)

-- The bytes from `start` up to `end`.
unfoldable pub span : CText → ℕ → ℕ → CText
span text start end = take (end - start) (drop start text)

unfoldable pub count_delimiters : CText → ℕ
count_delimiters [] = 0
count_delimiters (c ∷ s) =
    if is_sentence_delimiter c then suc (count_delimiters s) else count_delimiters s

-- A span with no delimiter counts as one sentence, and an empty one as none.
unfoldable pub count_sentences_in_span : CText → ℕ → ℕ → ℕ
unfolding span count_delimiters is_sentence_delimiter
count_sentences_in_span text start end =
    if leb end start
    then 0
    else let count = count_delimiters (span text start end) in if count == 0 then 1 else count
