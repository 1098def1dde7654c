-- ===== src/Storage/Words.antt =====
-- storage_server/storage_server.c: `split_words`, `join_words` and `ss_apply_word_edit`. An
-- allocation always succeeds.
pub mod Split
pub mod Count
pub mod Join
pub mod Edit
use distributed_documentatio.Base.{
  ℕ, zero, suc, ◌+◌, ◌-◌, Bool, true, false, not, ◌&&◌, Option, none, some, List, [], ◌∷◌, ◌++◌,
  ltb, ◌==◌, if◌then◌else◌, length, take, drop, CText,
}
use distributed_documentatio.Text.{
  is_space, skip_spaces, drop_trailing, safe_strcat, is_sentence_delimiter,
}

-- while (*ptr && !isspace(*ptr)) ptr++; what is passed over, and what is left.
unfoldable pub word_at : CText → CText
word_at [] = []
word_at (c ∷ s) = if is_space c then [] else c ∷ word_at s

unfoldable pub after_word : CText → CText
after_word [] = []
after_word (c ∷ s) = if is_space c then c ∷ s else after_word s

-- The outer loop on fuel; a word is never empty after the spaces before it are skipped.
unfoldable pub split_loop : ℕ → CText → List CText
unfolding word_at after_word
split_loop zero text = []
split_loop (suc fuel) text = elim (skip_spaces text) [
  | [] ↦ []
  | c ∷ s ↦ word_at (c ∷ s) ∷ split_loop fuel (after_word (c ∷ s))
]

-- Each round passes at least one byte, so the length is fuel enough (Split.split_words-eq-words).
unfoldable pub split_words : CText → List CText
unfolding split_loop skip_spaces is_space
split_words text = split_loop (length text) text

unfoldable pub last_byte : CText → Option ℕ
last_byte [] = none
last_byte (c ∷ []) = some c
last_byte (c ∷ d ∷ s) = last_byte (d ∷ s)

unfoldable pub last_word : List CText → CText
last_word [] = []
last_word (w ∷ []) = w
last_word (w ∷ v ∷ ws) = last_word (v ∷ ws)

unfoldable pub ends_with_delimiter : List CText → Bool
unfolding last_byte last_word is_sentence_delimiter
ends_with_delimiter words = elim (last_byte (last_word words)) [
  | none ↦ false
  | some c ↦ is_sentence_delimiter c
]

-- The lengths of the words and one space between two of them.
unfoldable pub total_length : List CText → ℕ
total_length [] = 0
total_length (w ∷ []) = length w
total_length (w ∷ v ∷ ws) = length w + 1 + total_length (v ∷ ws)

-- `safe_strcat` leaves the buffer as it is where it fails.
unfoldable pub cat : ℕ → CText → CText → CText
unfolding safe_strcat
cat size dest src = elim (safe_strcat size dest src) [ none ↦ dest | some joined ↦ joined ]

-- The loop from the second word on, each with a space before it.
unfoldable pub join_from : ℕ → CText → List CText → CText
unfolding cat
join_from size result [] = result
join_from size result (w ∷ ws) = join_from size (cat size (cat size result (32 ∷ [])) w) ws

-- Both rounds of the loop that fills the buffer of `size` bytes.
unfoldable pub join_buffer : ℕ → List CText → CText
unfolding join_from cat
join_buffer size [] = []
join_buffer size (w ∷ ws) = join_from size (cat size [] w) ws

-- `delimiter_char && !ends_with_delimiter`; `delimiter` is 0 for '\0'.
unfoldable pub is_added : List CText → ℕ → Bool
unfolding ends_with_delimiter
is_added words delimiter = not (delimiter == 0) && not (ends_with_delimiter words)

unfoldable pub join_words : List CText → ℕ → CText
unfolding join_buffer is_added total_length
join_words words delimiter =
    let added = is_added words delimiter in
    let result = join_buffer (total_length words + (if added then 1 else 0) + 1) words in
    if added then result ++ delimiter ∷ [] else result

-- All of a text but its last byte.
unfoldable pub butlast : CText → CText
butlast [] = []
butlast (c ∷ []) = []
butlast (c ∷ d ∷ s) = c ∷ butlast (d ∷ s)

-- The delimiter that ends the trimmed sentence, 0 if there is none, and the sentence without it.
unfoldable pub cut_delimiter : CText → ℕ × CText
unfolding last_byte is_sentence_delimiter butlast
cut_delimiter buffer = elim (last_byte buffer) [
  | none ↦ (0, buffer)
  | some c ↦ if is_sentence_delimiter c then (c, butlast buffer) else (0, buffer)
]

-- `words` with `new_words` put in at `word_index`, or at the end.
unfoldable pub insert_words : List CText → ℕ → List CText → List CText
insert_words words word_index new_words =
    let insert_pos = if ltb (length words) word_index then length words else word_index in
    take insert_pos words ++ (new_words ++ drop insert_pos words)

-- The new working sentence; `none` is the return value -1. An index is never negative here.
unfoldable pub ss_apply_word_edit : CText → ℕ → CText → Option CText
unfolding cut_delimiter split_words insert_words join_words drop_trailing
ss_apply_word_edit sentence_working word_index content =
    let cut = cut_delimiter (drop_trailing sentence_working) in
    let words = split_words cut.1 in
    if ltb (length words + 1) word_index
    then none
    else some (join_words (insert_words words word_index (split_words content)) cut.0)
