-- ===== src/Text.antt =====
-- common/utils.c: the string helpers. A C string is the list of its bytes without the final NUL; a
-- character test reads the byte as `unsigned char` in the C locale. NULL arguments are not modelled.
pub mod Digits
pub mod Trim
use distributed_documentatio.Base.{
  ℕ, zero, suc, ◌+◌, ◌-◌, ◌≡◌, Bool, true, false, not, ◌&&◌, ◌||◌, Option, none, some, List, [],
  ◌∷◌, ◌++◌, ltb, leb, ◌==◌, if◌then◌else◌, length, take, drop, CText, codes, str_eq,
}

-- <ctype.h> in the C locale.
unfoldable pub is_space : ℕ → Bool
is_space c = c == 32 || leb 9 c && leb c 13

unfoldable pub is_alnum : ℕ → Bool
is_alnum c = leb b'0' c && leb c b'9' || leb b'A' c && leb c b'Z' || leb b'a' c && leb c b'z'

-- while (isspace(*start)) start++;
unfoldable pub skip_spaces : CText → CText
skip_spaces [] = []
skip_spaces (c ∷ s) = if is_space c then skip_spaces s else c ∷ s

-- The walk back from the last byte, over a text whose first byte it does not reach.
back_over : ℕ → CText → CText
back_over c [] = if is_space c then [] else c ∷ []
back_over c (d ∷ t) = c ∷ d ∷ t

unfoldable pub drop_trailing : CText → CText
unfolding back_over
drop_trailing [] = []
drop_trailing (c ∷ s) = back_over c (drop_trailing s)

-- `end > str` keeps the first byte.
unfoldable pub keep_first : CText → CText
unfolding drop_trailing
keep_first [] = []
keep_first (c ∷ s) = c ∷ drop_trailing s

unfoldable pub trim_string : CText → CText
unfolding skip_spaces keep_first is_space
trim_string str = keep_first (skip_spaces str)

unfoldable pub string_starts_with : CText → CText → Bool
string_starts_with str prefix = str_eq (take (length prefix) str) (take (length prefix) prefix)

unfoldable pub string_ends_with : CText → CText → Bool
string_ends_with str suffix =
    if ltb (length str) (length suffix)
    then false
    else str_eq (drop (length str - length suffix) str) suffix

-- `none` is the return value -1; the result is the text that `dest` holds afterwards.
unfoldable pub safe_strcpy : ℕ → CText → Option CText
safe_strcpy zero src = none
safe_strcpy (suc n) src = some (take n src)

unfoldable pub safe_strcat : ℕ → CText → CText → Option CText
safe_strcat zero dest src = none
safe_strcat (suc n) dest src =
    if leb n (length dest) then none else some (dest ++ take (n - length dest) src)

unfoldable pub is_sentence_delimiter : ℕ → Bool
is_sentence_delimiter c = c == b'.' || c == b'!' || c == b'?'

-- The loop of `count_words`, over the flag `in_word` and the count.
unfoldable pub count_words_from : Bool → ℕ → CText → ℕ
count_words_from in_word count [] = count
count_words_from in_word count (c ∷ s) =
    count_words_from (not (is_space c))
      (if is_space c then count else if in_word then count else count + 1) s

unfoldable pub count_words : CText → ℕ
unfolding count_words_from is_space
count_words text = count_words_from false 0 text

unfoldable pub count_chars : CText → ℕ
unfolding is_space
count_chars [] = 0
count_chars (c ∷ s) = if is_space c then count_chars s else suc (count_chars s)

unfoldable pub count_sentences : CText → ℕ
unfolding is_sentence_delimiter
count_sentences [] = 0
count_sentences (c ∷ s) =
    if is_sentence_delimiter c then suc (count_sentences s) else count_sentences s

-- `extract_sentence`: `word` is what stands between `start` and `end`, `skipping` that the loop over
-- the spaces after a delimiter is running.
unfoldable pub extract_from : ℕ → Bool → ℕ → CText → CText → Option CText
extract_from index skipping current word [] =
    if current == index && ltb 0 (length word) then some word else none
extract_from index skipping current word (c ∷ s) = elim (skipping && is_space c) [
  | true ↦ extract_from index true current [] s
  | false ↦ elim (is_sentence_delimiter c) [
    | true ↦ elim (current == index) [
      | true ↦ some (word ++ c ∷ [])
      | false ↦ extract_from index true (current + 1) [] s
    ]
    | false ↦ extract_from index false current (word ++ c ∷ []) s
  ]
]

-- An index is never negative here.
unfoldable pub extract_sentence : CText → ℕ → Option CText
unfolding extract_from skip_spaces is_space is_sentence_delimiter
extract_sentence text index = elim (skip_spaces text) [
  | [] ↦ if index == 0 then some [] else extract_from index false 0 [] []
  | c ∷ s ↦ extract_from index false 0 [] (c ∷ s)
]
