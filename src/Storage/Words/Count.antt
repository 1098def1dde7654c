-- ===== src/Storage/Words/Count.antt =====
-- `count_words` of common/utils.c counts the words that `split_words` returns.
use distributed_documentatio.Base.{
  ℕ, ◌+◌, ◌≤◌, ◌≡◌, ap, Bool, true, false, List, [], ◌∷◌, arith, if◌then◌else◌, length, CText,
}
use distributed_documentatio.Text.{is_space, count_words, count_words_from}
use distributed_documentatio.Storage.Words.{split_words}
use distributed_documentatio.Storage.Words.Split.{words, begin_word, split_words-eq-words}

-- 1 if a word starts at the first byte, 0 if not.
abbrev opens : CText → ℕ
opens [] = 0
opens (c ∷ s) = if is_space c then 0 else 1

length-begin_word :
    (c : ℕ) (s : CText) (ws : List CText)
    → opens s ≤ length ws
    → length (begin_word c s ws) + opens s ≡ length ws + 1
unfolding begin_word
length-begin_word c [] ws h = omega arith
length-begin_word c (d ∷ s) [] h = ground arith
length-begin_word c (d ∷ s) (w ∷ ws) h = ground arith

opens-le-words : (s : CText) → opens s ≤ length (words s)
unfolding words
opens-le-words [] = omega arith
opens-le-words (c ∷ s) = ground (arith, length-begin_word c s (words s), opens-le-words s)

count_words_from-words :
    (inside : Bool) (n : ℕ) (s : CText)
    → count_words_from inside n s + (if inside then opens s else 0) ≡ n + length (words s)
unfolding count_words_from words
count_words_from-words inside n [] = ground arith
count_words_from-words inside n (c ∷ s) = ground (
  arith,
  count_words_from-words false n s,
  count_words_from-words true n s,
  count_words_from-words true (n + 1) s,
  length-begin_word c s (words s),
  opens-le-words s,
)

-- The count that a storage server reports for a text is the number of words that it edits.
pub count_words-eq-length-split_words : (s : CText) → count_words s ≡ length (split_words s)
unfolding count_words
count_words-eq-length-split_words s =
    omega (arith, count_words_from-words false 0 s, ap length (split_words-eq-words s))
