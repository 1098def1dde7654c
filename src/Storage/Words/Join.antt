-- ===== src/Storage/Words/Join.antt =====
-- `join_words` never cuts a word short, and `split_words` takes its result apart again.
use mathlib.Core.List.{append_assoc, append-nil}
use distributed_documentatio.Base.{
  ℕ, CText, length, List, ◌∷◌, ◌≡◌, ◌+◌, ◌++◌, if◌then◌else◌, ◌≤◌, arith, [], suc, length-append,
  Bool-cases, leb, sym, inl, true, ◌∙◌, inr, ap, take_all, ◌-◌, false, refl,
}
use distributed_documentatio.Text.{is_space, safe_strcat}
use distributed_documentatio.Storage.Words.{
  cat, join_from, join_buffer, is_added, join_words, total_length, split_words,
}
use distributed_documentatio.Storage.Words.Split.{
  words, begin_word, IsWord, AllWords, split_words-eq-words,
}
use native.Mathlib.Numerals.{add-one}

cat_fits :
    (n : ℕ) (dest src : CText) → length dest + length src ≤ n → cat (suc n) dest src ≡ dest ++ src
unfolding cat safe_strcat
cat_fits n dest src h = elim (Bool-cases (leb n (length dest))) [
  | inl full ↦ rw (full, cat) (full_case src h full)
  | inr room ↦ rw (room, cat) (ap (◌++◌ dest) (take_all (n - length dest) src (ground arith)))
]
  where
    full_case :
        (src : CText)
        → length dest + length src ≤ n
        → leb n (length dest) ≡ true
        → dest ≡ dest ++ src
    full_case [] h full = sym (append-nil dest)
    full_case (c ∷ s) h full = absurd (ground arith)

-- The words with one space between two of them: all but the first, then all.
spaced_tail : List CText → CText
spaced_tail [] = []
spaced_tail (w ∷ ws) = 32 ∷ (w ++ spaced_tail ws)

unfoldable pub spaced : List CText → CText
unfolding spaced_tail
spaced [] = []
spaced (w ∷ ws) = w ++ spaced_tail ws

length-spaced_tail :
    (w : CText) (ws : List CText) → length w + length (spaced_tail ws) ≡ total_length (w ∷ ws)
unfolding spaced_tail total_length
length-spaced_tail w [] = omega arith
length-spaced_tail w (v ∷ ws) =
    omega (arith, length-append v (spaced_tail ws), length-spaced_tail v ws)

join_from-spaced :
    (n : ℕ) (result : CText) (ws : List CText)
    → length result + length (spaced_tail ws) ≤ n
    → join_from (suc n) result ws ≡ result ++ spaced_tail ws
unfolding join_from spaced_tail
join_from-spaced n result [] h = sym (append-nil result)
join_from-spaced n result (w ∷ ws) h =
    let parts = length-append w (spaced_tail ws) in
    let one = cat_fits n result (32 ∷ []) (omega (arith, parts)) in
    let two =
      cat_fits n (result ++ 32 ∷ []) w (omega (arith, parts, length-append result (32 ∷ []))) in
    rw (one, two)
      (join_from-spaced n (result ++ 32 ∷ [] ++ w) ws (
          omega (arith, parts, length-append result (32 ∷ []), length-append (result ++ 32 ∷ []) w))
        ∙ simp append_assoc)

unfoldable pub delimiter_part : List CText → ℕ → CText
unfolding is_added
delimiter_part ws delimiter = if is_added ws delimiter then delimiter ∷ [] else []

join_buffer-spaced :
    (ws : List CText) (k : ℕ) → join_buffer (total_length ws + k + 1) ws ≡ spaced ws
unfolding join_buffer spaced
join_buffer-spaced [] k = refl
join_buffer-spaced (w ∷ ws) k =
    let total = length-spaced_tail w ws in
    rw (add-one, cat_fits (total_length (w ∷ ws) + k) [] w (omega (arith, total)))
      (join_from-spaced (total_length (w ∷ ws) + k) w ws (omega (arith, total)))

-- The buffer is exactly large enough: nothing is cut off.
pub join_words-spaced :
    (ws : List CText) (delimiter : ℕ)
    → join_words ws delimiter ≡ spaced ws ++ delimiter_part ws delimiter
unfolding join_words delimiter_part
join_words-spaced ws delimiter = elim (Bool-cases (is_added ws delimiter)) [
  | inl e ↦ rw (e, join_buffer-spaced ws 1) refl
  | inr e ↦ rw (e, join_buffer-spaced ws 0) (sym (append-nil (spaced ws)))
]

-- The rest of a text after a word: its end, or a space and more.
abbrev EndsWord : CText → Type 0
EndsWord [] = Unit {0}
EndsWord (c ∷ s) = is_space c ≡ true

words-append : (w rest : CText) → IsWord w → EndsWord rest → words (w ++ rest) ≡ w ∷ words rest
unfolding words begin_word
words-append [] rest h e = absurd h
words-append (c ∷ []) [] h e = rw h
words-append (c ∷ []) (d ∷ rest) h e = rw (h, e) refl
words-append (c ∷ d ∷ w) rest h e = ground (arith, words-append (d ∷ w) rest h.1 e)

spaced_tail-EndsWord : (ws : List CText) → EndsWord (spaced_tail ws)
unfolding spaced_tail is_space
spaced_tail-EndsWord [] = tt
spaced_tail-EndsWord (w ∷ ws) = refl

words-spaced_tail : (ws : List CText) → AllWords ws → words (spaced_tail ws) ≡ ws
unfolding words spaced_tail is_space
words-spaced_tail [] a = refl
words-spaced_tail (w ∷ ws) a =
    words-append w (spaced_tail ws) a.0 (spaced_tail-EndsWord ws)
    ∙ ap (◌∷◌ w) (words-spaced_tail ws a.1)

-- Words joined by single spaces are split again into the same words.
pub words-spaced : (ws : List CText) → AllWords ws → words (spaced ws) ≡ ws
unfolding spaced words
words-spaced [] a = refl
words-spaced (w ∷ ws) a =
    words-append w (spaced_tail ws) a.0 (spaced_tail-EndsWord ws)
    ∙ ap (◌∷◌ w) (words-spaced_tail ws a.1)

-- The words with a byte put behind the last of them.
unfoldable pub mark_last : List CText → ℕ → List CText
mark_last [] d = (d ∷ []) ∷ []
mark_last (w ∷ []) d = (w ++ d ∷ []) ∷ []
mark_last (w ∷ v ∷ ws) d = w ∷ mark_last (v ∷ ws) d

spaced_tail-mark_last :
    (v : CText) (ws : List CText) (d : ℕ)
    → spaced_tail (v ∷ ws) ++ d ∷ [] ≡ spaced_tail (mark_last (v ∷ ws) d)
unfolding spaced_tail mark_last
spaced_tail-mark_last v [] d = simp append-nil
spaced_tail-mark_last v (w ∷ ws) d =
    ap (◌∷◌ 32)
      (append_assoc v (spaced_tail (w ∷ ws)) (d ∷ []) ∙ ap (◌++◌ v) (spaced_tail-mark_last w ws d))

spaced-mark_last : (ws : List CText) (d : ℕ) → spaced ws ++ d ∷ [] ≡ spaced (mark_last ws d)
unfolding spaced mark_last
spaced-mark_last [] d = refl
spaced-mark_last (w ∷ []) d = simp append-nil
spaced-mark_last (w ∷ v ∷ ws) d =
    append_assoc w (spaced_tail (v ∷ ws)) (d ∷ []) ∙ ap (◌++◌ w) (spaced_tail-mark_last v ws d)

IsWord-append : (w : CText) (d : ℕ) → is_space d ≡ false → IsWord w → IsWord (w ++ d ∷ [])
IsWord-append [] d h a = absurd a
IsWord-append (c ∷ []) d h a = (a, h)
IsWord-append (c ∷ b ∷ w) d h a = (a.0, IsWord-append (b ∷ w) d h a.1)

mark_last-AllWords :
    (ws : List CText) (d : ℕ) → is_space d ≡ false → AllWords ws → AllWords (mark_last ws d)
unfolding mark_last
mark_last-AllWords [] d h a = (h, tt)
mark_last-AllWords (w ∷ []) d h a = (IsWord-append w d h a.0, tt)
mark_last-AllWords (w ∷ v ∷ ws) d h a = (a.0, mark_last-AllWords (v ∷ ws) d h a.1)

-- What `join_words` makes of the words: the delimiter stands behind the last.
unfoldable pub close : List CText → ℕ → List CText
close ws delimiter = if is_added ws delimiter then mark_last ws delimiter else ws

-- Splitting what was joined from words and a delimiter that is no space gives back the words, the delimiter on
-- the last one.
pub split-join :
    (ws : List CText) (delimiter : ℕ)
    → AllWords ws
    → is_space delimiter ≡ false
    → split_words (join_words ws delimiter) ≡ close ws delimiter
unfolding close delimiter_part
split-join ws delimiter a h = elim (Bool-cases (is_added ws delimiter)) [
  | inl e ↦
      rw (split_words-eq-words, join_words-spaced ws delimiter, e, spaced-mark_last ws delimiter)
        (words-spaced (mark_last ws delimiter) (mark_last-AllWords ws delimiter h a))
  | inr e ↦
      rw (split_words-eq-words, join_words-spaced ws delimiter, e, append-nil (spaced ws))
        (words-spaced ws a)
]
