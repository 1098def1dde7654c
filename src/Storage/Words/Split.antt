-- ===== src/Storage/Words/Split.antt =====
-- `split_words` against a reference: the words of a text, by recursion on the text.
use distributed_documentatio.Base.{
  ℕ, zero, suc, ◌≤◌, ◌≡◌, refl, sym, ap, ◌∙◌, false, List, [], ◌∷◌, inl, inr, Bool-cases, subst,
  arith, if◌then◌else◌, length, CText,
}
use mathlib.Core.List.{flatten}
use distributed_documentatio.Text.Trim.{StartsInk, skip_spaces-StartsInk}
use distributed_documentatio.Text.{is_space, skip_spaces}
use distributed_documentatio.Storage.Words.{word_at, after_word, split_loop, split_words}

abbrev pub onto_first : ℕ → List CText → List CText
onto_first c [] = (c ∷ []) ∷ []
onto_first c (w ∷ ws) = (c ∷ w) ∷ ws

-- `c`, no space, in front of the text `s` whose words are `ws`.
unfoldable pub begin_word : ℕ → CText → List CText → List CText
begin_word c [] ws = (c ∷ []) ∷ ws
begin_word c (d ∷ s) ws = if is_space d then (c ∷ []) ∷ ws else onto_first c ws

unfoldable pub words : CText → List CText
unfolding begin_word
words [] = []
words (c ∷ s) = if is_space c then words s else begin_word c s (words s)

words-skip_spaces : (s : CText) → words (skip_spaces s) ≡ words s
unfolding words skip_spaces
words-skip_spaces [] = refl
words-skip_spaces (c ∷ s) = ground (arith, words-skip_spaces s)

-- The words of a text whose first byte is no space.
words-word_at :
    (c : ℕ) (s : CText)
    → is_space c ≡ false
    → words (c ∷ s) ≡ word_at (c ∷ s) ∷ words (after_word (c ∷ s))
unfolding words word_at after_word
words-word_at c [] h = rw h
words-word_at c (d ∷ s) h = ground (arith, words-word_at d s)

length-after_word-le : (s : CText) → length (after_word s) ≤ length s
unfolding after_word
length-after_word-le [] = omega arith
length-after_word-le (c ∷ s) = ground (arith, length-after_word-le s)

length-skip_spaces-le : (s : CText) → length (skip_spaces s) ≤ length s
unfolding skip_spaces
length-skip_spaces-le [] = omega arith
length-skip_spaces-le (c ∷ s) = ground (arith, length-skip_spaces-le s)

module _ (fuel : ℕ) (s : CText) (h : length s ≤ suc fuel)
    (rec : (r : CText) → length r ≤ fuel → split_loop fuel r ≡ words r) where
  round_eq : (t : CText) → skip_spaces s ≡ t → split_loop (suc fuel) s ≡ words s
  unfolding split_loop after_word
  round_eq [] e =
      rw (e, split_loop)
        (let w : words [] ≡ words s = rw e at (words-skip_spaces s) in unfold words in w)
  round_eq (c ∷ t) e =
      let ink : is_space c ≡ false = subst StartsInk e (skip_spaces-StartsInk s) in
      let fits : suc (length t) ≤ length s = rw e at (length-skip_spaces-le s) in
      let left : length (after_word (c ∷ t)) ≤ fuel =
        rw ink (omega (arith, length-after_word-le t)) in
      let w : words (c ∷ t) ≡ words s = rw e at (words-skip_spaces s) in
      rw (e, split_loop)
        (ap (◌∷◌ (word_at (c ∷ t))) (rec (after_word (c ∷ t)) left)
          ∙ sym (words-word_at c t ink)
          ∙ w)

split_loop-eq-words : (fuel : ℕ) (s : CText) → length s ≤ fuel → split_loop fuel s ≡ words s
unfolding split_loop words
split_loop-eq-words zero [] h = refl
split_loop-eq-words zero (c ∷ s) h = absurd (omega arith)
split_loop-eq-words (suc fuel) s h =
    round_eq fuel s h (split_loop-eq-words fuel) (skip_spaces s) refl

-- The loop never runs out of fuel, and yields the words of the text.
pub split_words-eq-words : (s : CText) → split_words s ≡ words s
unfolding split_words
split_words-eq-words s = split_loop-eq-words (length s) s (omega arith)

-- A word: some bytes, none of them a space.
abbrev pub IsWord : CText → Type 0
IsWord [] = ⊥
IsWord (c ∷ []) = is_space c ≡ false
IsWord (c ∷ d ∷ s) = (is_space c ≡ false) × IsWord (d ∷ s)

abbrev pub AllWords : List CText → Type 0
AllWords [] = Unit {0}
AllWords (w ∷ ws) = IsWord w × AllWords ws

onto_first-AllWords :
    (c : ℕ) (ws : List CText) → is_space c ≡ false → AllWords ws → AllWords (onto_first c ws)
onto_first-AllWords c [] h a = (h, tt)
onto_first-AllWords c ([] ∷ ws) h a = absurd a.0
onto_first-AllWords c ((d ∷ w) ∷ ws) h a = ((h, a.0), a.1)

begin_word-AllWords :
    (c : ℕ) (s : CText) (ws : List CText)
    → is_space c ≡ false
    → AllWords ws
    → AllWords (begin_word c s ws)
unfolding begin_word
begin_word-AllWords c [] ws h a = (h, a)
begin_word-AllWords c (d ∷ s) ws h a = elim (Bool-cases (is_space d)) [
  | inl e ↦ rw e (h, a)
  | inr e ↦ rw e (onto_first-AllWords c ws h a)
]

-- Every member of the result is a word.
pub words-AllWords : (s : CText) → AllWords (words s)
unfolding words
words-AllWords [] = tt
words-AllWords (c ∷ s) = elim (Bool-cases (is_space c)) [
  | inl e ↦ rw e (words-AllWords s)
  | inr e ↦ rw e (begin_word-AllWords c s (words s) e (words-AllWords s))
]

-- The bytes of a text that are no spaces, in order.
unfoldable pub ink : CText → CText
ink [] = []
ink (c ∷ s) = if is_space c then ink s else c ∷ ink s

flatten-onto_first : (c : ℕ) (ws : List CText) → flatten (onto_first c ws) ≡ c ∷ flatten ws
unfolding flatten
flatten-onto_first c [] = refl
flatten-onto_first c (w ∷ ws) = refl

flatten-begin_word :
    (c : ℕ) (s : CText) (ws : List CText) → flatten (begin_word c s ws) ≡ c ∷ flatten ws
unfolding flatten begin_word
flatten-begin_word c [] ws = refl
flatten-begin_word c (d ∷ s) ws = ground (arith, flatten-onto_first c ws)

flatten-words : (s : CText) → flatten (words s) ≡ ink s
unfolding words ink flatten
flatten-words [] = refl
flatten-words (c ∷ s) = ground (arith, flatten-begin_word c s (words s), flatten-words s)
