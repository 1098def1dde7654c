-- ===== src/Text/Trim.antt =====
-- What `trim_string` of common/utils.c returns.
use mathlib.Core.List.{append_assoc}
use distributed_documentatio.Base.{
  ℕ, ◌≡◌, refl, ap, ◌∙◌, sym, true, false, [], ◌∷◌, ◌++◌, inl, inr, Bool-cases, arith, CText, all,
  ◌<◌, length,
}
use distributed_documentatio.Text.{
  is_space, skip_spaces, back_over, drop_trailing, keep_first, trim_string,
}

-- The first byte, if there is one, is no space.
abbrev pub StartsInk : CText → Type 0
StartsInk [] = Unit {0}
StartsInk (c ∷ s) = is_space c ≡ false

-- The last byte, if there is one, is no space.
abbrev pub EndsInk : CText → Type 0
EndsInk [] = Unit {0}
EndsInk (c ∷ []) = is_space c ≡ false
EndsInk (c ∷ d ∷ s) = EndsInk (d ∷ s)

pub skip_spaces-StartsInk : (s : CText) → StartsInk (skip_spaces s)
unfolding skip_spaces
skip_spaces-StartsInk [] = tt
skip_spaces-StartsInk (c ∷ s) = ground (arith, skip_spaces-StartsInk s)

back_over-EndsInk : (c : ℕ) (s : CText) → EndsInk s → EndsInk (back_over c s)
unfolding back_over
back_over-EndsInk c [] h = ground arith
back_over-EndsInk c (d ∷ s) h = h

pub drop_trailing-EndsInk : (s : CText) → EndsInk (drop_trailing s)
unfolding drop_trailing
drop_trailing-EndsInk [] = tt
drop_trailing-EndsInk (c ∷ s) = back_over-EndsInk c (drop_trailing s) (drop_trailing-EndsInk s)

EndsInk-cons : (c : ℕ) (s : CText) → is_space c ≡ false → EndsInk s → EndsInk (c ∷ s)
EndsInk-cons c [] h k = h
EndsInk-cons c (d ∷ s) h k = k

keep_first-EndsInk : (s : CText) → StartsInk s → EndsInk (keep_first s)
unfolding keep_first
keep_first-EndsInk [] h = tt
keep_first-EndsInk (c ∷ s) h = EndsInk-cons c (drop_trailing s) h (drop_trailing-EndsInk s)

keep_first-StartsInk : (s : CText) → StartsInk s → StartsInk (keep_first s)
unfolding keep_first
keep_first-StartsInk [] h = tt
keep_first-StartsInk (c ∷ s) h = h

-- `s` is `t` with spaces on its left.
abbrev pub SpacesBefore : CText → CText → Type 0
SpacesBefore s t = (pre : CText) × (s ≡ pre ++ t) × (all is_space pre ≡ true)

abbrev pub SpacesAfter : CText → CText → Type 0
SpacesAfter s t = (post : CText) × (s ≡ t ++ post) × (all is_space post ≡ true)

pub skip_spaces-SpacesBefore : (s : CText) → SpacesBefore s (skip_spaces s)
unfolding skip_spaces all
skip_spaces-SpacesBefore [] = ([], refl, refl)
skip_spaces-SpacesBefore (c ∷ s) = elim (Bool-cases (is_space c)) [
  | inl e ↦ let (pre, h, k) = skip_spaces-SpacesBefore s in (c ∷ pre, rw e (ap (◌∷◌ c) h), rw e k)
  | inr e ↦ ([], rw e, refl)
]

back_over-SpacesAfter :
    (c : ℕ) (s t : CText) → SpacesAfter s t → SpacesAfter (c ∷ s) (back_over c t)
unfolding back_over all
back_over-SpacesAfter c s (d ∷ t) (post, h, k) = (post, ap (◌∷◌ c) h, k)
back_over-SpacesAfter c s [] (post, h, k) = elim (Bool-cases (is_space c)) [
  | inl e ↦ (c ∷ post, rw e (ap (◌∷◌ c) h), rw e k)
  | inr e ↦ (post, rw e (ap (◌∷◌ c) h), k)
]

drop_trailing-SpacesAfter : (s : CText) → SpacesAfter s (drop_trailing s)
unfolding drop_trailing all
drop_trailing-SpacesAfter [] = ([], refl, refl)
drop_trailing-SpacesAfter (c ∷ s) =
    back_over-SpacesAfter c s (drop_trailing s) (drop_trailing-SpacesAfter s)

keep_first-SpacesAfter : (s : CText) → SpacesAfter s (keep_first s)
unfolding keep_first all
keep_first-SpacesAfter [] = ([], refl, refl)
keep_first-SpacesAfter (c ∷ s) =
    let (post, h, k) = drop_trailing-SpacesAfter s in (post, ap (◌∷◌ c) h, k)

-- `trim_string` takes spaces off both ends of the text, all of them, and nothing else.
pub trim_string_exact :
    (s : CText)
    → (pre post : CText) × (s ≡ pre ++ trim_string s ++ post)
      × (all is_space pre ≡ true)
      × (all is_space post ≡ true)
      × StartsInk (trim_string s)
      × EndsInk (trim_string s)
unfolding trim_string
trim_string_exact s =
    let (pre, h, k) = skip_spaces-SpacesBefore s in
    let (post, i, j) = keep_first-SpacesAfter (skip_spaces s) in
    (
      pre,
      post,
      h ∙ ap (◌++◌ pre) i ∙ sym (append_assoc pre (keep_first (skip_spaces s)) post),
      k,
      j,
      keep_first-StartsInk (skip_spaces s) (skip_spaces-StartsInk s),
      keep_first-EndsInk (skip_spaces s) (skip_spaces-StartsInk s),
    )

drop_trailing-spaces : (post : CText) → all is_space post ≡ true → drop_trailing post ≡ []
unfolding drop_trailing back_over all
drop_trailing-spaces [] h = refl
drop_trailing-spaces (c ∷ post) h = ground (arith, drop_trailing-spaces post)

drop_trailing-ink :
    (s post : CText) → EndsInk s → all is_space post ≡ true → drop_trailing (s ++ post) ≡ s
unfolding drop_trailing back_over
drop_trailing-ink [] post ink h = drop_trailing-spaces post h
drop_trailing-ink (c ∷ []) post ink h = rw (drop_trailing-spaces post h, back_over) (ground arith)
drop_trailing-ink (c ∷ d ∷ s) post ink h = rw (drop_trailing-ink (d ∷ s) post ink h) refl

-- A text that starts and ends with no space loses only what follows it.
pub trim-ink :
    (s post : CText)
    → StartsInk s
    → EndsInk s
    → 0 < length s
    → all is_space post ≡ true
    → trim_string (s ++ post) ≡ s
unfolding trim_string keep_first skip_spaces
trim-ink [] post starts ends some_text h = absurd (omega arith)
trim-ink (c ∷ []) post starts ends some_text h = rw (starts, drop_trailing-spaces post h) refl
trim-ink (c ∷ d ∷ s) post starts ends some_text h =
    rw (starts, drop_trailing-ink (d ∷ s) post ends h) refl
