-- ===== src/Base/Texts.antt =====
-- C strings as lists of their bytes, without the terminating NUL, and the tests on them.
use Prim.Native.Nat.{ℕ, ◌≤◌}
use Prim.Native.Char.{code}
use Prim.Native.String.{String}
use mathlib.Core.Path.{◌≡◌, refl}
use mathlib.Core.Logic.{◌↔◌}
use mathlib.Core.Bool.{Bool, true, false, ◌&&◌}
use mathlib.Core.List.{List, [], ◌∷◌}
use native.Mathlib.Omega.{arith}
use distributed_documentatio.Base.Tests.{◌==◌}
use distributed_documentatio.Base.Lists.{length, take, take_all}

abbrev pub CText : Type 0
CText = List ℕ

-- The bytes of a literal.
abbrev pub codes : String → CText
codes String.[] = []
codes (String.◌∷◌ c s) = code c ∷ codes s

-- strcmp(a, b) == 0
unfoldable pub str_eq : CText → CText → Bool
str_eq [] [] = true
str_eq [] (b ∷ t) = false
str_eq (a ∷ s) [] = false
str_eq (a ∷ s) (b ∷ t) = a == b && str_eq s t

pub str_eq_sound : (a b : CText) → str_eq a b ≡ true → a ≡ b
unfolding str_eq
str_eq_sound [] [] h = refl
str_eq_sound [] (b ∷ t) h = ground arith
str_eq_sound (a ∷ s) [] h = ground arith
str_eq_sound (a ∷ s) (b ∷ t) h = ground (arith, str_eq_sound s t)

pub str_eq_refl : (a : CText) → str_eq a a ≡ true
unfolding str_eq
str_eq_refl [] = refl
str_eq_refl (a ∷ s) = ground (arith, str_eq_refl s)

pub str_eq_iff : (a b : CText) → (str_eq a b ≡ true) ↔ (a ≡ b)
str_eq_iff a b = (str_eq_sound a b, λ e. ground (arith, str_eq_refl a))

-- strncmp(a, b, n) == 0: the texts agree in their first n bytes, the end counted.
unfoldable pub strn_eq : ℕ → CText → CText → Bool
strn_eq n a b = str_eq (take n a) (take n b)

pub strn_eq_short : (n : ℕ) (a b : CText) → length a ≤ n → length b ≤ n → strn_eq n a b ≡ str_eq a b
unfolding strn_eq
strn_eq_short n a b h k = ground (arith, take_all n a h, take_all n b k)

pub strn_eq_refl : (n : ℕ) (a : CText) → strn_eq n a a ≡ true
unfolding strn_eq
strn_eq_refl n a = str_eq_refl (take n a)

-- Two texts that agree are alike in every comparison, on either side.
pub strn_eq_left : (n : ℕ) (a b c : CText) → strn_eq n a b ≡ true → strn_eq n a c ≡ strn_eq n b c
unfolding strn_eq
strn_eq_left n a b c h = rw (str_eq_sound (take n a) (take n b) h) refl

pub strn_eq_right : (n : ℕ) (a b c : CText) → strn_eq n b c ≡ true → strn_eq n a b ≡ strn_eq n a c
unfolding strn_eq
strn_eq_right n a b c h = rw (str_eq_sound (take n b) (take n c) h) refl

pub str_eq_sym : (a b : CText) → str_eq a b ≡ str_eq b a
unfolding str_eq
str_eq_sym [] [] = refl
str_eq_sym [] (b ∷ t) = refl
str_eq_sym (a ∷ s) [] = refl
str_eq_sym (a ∷ s) (b ∷ t) = ground (arith, str_eq_sym s t)

pub strn_eq_sym : (n : ℕ) (a b : CText) → strn_eq n a b ≡ strn_eq n b a
unfolding strn_eq
strn_eq_sym n a b = str_eq_sym (take n a) (take n b)
