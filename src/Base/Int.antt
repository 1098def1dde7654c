-- ===== src/Base/Int.antt =====
-- Signed integers over the native numbers, under the library's names; `negsuc n` is -(n + 1).
use Prim.Native.Nat.{ℕ, ◌+◌, ◌-◌}
use mathlib.Core.Bool.{Bool, true, false}
use mathlib.Core.Path.{◌≡◌}
use native.Mathlib.Omega.{arith}
use distributed_documentatio.Base.Tests.{◌==◌, leb, if◌then◌else◌}

pub data ℤ : Type 0 where
  pos : ℕ → ℤ
  negsuc : ℕ → ℤ

-- The integer, or 0 if it is negative.
abbrev pub pos_part : ℤ → ℕ
pos_part (pos n) = n
pos_part (negsuc n) = 0

-- a == b
unfoldable pub int_eq : ℤ → ℤ → Bool
int_eq (pos a) (pos b) = a == b
int_eq (negsuc a) (negsuc b) = a == b
int_eq (pos a) (negsuc b) = false
int_eq (negsuc a) (pos b) = false

pub int_eq_sound : (a b : ℤ) → int_eq a b ≡ true → a ≡ b
unfolding int_eq
int_eq_sound (pos a) (pos b) h = ground arith
int_eq_sound (negsuc a) (negsuc b) h = ground arith
int_eq_sound (pos a) (negsuc b) h = ground arith
int_eq_sound (negsuc a) (pos b) h = ground arith

pub int_eq_refl : (a : ℤ) → int_eq a a ≡ true
unfolding int_eq
int_eq_refl (pos a) = ground arith
int_eq_refl (negsuc a) = ground arith

-- a - b
abbrev pub nat_difference : ℕ → ℕ → ℤ
nat_difference a b = if leb b a then pos (a - b) else negsuc (b - a - 1)

infixl 65 ◌+ℤ◌
abbrev pub ◌+ℤ◌ : ℤ → ℤ → ℤ
pos a +ℤ pos b = pos (a + b)
pos a +ℤ negsuc b = nat_difference a (b + 1)
negsuc a +ℤ pos b = nat_difference b (a + 1)
negsuc a +ℤ negsuc b = negsuc (a + b + 1)

abbrev pub negated : ℤ → ℤ
negated (pos a) = nat_difference 0 a
negated (negsuc a) = pos (a + 1)
