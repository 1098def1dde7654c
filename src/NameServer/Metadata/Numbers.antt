-- ===== src/NameServer/Metadata/Numbers.antt =====
-- A number that is printed is read again.
use distributed_documentatio.Text.Digits.{
  read_digits, read_int, is_digit, read_sign, signed, int_text,
}
use distributed_documentatio.Base.{
  digits_before, ℕ, decimal, CText, ◌<◌, ◌+◌, ◌≡◌, ◌∷◌, arith, ◌*◌, suc, ◌-◌, Bool-cases, [], leb,
  ltb, ap, ◌&&◌, inl, false, true, inr, ◌/◌, ◌≤◌, refl, ◌%◌, ◌∙◌, all,
}
use distributed_documentatio.Text.{skip_spaces, is_space}
use distributed_documentatio.Base.Int.{pos, negsuc, ℤ}
use distributed_documentatio.Protocol.Fields.{is_plain}

read_digit :
    (v d : ℕ) (rest : CText)
    → d < 10
    → read_digits v ((d + 48) ∷ rest) ≡ read_digits (v * 10 + d) rest
unfolding read_digits is_digit
read_digit v d rest small =
    let value : v * 10 + (d + 48 - 48) ≡ v * 10 + d = omega arith in
    let digit : (leb 48 (d + 48) && leb (d + 48) 57) ≡ true = ground (arith, small) in
    rw (digit, value) refl

read_digits-before :
    (fuel n : ℕ) (rest : CText)
    → n < fuel
    → read_digits 0 (digits_before fuel n rest) ≡ read_digits n rest
unfolding digits_before
read_digits-before ℕ.zero n rest h = absurd (omega arith)
read_digits-before (suc fuel) n rest h = elim (Bool-cases (ltb n 10)) [
  | inl small ↦
      (let value : 0 * 10 + n ≡ n = omega arith in
        rw (digits_before, small)
          (read_digit 0 n rest (ground (arith, small)) ∙ ap (λ v. read_digits v rest) value))
  | inr large ↦
      let value : n / 10 * 10 + n % 10 ≡ n = omega arith in
      let big : 10 ≤ n = ground (arith, large) in
      let less : n / 10 < fuel = omega (arith, h, big) in
      rw (digits_before, large)
        (read_digits-before fuel (n / 10) ((n % 10 + 48) ∷ rest) less
          ∙ (read_digit (n / 10) (n % 10) rest (omega arith) ∙ ap (λ v. read_digits v rest) value))
]

-- A digit stands in front.
first_digit :
    (fuel n : ℕ) (rest : CText)
    → n < fuel
    → (c : ℕ) × (s : CText) × (digits_before fuel n rest ≡ c ∷ s) × (47 < c) × (c < 58)
unfolding digits_before
first_digit ℕ.zero n rest h = absurd (omega arith)
first_digit (suc fuel) n rest h = elim (Bool-cases (ltb n 10)) [
  | inl small ↦
      let below : n < 10 = ground (arith, small) in
      rw (digits_before, small) (n + 48, rest, refl, omega arith, omega (arith, below))
  | inr large ↦
      let big : 10 ≤ n = ground (arith, large) in
      rw (digits_before, large)
        (first_digit fuel (n / 10) ((n % 10 + 48) ∷ rest) (omega (arith, h, big)))
]

pub read_int-decimal : (n : ℕ) → read_int (decimal n) ≡ pos n
unfolding read_int decimal read_sign skip_spaces is_space signed
read_int-decimal n =
    let (c, s, front, low, high) = first_digit (suc n) n [] (omega arith) in
    let value : (read_digits 0 (digits_before (suc n) n [])).0 ≡ n =
      ap (λ r. r.0) (read_digits-before (suc n) n [] (omega arith)) in
    let spaced : is_space c ≡ false = ground (arith, low, high) in
    let front_value : (read_digits 0 (c ∷ s)).0 ≡ n = rw front at value in
    rw front (ground (arith, front_value, low, high))

negative : (n : ℕ) → read_int (b'-' ∷ decimal (suc n)) ≡ negsuc n
unfolding read_int decimal read_sign skip_spaces is_space signed
negative n =
    let value : (read_digits 0 (digits_before (suc (suc n)) (suc n) [])).0 ≡ suc n =
      ap (λ r. r.0) (read_digits-before (suc (suc n)) (suc n) [] (omega arith)) in
    ground (arith, value)

pub read_int-int_text : (z : ℤ) → read_int (int_text z) ≡ z
unfolding int_text
read_int-int_text (pos n) = read_int-decimal n
read_int-int_text (negsuc n) = negative n

-- A number has no bar.
digits-is_plain :
    (fuel n : ℕ) (rest : CText) → is_plain rest ≡ true → is_plain (digits_before fuel n rest) ≡ true
unfolding digits_before is_plain all
digits-is_plain ℕ.zero n rest h = h
digits-is_plain (suc fuel) n rest h = elim (Bool-cases (ltb n 10)) [
  | inl small ↦ rw (digits_before, small) (ground (arith, h, small))
  | inr large ↦
      let digit : n % 10 < 10 = omega arith in
      let front : is_plain ((n % 10 + 48) ∷ rest) ≡ true = ground (arith, h, digit) in
      rw (digits_before, large) (digits-is_plain fuel (n / 10) ((n % 10 + 48) ∷ rest) front)
]

pub decimal-is_plain : (n : ℕ) → is_plain (decimal n) ≡ true
unfolding decimal is_plain all
decimal-is_plain n = digits-is_plain (suc n) n [] refl

pub int_text-is_plain : (z : ℤ) → is_plain (int_text z) ≡ true
unfolding int_text is_plain all
int_text-is_plain (pos n) = decimal-is_plain n
int_text-is_plain (negsuc n) = decimal-is_plain (suc n)
