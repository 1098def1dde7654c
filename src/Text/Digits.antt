-- ===== src/Text/Digits.antt =====
-- Numbers in texts, as `strtol`, `atoi` and `atoll` read them; a number that is out of range for its C type is
-- left as it is here.
use distributed_documentatio.Text.{skip_spaces}
use distributed_documentatio.Base.Int.{ℤ, pos, negsuc}
use distributed_documentatio.Base.{
  ℕ, CText, Bool, leb, ◌∷◌, false, ◌&&◌, if◌then◌else◌, ◌-◌, [], ◌*◌, ◌==◌, ◌+◌, true, not, decimal,
  suc,
}

unfoldable pub is_digit : ℕ → Bool
is_digit c = leb b'0' c && leb c b'9'

-- The value of the digits at the front, after `value`, and what follows them.
unfoldable pub read_digits : ℕ → CText → ℕ × CText
read_digits value [] = (value, [])
read_digits value (c ∷ s) =
    if is_digit c then read_digits (value * 10 + (c - b'0')) s else (value, c ∷ s)

-- The sign, true for a minus, and what follows it.
unfoldable pub read_sign : CText → Bool × CText
read_sign [] = (false, [])
read_sign (c ∷ s) =
    if c == b'-' then (true, s) else if c == b'+' then (false, s) else (false, c ∷ s)

-- There is a digit in front.
unfoldable pub starts_with_digit : CText → Bool
starts_with_digit [] = false
starts_with_digit (c ∷ s) = is_digit c

unfoldable pub signed : Bool → ℕ → ℤ
signed minus value = if minus && not (value == 0) then negsuc (value - 1) else pos value

-- atoi, atoll
unfoldable pub read_int : CText → ℤ
unfolding read_digits read_sign signed is_digit
read_int s =
    let (minus, digits) = read_sign (skip_spaces s) in signed minus (read_digits 0 digits).0

-- `%d`, `%lld`
unfoldable pub int_text : ℤ → CText
unfolding decimal
int_text (pos n) = decimal n
int_text (negsuc n) = b'-' ∷ decimal (suc n)
