-- ===== src/Storage/Numbers.antt =====
-- storage_server/storage_server.c: `parse_int`. `strtol` stops at the largest and the smallest long,
-- which are out of the range of an int as well, so that its value is the number itself here.
use distributed_documentatio.Text.Digits.{read_digits, read_sign, starts_with_digit}
use distributed_documentatio.Text.{skip_spaces}
use distributed_documentatio.Base.{
  ℕ, CText, Bool, leb, ◌∷◌, false, ◌^◌, Option, if◌then◌else◌, ◌-◌, [], some, true, suc, none, zero,
}
use distributed_documentatio.Base.Int.{ℤ, pos, negsuc}

abbrev pub int_max : ℕ
int_max = 2 ^ 31 - 1

-- The number as an int; a magnitude of 2 ^ 31 is one with a minus only.
unfoldable pub to_int : Bool → ℕ → Option ℤ
to_int true zero = some (pos 0)
to_int true (suc n) = if leb n int_max then some (negsuc n) else none
to_int false n = if leb n int_max then some (pos n) else none

-- `none` is the return value -1. Where there is no number, `endptr` is the text itself.
unfoldable pub parse_int : CText → Option ℤ
parse_int [] = some (pos 0)
parse_int (c ∷ s) =
    let (minus, digits) = read_sign (skip_spaces (c ∷ s)) in
    let (value, rest) = read_digits 0 digits in
    if starts_with_digit digits then elim rest [ [] ↦ to_int minus value | _ ∷ _ ↦ none ] else none
