-- ===== src/Base/Decimal.antt =====
-- Numbers as decimal text, as `%d` prints them.
use distributed_documentatio.Base.Tests.{ltb, if◌then◌else◌}
use distributed_documentatio.Base.Texts.{CText}
use Prim.Native.Nat.{ℕ, zero, suc, ◌+◌, ◌/◌, ◌%◌}
use mathlib.Core.List.{[], ◌∷◌}

-- The digits of `n` in front of `rest`; a number has fewer digits than itself plus one.
unfoldable pub digits_before : ℕ → ℕ → CText → CText
digits_before zero n rest = rest
digits_before (suc fuel) n rest =
    let more = digits_before fuel (n / 10) ((n % 10 + 48) ∷ rest) in
    if ltb n 10 then (n + 48) ∷ rest else more

unfoldable pub decimal : ℕ → CText
unfolding digits_before
decimal n = digits_before (suc n) n []
