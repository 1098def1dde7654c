-- ===== src/Base64/Table.antt =====
-- The value of each letter of the alphabet is its place.
use distributed_documentatio.Base.{
  ℕ, Bool, ◌≡◌, ◌<◌, true, ◌==◌, suc, arith, false, refl, zero, Bool-cases, if◌then◌else◌, inr, inl,
}
use distributed_documentatio.Base64.{letter, base64_value, Value, sextet, padding, invalid}

-- The places before `limit` whose letters have their value.
places_checked : (ℕ → Bool) → ℕ → Bool
places_checked good zero = true
places_checked good (suc limit) = if good limit then places_checked good limit else false

checked_place :
    (good : ℕ → Bool) (limit : ℕ)
    → places_checked good limit ≡ true
    → (place : ℕ) → place < limit
    → good place ≡ true
unfolding places_checked
checked_place good zero h place l = absurd (omega arith)
checked_place good (suc limit) h place l = elim (Bool-cases (good limit)) [
  | inr bad ↦ let no : false ≡ true = rw bad at h in absurd (ground arith)
  | inl fine ↦ elim (Bool-cases (place == limit)) [
    | inl last ↦ let same : place ≡ limit = ground arith in rw same fine
    | inr other ↦
        let rest : places_checked good limit ≡ true = rw fine at h in
        checked_place good limit rest place (ground arith)
  ]
]

is_sextet : Value → ℕ → Bool
is_sextet (sextet n) m = n == m
is_sextet padding m = false
is_sextet invalid m = false

is_sextet_sound : (v : Value) (m : ℕ) → is_sextet v m ≡ true → v ≡ sextet m
unfolding is_sextet
is_sextet_sound (sextet n) m h = ground arith
is_sextet_sound padding m h = cc
is_sextet_sound invalid m h = cc

letter_table : places_checked (λ i. is_sextet (base64_value (letter i)) i) 64 ≡ true
unfolding places_checked is_sextet base64_value letter
letter_table = refl

pub base64_value-letter : (i : ℕ) → i < 64 → base64_value (letter i) ≡ sextet i
base64_value-letter i h =
    is_sextet_sound (base64_value (letter i)) i
      (checked_place (λ j. is_sextet (base64_value (letter j)) j) 64 letter_table i h)
