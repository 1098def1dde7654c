-- ===== src/Base64/Decode.antt =====
-- `base64_decode` after `base64_encode`: the bytes come back if their number is a positive multiple of 3.
-- For any other number the decoder refuses the encoder's output.
use distributed_documentatio.Base.{
  ℕ, CText, length, ◌<◌, ◌≡◌, true, ◌++◌, ◌+◌, ◌≤◌, ltb→lt, ◌∷◌, [], ◌/◌, arith, ◌%◌, ◌*◌, some,
  ◌^◌, length-append, all, Bool, Bool-cases, ap, not, if◌then◌else◌, ◌==◌, refl, none, inl, sym,
  ==_iff, inr, suc, ◌∙◌, ◌-◌, ◌⊎◌, ◌≢◌, ◌||◌, false,
}
use distributed_documentatio.Base64.{
  letter, base64_value, sextet, put_byte, decode_group, decode_loop, padding_of, base64_encode,
  base64_decode,
}
use distributed_documentatio.Base64.Table.{base64_value-letter}
use distributed_documentatio.Base64.Encode.{rfc4648, is_byte, base64_encode-rfc4648}
use mathlib.Core.List.{append_assoc, append-nil}

put_byte_room :
    (limit : ℕ) (out : CText) (x : ℕ) → length out < limit → put_byte limit out x ≡ out ++ x ∷ []
unfolding put_byte
put_byte_room limit out x h = ground arith

module _ (limit : ℕ) (out : CText) (a b c : ℕ) (a_byte : a < 256) (b_byte : b < 256)
    (c_byte : c < 256) (room : length out + 3 ≤ limit) where
  decode_group_lem :
      decode_group limit out
        (sextet (a / 4 % 64))
        (sextet (a % 4 * 16 + b / 16))
        (sextet (b % 16 * 4 + c / 64))
        (sextet (c % 64))
      ≡ some (out ++ a ∷ b ∷ c ∷ [])
  unfolding decode_group
  decode_group_lem =
      let t : ℕ =
        a / 4 % 64 * 2 ^ 18
        + (a % 4 * 16 + b / 16) * 2 ^ 12
        + (b % 16 * 4 + c / 64) * 2 ^ 6
        + c % 64 in
      let one : t / 2 ^ 16 % 256 ≡ a = omega arith in
      let two : t / 2 ^ 8 % 256 ≡ b = omega arith in
      let three : t % 256 ≡ c = omega arith in
      let first = put_byte_room limit out a (omega arith) in
      let second =
        put_byte_room limit (out ++ a ∷ []) b (omega (arith, length-append out (a ∷ []))) in
      let third =
        put_byte_room limit (out ++ a ∷ [] ++ b ∷ []) c
          (omega (arith, length-append out (a ∷ []), length-append (out ++ a ∷ []) (b ∷ []))) in
      rw (one, two, three, first, second, third) (ap some (simp append_assoc))

is_byte-lt : (a : ℕ) → is_byte a ≡ true → a < 256
is_byte-lt a h = ltb→lt a 256 h

-- A last group of one or two bytes ends in '=', which the decoder refuses; otherwise the bytes are
-- put behind what is decoded.
decode_loop-rfc4648 :
    (limit : ℕ) (out s : CText)
    → all is_byte s ≡ true
    → length out + length s / 3 * 3 ≤ limit
    → decode_loop limit out (rfc4648 s) ≡ (if length s % 3 == 0 then some (out ++ s) else none)
unfolding decode_loop rfc4648 all
decode_loop-rfc4648 limit out [] h fits = ap some (sym (append-nil out))
decode_loop-rfc4648 limit out (a ∷ []) h fits =
    let refused : decode_group limit out (base64_value (letter (a / 4 % 64)))
          (base64_value (letter (a % 4 * 16))) (base64_value b'=') (base64_value b'=')
        ≡ none =
      rw
        (
          base64_value-letter (a / 4 % 64) (omega arith),
          base64_value-letter (a % 4 * 16) (omega arith),
        )
        (unfold base64_value decode_group in refl) in
    rw (refused, decode_loop) refl
decode_loop-rfc4648 limit out (a ∷ b ∷ []) h fits =
    let b_byte = is_byte-lt b (ground arith) in
    let refused : decode_group limit out (base64_value (letter (a / 4 % 64)))
          (base64_value (letter (a % 4 * 16 + b / 16))) (base64_value (letter (b % 16 * 4)))
          (base64_value b'=')
        ≡ none =
      rw
        (
          base64_value-letter (a / 4 % 64) (omega arith),
          base64_value-letter (a % 4 * 16 + b / 16) (omega arith),
          base64_value-letter (b % 16 * 4) (omega arith),
        )
        (unfold base64_value decode_group in refl) in
    rw (refused, decode_loop) refl
decode_loop-rfc4648 limit out (a ∷ b ∷ c ∷ s) h fits =
    let a_byte = is_byte-lt a (ground arith) in
    let b_byte = is_byte-lt b (ground arith) in
    let c_byte = is_byte-lt c (ground arith) in
    let third : suc (suc (suc (length s))) % 3 ≡ length s % 3 = omega arith in
    let group : decode_group limit out (base64_value (letter (a / 4 % 64)))
          (base64_value (letter (a % 4 * 16 + b / 16)))
          (base64_value (letter (b % 16 * 4 + c / 64))) (base64_value (letter (c % 64)))
        ≡ some (out ++ a ∷ b ∷ c ∷ []) =
      rw
        (
          base64_value-letter (a / 4 % 64) (omega arith),
          base64_value-letter (a % 4 * 16 + b / 16) (omega arith),
          base64_value-letter (b % 16 * 4 + c / 64) (omega arith),
          base64_value-letter (c % 64) (omega arith),
        )
        (decode_group_lem limit out a b c a_byte b_byte c_byte (omega arith)) in
    rw (group, decode_loop, third)
      (decode_loop-rfc4648 limit (out ++ a ∷ b ∷ c ∷ []) s (ground arith)
          (omega (arith, length-append out (a ∷ b ∷ c ∷ [])))
        ∙ ap (λ t. if length s % 3 == 0 then some t else none)
            (append_assoc out (a ∷ b ∷ c ∷ []) s))

length-rfc4648 : (s : CText) → length (rfc4648 s) ≡ 4 * ((length s + 2) / 3)
unfolding rfc4648
length-rfc4648 [] = omega arith
length-rfc4648 (a ∷ []) = omega arith
length-rfc4648 (a ∷ b ∷ []) = omega arith
length-rfc4648 (a ∷ b ∷ c ∷ s) = omega (arith, length-rfc4648 s)

not_equals : ℕ → Bool
not_equals c = not (c == b'=')

letter-not_equals : (i : ℕ) → i < 64 → not_equals (letter i) ≡ true
unfolding not_equals base64_value
letter-not_equals i h = elim (Bool-cases (letter i == b'=')) [
  | inl e ↦
      let value = ap base64_value ((==_iff (letter i) b'=').0 e) in
      let known = base64_value-letter i h in absurd (cc)
  | inr e ↦ rw e refl
]

rfc4648-not_equals :
    (s : CText) → all is_byte s ≡ true → length s % 3 ≡ 0 → all not_equals (rfc4648 s) ≡ true
unfolding rfc4648 all
rfc4648-not_equals [] h m = refl
rfc4648-not_equals (a ∷ []) h m = absurd (omega arith)
rfc4648-not_equals (a ∷ b ∷ []) h m = absurd (omega arith)
rfc4648-not_equals (a ∷ b ∷ c ∷ s) h m =
    let b_byte = is_byte-lt b (ground arith) in
    let c_byte = is_byte-lt c (ground arith) in
    rw
      (
        letter-not_equals (a / 4 % 64) (omega arith),
        letter-not_equals (a % 4 * 16 + b / 16) (omega arith),
        letter-not_equals (b % 16 * 4 + c / 64) (omega arith),
        letter-not_equals (c % 64) (omega arith),
      )
      (rfc4648-not_equals s (ground arith) (omega arith))

padding_of-not_equals : (s : CText) → all not_equals s ≡ true → padding_of s ≡ 0
unfolding padding_of all not_equals
padding_of-not_equals [] h = refl
padding_of-not_equals (p ∷ []) h = refl
padding_of-not_equals (p ∷ q ∷ []) h = ground arith
padding_of-not_equals (p ∷ q ∷ r ∷ s) h = padding_of-not_equals (q ∷ r ∷ s) (ground arith)

padding_of-le : (s : CText) → padding_of s ≤ 2
unfolding padding_of
padding_of-le [] = omega arith
padding_of-le (p ∷ []) = omega arith
padding_of-le (p ∷ q ∷ []) = ground arith
padding_of-le (p ∷ q ∷ r ∷ s) = padding_of-le (q ∷ r ∷ s)

-- An input of the right length passes the first tests.
decode_input :
    (t : CText)
    → 0 < length t
    → length t % 4 ≡ 0
    → base64_decode t ≡ elim (decode_loop (length t / 4 * 3 - padding_of t) [] t) [
      | none ↦ none
      | some out ↦ some (out, length t / 4 * 3 - padding_of t)
    ]
unfolding base64_decode
decode_input t h m =
    let fine : length t == 0 || not (length t % 4 == 0) ≡ false = ground arith in rw fine refl

module _ (s : CText) (bytes : all is_byte s ≡ true) where
  -- The length that the decoder works out is enough for the whole groups.
  decoded_fits : length (rfc4648 s) / 4 * 3 - padding_of (rfc4648 s) ≡ length s ⊎ (length s % 3 ≢ 0)
  decoded_fits = elim (Bool-cases (length s % 3 == 0)) [
    | inl m ↦
        let whole : length s % 3 ≡ 0 = ground arith in
        inl (
          omega (
            arith,
            length-rfc4648 s,
            padding_of-not_equals (rfc4648 s) (rfc4648-not_equals s bytes whole),
          ))
    | inr m ↦ inr (ground arith)
  ]

  groups_fit : length s / 3 * 3 ≤ length (rfc4648 s) / 4 * 3 - padding_of (rfc4648 s)
  groups_fit = elim decoded_fits [
    | inl e ↦ omega arith
    | inr n ↦ omega (arith, length-rfc4648 s, padding_of-le (rfc4648 s))
  ]

  decode-rfc4648 :
      0 < length s
      → base64_decode (rfc4648 s) ≡ (if length s % 3 == 0 then some (s, length s) else none)
  decode-rfc4648 some_byte =
      let limit : ℕ = length (rfc4648 s) / 4 * 3 - padding_of (rfc4648 s) in
      let loop : decode_loop limit [] (rfc4648 s) ≡ (if length s % 3 == 0 then some s else none) =
        decode_loop-rfc4648 limit [] s bytes (omega (arith, groups_fit)) in
      rw
        (decode_input (rfc4648 s) (omega (arith, length-rfc4648 s))
          (omega (arith, length-rfc4648 s)))
        (ground (arith, decoded_fits))

-- Decoding the encoding of `s` gives `s` and its length if the number of bytes is a positive multiple
-- of 3, and fails for every other number of bytes.
pub decode-encode :
    (s : CText)
    → all is_byte s ≡ true
    → base64_decode (base64_encode s)
      ≡ (if length s == 0 then none else if length s % 3 == 0 then some (s, length s) else none)
decode-encode [] h = unfold base64_decode base64_encode in refl
decode-encode (c ∷ s) h =
    ap base64_decode (base64_encode-rfc4648 (c ∷ s) h)
    ∙ decode-rfc4648 (c ∷ s) h (omega arith)
    ∙ ground arith
