-- ===== src/Base64/Encode.antt =====
-- `base64_encode` is the encoding of RFC 4648, section 4.
use distributed_documentatio.Base.{
  ℕ, CText, ◌∷◌, Bool, ◌≡◌, suc, all, ◌*◌, ltb, true, ◌/◌, ◌+◌, ◌%◌, [], arith, ltb→lt, Bool-cases,
  inl, ◌^◌, ◌-◌, inr, refl, length, ◌∙◌, ap,
}
use distributed_documentatio.Base64.{letter, quad, encode_groups, pad_end, base64_encode}

-- The RFC's encoding, group by group: a last group of one or two bytes ends in "==" or "=".
unfoldable pub rfc4648 : CText → CText
rfc4648 [] = []
rfc4648 (a ∷ []) = letter (a / 4 % 64) ∷ letter (a % 4 * 16) ∷ b'=' ∷ b'=' ∷ []
rfc4648 (a ∷ b ∷ []) =
    letter (a / 4 % 64) ∷ letter (a % 4 * 16 + b / 16) ∷ letter (b % 16 * 4) ∷ b'=' ∷ []
rfc4648 (a ∷ b ∷ c ∷ s) =
    letter (a / 4 % 64)
    ∷ letter (a % 4 * 16 + b / 16)
    ∷ letter (b % 16 * 4 + c / 64)
    ∷ letter (c % 64)
    ∷ rfc4648 s

abbrev pub is_byte : ℕ → Bool
is_byte c = ltb c 256

-- The bytes of a group, spread over its four letters.
pub quad_lem :
    (a b c : ℕ)
    → is_byte a ≡ true
    → is_byte b ≡ true
    → is_byte c ≡ true
    → quad a b c
      ≡ letter (a / 4 % 64)
        ∷ letter (a % 4 * 16 + b / 16)
        ∷ letter (b % 16 * 4 + c / 64)
        ∷ letter (c % 64)
        ∷ []
unfolding quad
quad_lem a b c p q r =
    let p' = ltb→lt a 256 p in
    let q' = ltb→lt b 256 q in
    let r' = ltb→lt c 256 r in
    let one : (a * 2 ^ 16 + b * 2 ^ 8 + c) / 2 ^ 18 % 64 ≡ a / 4 % 64 = omega arith in
    let two : (a * 2 ^ 16 + b * 2 ^ 8 + c) / 2 ^ 12 % 64 ≡ a % 4 * 16 + b / 16 = omega arith in
    let three : (a * 2 ^ 16 + b * 2 ^ 8 + c) / 2 ^ 6 % 64 ≡ b % 16 * 4 + c / 64 = omega arith in
    let four : (a * 2 ^ 16 + b * 2 ^ 8 + c) % 64 ≡ c % 64 = omega arith in
    rw (one, two, three, four) refl

pad_end-quad :
    (n p q r s : ℕ) (t : CText)
    → pad_end (suc (suc (suc n))) (p ∷ q ∷ r ∷ s ∷ t) ≡ p ∷ q ∷ r ∷ s ∷ pad_end n t
unfolding pad_end
pad_end-quad n p q r s t =
    let same : suc (suc (suc n)) % 3 ≡ n % 3 = omega arith in
    elim (Bool-cases (ltb 0 (n % 3))) [
      | inl some_left ↦
          let left = ltb→lt 0 (n % 3) some_left in
          let one : 4 * ((suc (suc (suc n)) + 2) / 3) - 1
              ≡ suc (suc (suc (suc (4 * ((n + 2) / 3) - 1)))) =
            omega arith in
          let two : 4 * ((suc (suc (suc n)) + 2) / 3) - 2
              ≡ suc (suc (suc (suc (4 * ((n + 2) / 3) - 2)))) =
            omega arith in
          rw (same, one, two) (ground arith)
      | inr none_left ↦ rw (same, none_left) refl
    ]

pad_end-encode_groups :
    (s : CText) → all is_byte s ≡ true → pad_end (length s) (encode_groups s) ≡ rfc4648 s
unfolding encode_groups rfc4648 all
pad_end-encode_groups [] h = unfold pad_end in refl
pad_end-encode_groups (a ∷ []) h =
    rw (quad_lem a 0 0 (ground arith) refl refl) (unfold pad_end in ground arith)
pad_end-encode_groups (a ∷ b ∷ []) h =
    rw (quad_lem a b 0 (ground arith) (ground arith) refl) (unfold pad_end in ground arith)
pad_end-encode_groups (a ∷ b ∷ c ∷ s) h =
    rw (quad_lem a b c (ground arith) (ground arith) (ground arith)) (
      pad_end-quad (length s) _ _ _ _ (encode_groups s)
      ∙ ap
          (λ t.
            letter (a / 4 % 64)
            ∷ letter (a % 4 * 16 + b / 16)
            ∷ letter (b % 16 * 4 + c / 64)
            ∷ letter (c % 64)
            ∷ t)
          (pad_end-encode_groups s (ground arith)))

-- On bytes the encoder computes the encoding of RFC 4648.
pub base64_encode-rfc4648 : (s : CText) → all is_byte s ≡ true → base64_encode s ≡ rfc4648 s
unfolding base64_encode
base64_encode-rfc4648 s h = pad_end-encode_groups s h
