-- ===== src/Base64.antt =====
-- common/utils.c: `base64_encode` and `base64_decode`. Bytes are numbers below 256, so the shifted parts
-- that the code joins by `|` do not overlap and are added here. An allocation always succeeds.
pub mod Table
pub mod Encode
pub mod Decode
use distributed_documentatio.Base.{
  ℕ, CText, codes, ◌∷◌, if◌then◌else◌, ◌*◌, Bool, Option, suc, leb, ◌^◌, ◌++◌, length, ltb, true,
  ◌||◌, ◌==◌, none, ◌&&◌, ◌+◌, [], false, some, not, ◌-◌, ◌/◌, ◌%◌, zero, set,
}

-- BASE64_TABLE
unfoldable pub alphabet : CText
alphabet = codes "ABCDEFGHIJKLMNOPQRSTUVWXYZabcdefghijklmnopqrstuvwxyz0123456789+/"

unfoldable pub letter_at : ℕ → CText → ℕ
letter_at i [] = 0
letter_at zero (c ∷ s) = c
letter_at (suc i) (c ∷ s) = letter_at i s

-- BASE64_TABLE[i]
unfoldable pub letter : ℕ → ℕ
unfolding letter_at alphabet
letter i = letter_at i alphabet

-- The result of `base64_value`: 0 to 63, -2 and -1.
pub data Value : Type 0 where
  sextet : ℕ → Value
  padding invalid : Value

unfoldable pub base64_value : ℕ → Value
base64_value c =
    if leb b'A' c && leb c b'Z'
    then sextet (c - b'A')
    else if leb b'a' c && leb c b'z'
    then sextet (c - b'a' + 26)
    else if leb b'0' c && leb c b'9'
    then sextet (c - b'0' + 52)
    else if c == b'+'
    then sextet 62
    else if c == b'/'
    then sextet 63
    else if c == b'='
    then padding
    else invalid

-- The four letters of a group of three bytes.
unfoldable pub quad : ℕ → ℕ → ℕ → CText
unfolding letter
quad a b c =
    let triple = a * 2 ^ 16 + b * 2 ^ 8 + c in
    letter (triple / 2 ^ 18 % 64)
    ∷ letter (triple / 2 ^ 12 % 64)
    ∷ letter (triple / 2 ^ 6 % 64)
    ∷ letter (triple % 64)
    ∷ []

-- The loop; the last group is filled up with zeros.
unfoldable pub encode_groups : CText → CText
encode_groups [] = []
encode_groups (a ∷ []) = quad a 0 0
encode_groups (a ∷ b ∷ []) = quad a b 0
encode_groups (a ∷ b ∷ c ∷ s) = quad a b c ++ encode_groups s

-- The end of `base64_encode`: the last one or two letters are overwritten.
unfoldable pub pad_end : ℕ → CText → CText
pad_end input_length encoded =
    let output_length = 4 * ((input_length + 2) / 3) in
    if ltb 0 (input_length % 3)
    then (let once = set encoded (output_length - 1) b'=' in
        if input_length % 3 == 1 then set once (output_length - 2) b'=' else once)
    else encoded

unfoldable pub base64_encode : CText → CText
unfolding encode_groups pad_end quad
base64_encode input = pad_end (length input) (encode_groups input)

-- `decoded[out_index++] = byte`, if there is room.
unfoldable pub put_byte : ℕ → CText → ℕ → CText
put_byte limit out x = if ltb (length out) limit then out ++ x ∷ [] else out

-- `(triple >> k) & 0xFF` for a third and a fourth value, which are written only if they are sextets.
unfoldable pub put_group : ℕ → CText → ℕ → ℕ → Value → Value → CText
unfolding put_byte
put_group limit out a b (sextet c) (sextet d) =
    let triple = a * 2 ^ 18 + b * 2 ^ 12 + c * 2 ^ 6 + d in
    put_byte limit
      (put_byte limit (put_byte limit out (triple / 2 ^ 16 % 256)) (triple / 2 ^ 8 % 256))
      (triple % 256)
put_group limit out a b (sextet c) _ =
    let triple = a * 2 ^ 18 + b * 2 ^ 12 + c * 2 ^ 6 in
    put_byte limit (put_byte limit out (triple / 2 ^ 16 % 256)) (triple / 2 ^ 8 % 256)
put_group limit out a b _ (sextet d) =
    let triple = a * 2 ^ 18 + b * 2 ^ 12 + d in
    put_byte limit (put_byte limit out (triple / 2 ^ 16 % 256)) (triple % 256)
put_group limit out a b _ _ = put_byte limit out ((a * 2 ^ 18 + b * 2 ^ 12) / 2 ^ 16 % 256)

-- The test `sextet_c < -1`, true of -2 alone.
unfoldable pub is_padding : Value → Bool
is_padding padding = true
is_padding _ = false

-- One round; `none` is the return value -1.
unfoldable pub decode_group : ℕ → CText → Value → Value → Value → Value → Option CText
unfolding put_group is_padding
decode_group limit out (sextet a) (sextet b) c d =
    if is_padding c || is_padding d then none else some (put_group limit out a b c d)
decode_group limit out _ _ c d = none

-- The loop, over an input whose length is a multiple of 4.
unfoldable pub decode_loop : ℕ → CText → CText → Option CText
decode_loop limit out (p ∷ q ∷ r ∷ s ∷ rest) =
    elim (decode_group limit out (base64_value p) (base64_value q) (base64_value r)
      (base64_value s)) [ none ↦ none | some more ↦ decode_loop limit more rest ]
decode_loop limit out _ = some out

-- How many of the last two bytes are '='.
unfoldable pub padding_of : CText → ℕ
padding_of (p ∷ q ∷ []) = (if q == b'=' then 1 else 0) + (if p == b'=' then 1 else 0)
padding_of (p ∷ q ∷ r ∷ s) = padding_of (q ∷ r ∷ s)
padding_of _ = 0

-- The bytes that are written, and the length that is reported; `none` is the return value -1.
unfoldable pub base64_decode : CText → Option (CText × ℕ)
unfolding decode_loop decode_group base64_value padding_of
base64_decode input =
    if length input == 0 || not (length input % 4 == 0)
    then none
    else (let decoded_length = length input / 4 * 3 - padding_of input in
        elim (decode_loop decoded_length [] input) [
          | none ↦ none
          | some out ↦ some (out, decoded_length)
        ])
