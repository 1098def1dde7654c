-- ===== src/Examples/Common.antt =====
-- common/: texts, messages, Base64 and flat names.
use distributed_documentatio.Base.{codes, CText, ◌≡◌, List, ◌∷◌, [], none, refl, all, arith}
use distributed_documentatio.Protocol.{protocol_build_message, protocol_parse_message}
use distributed_documentatio.Protocol.Fields.{is_plain}
use distributed_documentatio.Protocol.Stream.{
  Arrival, byte, interrupted, message, protocol_receive_message,
}
use distributed_documentatio.Protocol.Stream.Framing.{
  Brings, brought, again, done, wire_roundtrip, no_newline,
}
use distributed_documentatio.Base64.{base64_encode, base64_decode}
use distributed_documentatio.Base64.Encode.{base64_encode-rfc4648, rfc4648}
use distributed_documentatio.Base64.Decode.{decode-encode}

abbrev padded : CText
padded = codes "  two words "

-- "OK", with an interruption, and one byte more.
abbrev arrivals : List Arrival
arrivals = byte b'O' ∷ interrupted ∷ byte b'K' ∷ byte 10 ∷ byte b'x' ∷ []

arrivals-Brings : Brings (codes "OK") arrivals (byte 10 ∷ byte b'x' ∷ [])
arrivals-Brings = brought b'O' (again (brought b'K' done))

wire_roundtrip_example :
    (m : CText) × (protocol_receive_message arrivals ≡ (message m, byte b'x' ∷ []))
    × (protocol_parse_message m ≡ codes "OK" ∷ [])
unfolding all is_plain protocol_build_message no_newline
wire_roundtrip_example =
    wire_roundtrip (codes "OK") [] (codes "OK") arrivals (byte b'x' ∷ []) refl (omega arith) refl
      refl (omega arith) arrivals-Brings

base64_encode-rfc4648_example : base64_encode (codes "any") ≡ rfc4648 (codes "any")
unfolding all
base64_encode-rfc4648_example = base64_encode-rfc4648 (codes "any") refl

decode-encode_example : base64_decode (base64_encode (codes "an")) ≡ none
unfolding all
decode-encode_example = decode-encode (codes "an") refl
