-- ===== src/Protocol/Stream/Framing.antt =====
-- `protocol_receive_message` cuts the stream at the terminators.
use mathlib.Core.List.{append_assoc}
use distributed_documentatio.Base.{
  ℕ, CText, List, Bool, all, [], not, ◌<◌, ◌≡◌, ◌∷◌, arith, true, length, ◌==◌, ◌++◌, suc, ◌≤◌, ◌+◌,
  ◌∙◌, zero, ◌-◌, ap, refl, length-append, some,
}
use distributed_documentatio.Protocol.{
  max_message_size, protocol_build_message, protocol_parse_message, max_fields,
}
use distributed_documentatio.Protocol.Fields.{is_plain, parse-build}
use distributed_documentatio.Protocol.Stream.{
  Arrival, byte, interrupted, closed, failed, message, receive_loop, protocol_receive_message,
  at_close,
}

-- The arrivals bring the bytes of the text, with interruptions anywhere, and then are `rest`.
pub data Brings : CText → List Arrival → List Arrival → Type 0 where
  done : {rest : List Arrival} → Brings [] rest rest
  brought :
      (c : ℕ) {s : CText} {a rest : List Arrival}
      → Brings s a rest
      → Brings (c ∷ s) (byte c ∷ a) rest
  again : {s : CText} {a rest : List Arrival} → Brings s a rest → Brings s (interrupted ∷ a) rest

unfoldable pub no_newline : CText → Bool
no_newline = all (λ c. not (c == 10))

receive_loop-newline :
    (room : ℕ) (buffer : CText) (rest : List Arrival)
    → 0 < room
    → receive_loop room buffer (byte 10 ∷ rest) ≡ (message (buffer ++ 10 ∷ []), rest)
unfolding receive_loop
receive_loop-newline zero buffer rest h = absurd (omega arith)
receive_loop-newline (suc room) buffer rest h = refl

receive_loop-byte :
    (room : ℕ) (c : ℕ) (buffer : CText) (rest : List Arrival)
    → not (c == 10) ≡ true
    → receive_loop (suc room) buffer (byte c ∷ rest) ≡ receive_loop room (buffer ++ c ∷ []) rest
unfolding receive_loop
receive_loop-byte room c buffer rest h = ground arith

receive_loop-interrupted :
    (room : ℕ) (buffer : CText) (rest : List Arrival)
    → 0 < room
    → receive_loop room buffer (interrupted ∷ rest) ≡ receive_loop room buffer rest
unfolding receive_loop
receive_loop-interrupted zero buffer rest h = absurd (omega arith)
receive_loop-interrupted (suc room) buffer rest h = refl

receive_loop-Brings :
    {s : CText} {a r : List Arrival}
    → Brings s a r
    → (room : ℕ) (buffer : CText) (rest : List Arrival) → r ≡ byte 10 ∷ rest
    → no_newline s ≡ true
    → length s < room
    → receive_loop room buffer a ≡ (message (buffer ++ (s ++ 10 ∷ [])), rest)
unfolding no_newline all
receive_loop-Brings done room buffer rest e plain fits =
    rw e (receive_loop-newline room buffer rest fits)
receive_loop-Brings (brought c b) zero buffer rest e plain fits = absurd (omega arith)
receive_loop-Brings (brought c {s} b) (suc room) buffer rest e plain fits =
    receive_loop-byte room c buffer _ (ground arith)
    ∙ receive_loop-Brings b room (buffer ++ c ∷ []) rest e (ground arith) (omega arith)
    ∙ ap (λ t. (message t, rest)) (append_assoc buffer (c ∷ []) (s ++ 10 ∷ []))
receive_loop-Brings (again b) room buffer rest e plain fits =
    receive_loop-interrupted room buffer _ (omega arith)
    ∙ receive_loop-Brings b room buffer rest e plain fits

-- A text without '\n' that is shorter than the buffer by two bytes, and the terminator after it, come
-- as one message, however often the calls are interrupted; no byte behind the terminator is read.
pub receive_frames :
    (s : CText) (a rest : List Arrival)
    → Brings s a (byte 10 ∷ rest)
    → no_newline s ≡ true
    → length s + 1 < max_message_size
    → protocol_receive_message a ≡ (message (s ++ 10 ∷ []), rest)
unfolding protocol_receive_message
receive_frames s a rest b plain fits =
    receive_loop-Brings b (max_message_size - 1) [] rest refl plain (omega arith)

-- The buffer never overflows: a message that comes has at most `max_message_size - 1` bytes.
receive_loop_bound :
    (room : ℕ) (buffer : CText) (a : List Arrival) (m : CText)
    → (receive_loop room buffer a).0 ≡ message m
    → length m ≤ length buffer + room
unfolding receive_loop at_close
receive_loop_bound zero buffer a m e = cc
receive_loop_bound (suc room) buffer [] m e = cc
receive_loop_bound (suc room) buffer (interrupted ∷ rest) m e =
    receive_loop_bound (suc room) buffer rest m e
receive_loop_bound (suc room) buffer (failed ∷ rest) m e = cc
receive_loop_bound (suc room) [] (closed ∷ rest) m e = cc
receive_loop_bound (suc room) (c ∷ s) (closed ∷ rest) m e = ground arith
receive_loop_bound (suc room) buffer (byte c ∷ rest) m e =
    ground (arith, length-append buffer (c ∷ []), receive_loop_bound room (buffer ++ c ∷ []) rest m)

-- Whatever arrives, a message that is received is shorter than the buffer.
pub receive_bound :
    (a : List Arrival) (m : CText)
    → (protocol_receive_message a).0 ≡ message m
    → length m < max_message_size
unfolding protocol_receive_message
receive_bound a m e = omega (arith, receive_loop_bound (max_message_size - 1) [] a m e)

-- What one side builds from fields the other side parses into the same fields, if no field holds a '|'
-- or a '\n', there are at most `max_fields` of them, and the message fits the buffer.
pub wire_roundtrip :
    (f : CText) (fs : List CText) (s : CText) (a rest : List Arrival)
    → all is_plain (f ∷ fs) ≡ true
    → length (f ∷ fs) ≤ max_fields
    → protocol_build_message (f ∷ fs) ≡ some (s ++ 10 ∷ [])
    → no_newline s ≡ true
    → length s + 1 < max_message_size
    → Brings s a (byte 10 ∷ rest)
    → (m : CText) × (protocol_receive_message a ≡ (message m, rest))
      × (protocol_parse_message m ≡ f ∷ fs)
wire_roundtrip f fs s a rest h le e plain short b = (
  s ++ 10 ∷ [],
  receive_frames s a rest b plain short,
  parse-build f fs (s ++ 10 ∷ []) h le e (omega (arith, length-append s (10 ∷ []))),
)
