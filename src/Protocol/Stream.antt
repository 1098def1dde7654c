-- ===== src/Protocol/Stream.antt =====
-- common/protocol.c: `protocol_receive_message` and `protocol_send_message`. What the socket does is a
-- list of outcomes, one for each call of `recv` or `send`; where the list ends the call is blocked.
pub mod Framing
pub mod Sending
use distributed_documentatio.Base.{
  ℕ, CText, ◌∷◌, List, suc, ◌+◌, [], ◌-◌, ◌==◌, ◌++◌, take, true, drop, zero, false,
}
use distributed_documentatio.Protocol.{max_message_size}

-- The outcome of `recv` of one byte.
pub data Arrival : Type 0 where
  byte : ℕ → Arrival
  interrupted closed failed : Arrival

pub data Received : Type 0 where
  message : CText → Received
  null blocked : Received

-- The bytes that are there when the peer closes.
unfoldable pub at_close : CText → Received
at_close [] = null
at_close (c ∷ s) = message (c ∷ s)

-- The loop with `buffer` received and `room` bytes left, and what of the arrivals is not read.
unfoldable pub receive_loop : ℕ → CText → List Arrival → Received × List Arrival
unfolding at_close
receive_loop zero buffer arrivals = (null, arrivals)
receive_loop (suc room) buffer [] = (blocked, [])
receive_loop (suc room) buffer (interrupted ∷ rest) = receive_loop (suc room) buffer rest
receive_loop (suc room) buffer (failed ∷ rest) = (null, rest)
receive_loop (suc room) buffer (closed ∷ rest) = (at_close buffer, rest)
receive_loop (suc room) buffer (byte c ∷ rest) = elim (c == 10) [
  | true ↦ (message (buffer ++ c ∷ []), rest)
  | false ↦ receive_loop room (buffer ++ c ∷ []) rest
]

unfoldable pub protocol_receive_message : List Arrival → Received × List Arrival
unfolding receive_loop
protocol_receive_message arrivals = receive_loop (max_message_size - 1) [] arrivals

-- The outcome of `send`: how many bytes it took, or an error.
pub data Departure : Type 0 where
  took : ℕ → Departure
  interrupted failed : Departure

pub data Sent : Type 0 where
  total : ℕ → Sent
  failure blocked : Sent

-- The loop with `total_sent` bytes of the message on the wire and `left` still to go; and the wire.
unfoldable pub send_loop : ℕ → CText → CText → List Departure → Sent × CText
send_loop total_sent wire [] departures = (total total_sent, wire)
send_loop total_sent wire (c ∷ left) [] = (Sent.blocked, wire)
send_loop total_sent wire (c ∷ left) (Departure.interrupted ∷ rest) =
    send_loop total_sent wire (c ∷ left) rest
send_loop total_sent wire (c ∷ left) (Departure.failed ∷ rest) = (failure, wire)
send_loop total_sent wire (c ∷ left) (took n ∷ rest) =
    send_loop (total_sent + n) (wire ++ take n (c ∷ left)) (drop n (c ∷ left)) rest

unfoldable pub protocol_send_message : CText → List Departure → Sent × CText
unfolding send_loop
protocol_send_message text departures = send_loop 0 [] text departures
