-- ===== src/Protocol/Stream/Sending.antt =====
-- `protocol_send_message` puts the whole text on the wire, in order, when it succeeds.
use distributed_documentatio.Base.{
  ℕ, CText, List, [], ◌≤◌, length, drop, ◌∷◌, arith, ◌++◌, ◌≡◌, ◌+◌, sym, refl, ◌∙◌, take, ap,
  take-append-drop, length-drop,
}
use distributed_documentatio.Protocol.Stream.{
  Departure, took, Sent, send_loop, protocol_send_message, total, failure,
}
use mathlib.Core.List.{append-nil, append_assoc}

-- `send` takes at most what it is given.
abbrev pub TakesAtMost : CText → List Departure → Type 0
TakesAtMost s [] = Unit {0}
TakesAtMost s (took n ∷ d) = (n ≤ length s) × TakesAtMost (drop n s) d
TakesAtMost s (Departure.interrupted ∷ d) = TakesAtMost s d
TakesAtMost s (Departure.failed ∷ d) = TakesAtMost s d

-- The wire holds a first part of the text, all of it if the loop ends with a total, which is then the
-- length of the text.
abbrev pub Delivers : CText → ℕ → Sent × CText → Type 0
Delivers text size (total n, wire) = (wire ≡ text) × (n ≡ size)
Delivers text size (failure, wire) = (rest : CText) × (wire ++ rest ≡ text)
Delivers text size (Sent.blocked, wire) = (rest : CText) × (wire ++ rest ≡ text)

send_loop-Delivers :
    (text : CText) (size k : ℕ) (wire left : CText) (d : List Departure)
    → wire ++ left ≡ text
    → k + length left ≡ size
    → TakesAtMost left d
    → Delivers text size (send_loop k wire left d)
unfolding send_loop
send_loop-Delivers text size k wire [] d e l t = (sym (append-nil wire) ∙ e, omega arith)
send_loop-Delivers text size k wire (c ∷ left) [] e l t = (c ∷ left, e)
send_loop-Delivers text size k wire (c ∷ left) (Departure.interrupted ∷ d) e l t =
    send_loop-Delivers text size k wire (c ∷ left) d e l t
send_loop-Delivers text size k wire (c ∷ left) (Departure.failed ∷ d) e l t = (c ∷ left, e)
send_loop-Delivers text size k wire (c ∷ left) (took n ∷ d) e l t =
    send_loop-Delivers text size (k + n) (wire ++ take n (c ∷ left)) (drop n (c ∷ left)) d
      (append_assoc wire (take n (c ∷ left)) (drop n (c ∷ left))
        ∙ ap (◌++◌ wire) (take-append-drop n (c ∷ left))
        ∙ e)
      (omega (arith, length-drop n (c ∷ left))) t.1

-- Whatever the partial sends and interruptions, the wire holds a first part of the message, and all of
-- it, with its length returned, when the call succeeds.
pub send_whole :
    (text : CText) (d : List Departure)
    → TakesAtMost text d
    → Delivers text (length text) (protocol_send_message text d)
unfolding protocol_send_message
send_whole text d t = send_loop-Delivers text (length text) 0 [] text d refl (omega arith) t
