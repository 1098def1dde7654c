-- ===== src/NameServer/Exchange/Swapped.antt =====
-- What goes wrong when calls overlap, or when the storage server sends a message on its own while one waits.
use distributed_documentatio.Base.{CText, ◌≡◌, [], some, none, true, false, refl, inl, inr}
use distributed_documentatio.NameServer.Exchange.{
  Message, got, dispatch, storage_server_signal_failure, begin_turn, send_command, take_response,
}
use distributed_documentatio.NameServer.Exchange.System.{
  take, System, Run, here, then_step, initial, call, send, answer, notice, returned, waiting,
  called, is_busy,
}

-- Two calls that overlap can go wrong, whatever their commands and answers are: there is a run in which the thread
-- that sends the first command returns with the answer to the second one. The second thread is then left waiting on
-- a line on which no command is unanswered, and neither a message of the storage server nor the end of
-- its connection makes a response ready for it.
pub answers_swapped :
    (a b answer_a answer_b : CText)
    → (s : System) × Run true false initial s
      × (s.pc 0 ≡ returned a (got (record { origin = some b; text = answer_b })))
      × (s.pc 1 ≡ waiting b)
      × (s.line.pending ≡ [])
      × ((m : Message) → (dispatch m s.line).response_ready ≡ false)
      × ((storage_server_signal_failure s.line).response_ready ≡ false)
unfolding called begin_turn send_command dispatch take_response storage_server_signal_failure
    is_busy
answers_swapped a b answer_a answer_b =
    let first : Run true false initial _ = then_step here (call initial 0 a refl (inl refl)) in
    let sent = then_step first (send _ 0 a refl refl refl) in
    let second = then_step sent (call _ 1 b refl (inl refl)) in
    let answered_a = then_step second (answer _ a answer_a [] refl) in
    let sent_b = then_step answered_a (send _ 1 b refl refl refl) in
    let answered_b = then_step sent_b (answer _ b answer_b [] refl) in
    (_, then_step answered_b (take _ 0 a refl refl), refl, refl, refl, λ m. refl, refl)

-- A message that the storage server sends on its own while a thread waits, as it does after a write, is returned
-- to this thread as the response to its command, also where calls do not overlap.
pub notice_returned :
    (a note : CText)
    → (s : System) × Run false true initial s
      × (s.pc 0 ≡ returned a (got (record { origin = none; text = note })))
unfolding called begin_turn send_command dispatch take_response is_busy
notice_returned a note =
    let first : Run false true initial _ =
      then_step here (call initial 0 a refl (inr (λ j. refl))) in
    let sent = then_step first (send _ 0 a refl refl refl) in
    let noted = then_step sent (notice _ note (inl refl)) in
    (_, then_step noted (take _ 0 a refl refl), refl)
