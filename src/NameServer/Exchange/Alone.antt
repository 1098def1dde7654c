-- ===== src/NameServer/Exchange/Alone.antt =====
-- Calls that do not overlap, to a storage server that sends nothing on its own while a response is awaited.
use distributed_documentatio.Base.{
  ℕ, CText, List, ◌≡◌, ◌⊎◌, inl, inr, ◌∷◌, [], some, true, false, arith, ==_iff, sym, ◌∙◌, ap, refl,
  none,
}
use distributed_documentatio.NameServer.Exchange.{
  Message, got, dispatch, storage_server_signal_failure, take_response, Line, status, begin_turn,
  send_command, Outcome, is_awaited,
}
use distributed_documentatio.NameServer.Exchange.System.{
  take, Pc, queued, waiting, returned, is_busy, waits, System, update, called, Step, call,
  cannot_send, send, answer, notice, disconnect, leave, idle, Run, initial, then_step, here,
}

-- Nobody waits for a response; one thread does, and its command is not answered yet; its response is here.
data Phase (s : System) : Type 0 where
  free :
      ((j : ℕ) → waits (s.pc j) ≡ false)
      → s.line.awaiting_response ≡ false
      → s.line.pending ≡ []
      → Phase s
  asked :
      (i : ℕ) (c : CText)
      → s.pc i ≡ waiting c
      → s.line.awaiting_response ≡ true
      → s.line.response_ready ≡ false
      → s.line.pending ≡ c ∷ []
      → Phase s
  arrived :
      (i : ℕ) (c : CText)
      → s.pc i ≡ waiting c
      → s.line.awaiting_response ≡ false
      → s.line.response_ready ≡ true
      → s.line.pending ≡ []
      → ((m : Message)
          → s.line.response_failed ≡ false
          → s.line.response_raw ≡ some m
          → m.origin ≡ some c)
      → Phase s

record IsOrderly (s : System) : Type 0 where
  alone : (i j : ℕ) → is_busy (s.pc i) ≡ true → is_busy (s.pc j) ≡ true → i ≡ j
  answered : (i : ℕ) (c : CText) (m : Message) → s.pc i ≡ returned c (got m) → m.origin ≡ some c
  phase : Phase s

-- One thread moves, and is busy afterwards only if it, or nobody, was before.
alone-update :
    (pc : ℕ → Pc) (i : ℕ) (p : Pc)
    → ((is_busy (pc i) ≡ true) ⊎ ((j : ℕ) → is_busy (pc j) ≡ false) ⊎ (is_busy p ≡ false))
    → ((j k : ℕ) → is_busy (pc j) ≡ true → is_busy (pc k) ≡ true → j ≡ k)
    → (j k : ℕ) → is_busy (update pc i p j) ≡ true
    → is_busy (update pc i p k) ≡ true
    → j ≡ k
alone-update pc i p (inl busy) h j k a b = ground (arith, h i j, h i k, h j k)
alone-update pc i p (inr (inl quiet)) h j k a b = ground (arith, quiet j, quiet k)
alone-update pc i p (inr (inr out)) h j k a b = ground (arith, h j k)

answered-update :
    (pc : ℕ → Pc) (i : ℕ) (p : Pc)
    → ((c : CText) (m : Message) → p ≡ returned c (got m) → m.origin ≡ some c)
    → ((j : ℕ) (c : CText) (m : Message) → pc j ≡ returned c (got m) → m.origin ≡ some c)
    → (j : ℕ) (c : CText) (m : Message) → update pc i p j ≡ returned c (got m)
    → m.origin ≡ some c
answered-update pc i p new h j c m e = ground (arith, new c m, h j c m)

-- A thread that does not wait moves, and does not wait afterwards.
phase-update :
    (s : System) (i : ℕ) (p : Pc)
    → waits (s.pc i) ≡ false
    → waits p ≡ false
    → Phase s
    → Phase (record s { pc = update s.pc i p })
unfolding waits
phase-update s i p before after (free none_waits off empty) =
    free (λ j. ground (arith, none_waits j)) off empty
phase-update s i p before after (asked k c at on unready one) =
    asked k c (ground (arith, ==_iff i k)) on unready one
phase-update s i p before after (arrived k c at off ready empty right) =
    arrived k c (ground (arith, ==_iff i k)) off ready empty right

-- A thread that waits is the only one that is busy.
only_waiter :
    (s : System) (k j : ℕ) (c : CText)
    → IsOrderly s
    → s.pc k ≡ waiting c
    → is_busy (s.pc j) ≡ true
    → j ≡ k
unfolding is_busy
only_waiter s k j c o at busy = o.alone j k busy (ground arith)

-- While a thread queues, nobody waits.
queued_free :
    (s : System) (i : ℕ) (c : CText)
    → IsOrderly s
    → s.pc i ≡ queued c
    → ((j : ℕ) → waits (s.pc j) ≡ false)
      × (s.line.awaiting_response ≡ false)
      × (s.line.pending ≡ [])
unfolding is_busy waits
queued_free s i c o at = elim o.phase [
  | free none_waits off empty ↦ (none_waits, off, empty)
  | asked k d wait _ _ _ ↦
      let same : i ≡ k = only_waiter s k i d o wait (ground arith) in
      let clash : queued c ≡ waiting d = sym at ∙ ap s.pc same ∙ wait in absurd cc
  | arrived k d wait _ _ _ _ ↦
      let same : i ≡ k = only_waiter s k i d o wait (ground arith) in
      let clash : queued c ≡ waiting d = sym at ∙ ap s.pc same ∙ wait in absurd cc
]

disconnected_phase :
    (s : System) → Phase s → Phase (record s { line = storage_server_signal_failure s.line })
unfolding storage_server_signal_failure
disconnected_phase s (free none_waits off empty) = free none_waits (ground arith) (ground arith)
disconnected_phase s (asked k c at on unready one) =
    arrived k c at (ground arith) (ground arith) (ground arith) (λ m fine raw. ground arith)
disconnected_phase s (arrived k c at off ready empty right) =
    arrived k c at (ground arith) (ground arith) (ground arith)
      (λ m fine raw. ground (arith, right m))

answer_phase :
    (s : System) (command text : CText) (rest : List CText)
    → s.line.pending ≡ command ∷ rest
    → Phase s
    → Phase (record s {
      line =
          dispatch
            (record { origin = some command; text = text })
            (record s.line { pending = rest });
    })
unfolding dispatch
answer_phase s command text rest e (free none_waits off empty) = absurd (ground arith)
answer_phase s command text rest e (asked k c at on unready one) =
    arrived k c at (ground arith) (ground arith) (ground arith) (λ m fine raw. ground arith)
answer_phase s command text rest e (arrived k c at off ready empty right) = absurd (ground arith)

called_cases :
    (line : Line) (c : CText) → (called line c ≡ queued c) ⊎ (called line c ≡ returned c (status 2))
unfolding called
called_cases line c = ground arith

-- The response that is here is the answer to the thread's command, and nobody waits once it is taken.
take_phase :
    (s : System) (i : ℕ) (c : CText)
    → IsOrderly s
    → s.pc i ≡ waiting c
    → s.line.response_ready ≡ true
    → Phase (record s {
      line = (take_response s.line).1;
      pc = update s.pc i (returned c (take_response s.line).0);
    })
      × ((m : Message) → (take_response s.line).0 ≡ got m → m.origin ≡ some c)
unfolding take_response waits is_busy
take_phase s i c o at ready = elim o.phase [
  | free none_waits _ _ ↦ absurd (ground (arith, none_waits i))
  | asked k d wait _ unready _ ↦ absurd (ground arith)
  | arrived k d wait off _ empty right ↦
      let same : i ≡ k = only_waiter s k i d o wait (ground arith) in
      let one : waiting c ≡ waiting d = sym at ∙ ap s.pc same ∙ wait in
      let command : c ≡ d = cc in
      (
        free (λ j. ground (arith, ==_iff i j, o.alone i j)) refl empty,
        λ m e. rw command (ground (arith, right m)),
      )
]

-- A message that nobody awaits leaves the line as it is.
unawaited :
    (line : Line) (m : Message)
    → ((false ≡ true) ⊎ (line.awaiting_response ≡ false))
    → dispatch m line ≡ line
unfolding dispatch is_awaited
unawaited line m (inl no_notices) = absurd cc
unawaited line m (inr off) = ground arith

call_turn :
    (s : System)
    → ((false ≡ true) ⊎ ((j : ℕ) → is_busy (s.pc j) ≡ false))
    → (j : ℕ) → is_busy (s.pc j) ≡ false
call_turn s (inl no_sharing) j = absurd cc
call_turn s (inr quiet) j = quiet j

Step-IsOrderly : {s t : System} → Step false false s t → IsOrderly s → IsOrderly t
unfolding waits is_busy begin_turn send_command
Step-IsOrderly (call s i c at turn) o = record {
  alone = alone-update s.pc i _ (inr (inl (λ j. call_turn s turn j))) o.alone;
  answered = answered-update s.pc i _ (λ d m e. ground (arith, called_cases s.line c)) o.answered;
  phase = phase-update s i _ (ground arith) (ground (arith, called_cases s.line c)) o.phase;
}
Step-IsOrderly (cannot_send s i c n at off why) o =
    let (none_waits, _, empty) = queued_free s i c o at in
    record {
      alone = alone-update s.pc i _ (inr (inr refl)) o.alone;
      answered = answered-update s.pc i _ (λ d m e. absurd cc) o.answered;
      phase = free (λ j. ground (arith, none_waits j)) off empty;
    }
Step-IsOrderly (send s i c at off alive) o =
    let (none_waits, _, empty) = queued_free s i c o at in
    record {
      alone = alone-update s.pc i _ (inl (ground arith)) o.alone;
      answered = answered-update s.pc i _ (λ d m e. absurd cc) o.answered;
      phase = asked i c (ground arith) refl refl (ground arith);
    }
Step-IsOrderly (answer s c text rest e) o = record {
  alone = o.alone;
  answered = o.answered;
  phase = answer_phase s c text rest e o.phase;
}
Step-IsOrderly (notice s text quiet) o = record {
  alone = o.alone;
  answered = o.answered;
  phase = rw (unawaited s.line (record { origin = none; text = text }) quiet) o.phase;
}
Step-IsOrderly (disconnect s) o = record {
  alone = o.alone;
  answered = o.answered;
  phase = disconnected_phase s o.phase;
}
Step-IsOrderly (take s i c at ready) o =
    let (phase, right) = take_phase s i c o at ready in
    record {
      alone = alone-update s.pc i _ (inr (inr refl)) o.alone;
      answered = answered-update s.pc i _ (λ d m e. ground (arith, right m)) o.answered;
      phase = phase;
    }
Step-IsOrderly (leave s i c r at) o = record {
  alone = alone-update s.pc i idle (inr (inr refl)) o.alone;
  answered = answered-update s.pc i idle (λ d m e. absurd cc) o.answered;
  phase = phase-update s i idle (ground arith) refl o.phase;
}

Run-IsOrderly : {s t : System} → Run false false s t → IsOrderly s → IsOrderly t
Run-IsOrderly here o = o
Run-IsOrderly (then_step r st) o = Step-IsOrderly st (Run-IsOrderly r o)

initial-IsOrderly : IsOrderly initial
unfolding is_busy waits
initial-IsOrderly = record {
  alone = λ i j a b. absurd cc;
  answered = λ i c m e. absurd cc;
  phase = free (λ j. refl) refl refl;
}

-- If no call is made while another thread is in one, and the storage server sends no message on its own while a
-- response is awaited, then a thread that gets a message gets the answer to its own command, also over messages that
-- come when none is awaited, disconnections and commands that could not be sent. The second condition does not hold
-- during a COPY, whose storage server reports the written file before it answers.
pub alone_answers :
    {s : System} (i : ℕ) (c : CText) (m : Message)
    → Run false false initial s
    → s.pc i ≡ returned c (got m)
    → m.origin ≡ some c
alone_answers i c m r at = (Run-IsOrderly r initial-IsOrderly).answered i c m at

-- Under the same conditions a thread that waits is never stuck: its response is here, or else the storage server
-- still owes the answer to its command; once that comes, with whatever text, the thread returns with it.
pub alone_returns :
    {s : System} (i : ℕ) (c text : CText)
    → Run false false initial s
    → s.pc i ≡ waiting c
    → (t : System) × (o : Outcome) × Run false false s t
      × (t.pc i ≡ returned c o)
      × ((s.line.response_ready ≡ true) ⊎ (o ≡ got (record { origin = some c; text = text })))
unfolding waits is_busy dispatch take_response
alone_returns {s} i c text r at = elim (Run-IsOrderly r initial-IsOrderly).phase [
  | free none_waits _ _ ↦ absurd (ground (arith, none_waits i))
  | asked k d wait on unready one ↦
      let o = Run-IsOrderly r initial-IsOrderly in
      let same : i ≡ k = only_waiter s k i d o wait (ground arith) in
      let one_command : waiting c ≡ waiting d = sym at ∙ ap s.pc same ∙ wait in
      let command : c ≡ d = cc in
      let reply : Message = record { origin = some d; text = text } in
      (
        _,
        (take_response (dispatch reply (record s.line { pending = [] }))).0,
        then_step (then_step here (answer s d text [] one)) (take _ i c at (ground arith)),
        ground arith,
        inr (rw command (ground arith)),
      )
  | arrived k d wait _ ready _ _ ↦
      (_, (take_response s.line).0, then_step here (take s i c at ready), ground arith, inl ready)
]
