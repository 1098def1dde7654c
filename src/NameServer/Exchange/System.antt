-- ===== src/NameServer/Exchange/System.antt =====
-- Threads of the name server that send commands to one storage server, its reader thread, and the storage
-- server, which answers the commands in the order in which they are sent.
use distributed_documentatio.Base.{
  ℕ, CText, List, Bool, ◌≡◌, ◌⊎◌, ◌∷◌, [], none, some, true, false, ◌==◌, if◌then◌else◌,
}
use distributed_documentatio.NameServer.Exchange.{
  Line, Outcome, status, begin_turn, send_command, take_response, dispatch,
  storage_server_signal_failure,
}

-- Where a thread is in `storage_server_send_and_wait`: not in it, before the loop that waits for its turn, in
-- the loop that waits for the response, or back with the result.
pub data Pc : Type 0 where
  idle : Pc
  queued : CText → Pc
  waiting : CText → Pc
  returned : CText → Outcome → Pc

unfoldable pub is_busy : Pc → Bool
is_busy idle = false
is_busy (queued c) = true
is_busy (waiting c) = true
is_busy (returned c o) = false

unfoldable pub waits : Pc → Bool
waits idle = false
waits (queued c) = false
waits (waiting c) = true
waits (returned c o) = false

pub record System : Type 0 where
  pub line : Line
  pub pc : ℕ → Pc

abbrev pub update : (ℕ → Pc) → ℕ → Pc → ℕ → Pc
update pc i p j = if i == j then p else pc j

-- The test before the lock is taken.
unfoldable pub called : Line → CText → Pc
called line command = if line.alive then queued command else returned command (status 2)

-- `shared` says that a thread may call while another one is in its call, and `notices` that a message which the
-- storage server sends on its own may come while a response is awaited. At other times it may always come.
pub data Step (shared notices : Bool) : System → System → Type 0 where
  call :
      (s : System) (i : ℕ) (command : CText)
      → s.pc i ≡ idle
      → ((shared ≡ true) ⊎ ((j : ℕ) → is_busy (s.pc j) ≡ false))
      → Step shared notices s (record s { pc = update s.pc i (called s.line command) })
  cannot_send :
      (s : System) (i : ℕ) (command : CText) (n : ℕ)
      → s.pc i ≡ queued command
      → s.line.awaiting_response ≡ false
      → ((n ≡ 3) ⊎ (n ≡ 4))
      → Step shared notices s
          (record s { line = begin_turn s.line; pc = update s.pc i (returned command (status n)) })
  send :
      (s : System) (i : ℕ) (command : CText)
      → s.pc i ≡ queued command
      → s.line.awaiting_response ≡ false
      → s.line.alive ≡ true
      → Step shared notices s
          (record s { line = send_command command s.line; pc = update s.pc i (waiting command) })
  answer :
      (s : System) (command text : CText) (rest : List CText)
      → s.line.pending ≡ command ∷ rest
      → Step shared notices s (record s {
        line =
            dispatch
              (record { origin = some command; text = text })
              (record s.line { pending = rest });
      })
  notice :
      (s : System) (text : CText)
      → ((notices ≡ true) ⊎ (s.line.awaiting_response ≡ false))
      → Step shared notices s
          (record s { line = dispatch (record { origin = none; text = text }) s.line })
  disconnect :
      (s : System)
      → Step shared notices s (record s { line = storage_server_signal_failure s.line })
  take :
      (s : System) (i : ℕ) (command : CText)
      → s.pc i ≡ waiting command
      → s.line.response_ready ≡ true
      → Step shared notices s (record s {
        line = (take_response s.line).1;
        pc = update s.pc i (returned command (take_response s.line).0);
      })
  leave :
      (s : System) (i : ℕ) (command : CText) (o : Outcome)
      → s.pc i ≡ returned command o
      → Step shared notices s (record s { pc = update s.pc i idle })

abbrev pub fresh_line : Line
fresh_line = record {
  alive = true;
  awaiting_response = false;
  response_ready = false;
  response_failed = false;
  response_raw = none;
  pending = [];
}

abbrev pub initial : System
initial = record { line = fresh_line; pc = λ _. idle }

pub data Run (shared notices : Bool) (s : System) : System → Type 0 where
  here : Run shared notices s s
  then_step :
      {t u : System} → Run shared notices s t → Step shared notices t u → Run shared notices s u
