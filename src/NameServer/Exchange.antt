-- ===== src/NameServer/Exchange.antt =====
-- name_server/name_server.c: the exchange of commands with one storage server: `storage_server_send_and_wait`,
-- `storage_server_signal_failure`, and the part of `run_ss_loop` that hands a message to a waiting thread.
-- `Line` is the part of `StorageServerInfo` that they use. What runs between taking `comm_lock` and waiting
-- or letting it go is one function here; `System` has the threads that call them.
pub mod System
pub mod Alone
pub mod Swapped
use distributed_documentatio.Base.{
  ℕ, CText, List, Option, Bool, ◌++◌, ◌∷◌, [], none, some, true, false, ◌&&◌, not, if◌then◌else◌,
}

-- A message of the storage server. `origin` is the command that it answers, or `none` for a message that the
-- storage server sends on its own; the code does not have this field.
pub record Message : Type 0 where
  pub origin : Option CText
  pub text : CText

-- `alive` says that `is_alive` is set and `sockfd` is not negative, and `response_failed` that
-- `response_status` is not 0. `pending` are the commands that the storage server has not answered yet.
pub record Line : Type 0 where
  pub alive : Bool
  pub awaiting_response : Bool
  pub response_ready : Bool
  pub response_failed : Bool
  pub response_raw : Option Message
  pub pending : List CText

-- What `storage_server_send_and_wait` returns: the message, or the negative of the status.
pub data Outcome : Type 0 where
  got : Message → Outcome
  status : ℕ → Outcome

-- After the first loop, when nobody awaits a response.
unfoldable pub begin_turn : Line → Line
begin_turn line = record line {
  response_raw = none;
  response_ready = false;
  response_failed = false;
}

-- The command is on its way.
unfoldable pub send_command : CText → Line → Line
unfolding begin_turn
send_command command line = record (begin_turn line) {
  awaiting_response = true;
  pending = line.pending ++ command ∷ [];
}

unfoldable pub raw_outcome : Option Message → Outcome
raw_outcome none = status 6
raw_outcome (some m) = got m

-- After the second loop, when the response is ready.
unfoldable pub take_response : Line → Outcome × Line
unfolding raw_outcome
take_response line = (
  if line.response_failed then status 5 else raw_outcome line.response_raw,
  record line { response_raw = none; awaiting_response = false; response_ready = false },
)

-- A message is for the waiter if there is one and it has no response yet; the flag says so.
unfoldable pub is_awaited : Line → Bool
is_awaited line = line.awaiting_response && not line.response_ready

unfoldable pub dispatch : Message → Line → Line
unfolding is_awaited
dispatch m line =
    if is_awaited line
    then record line {
      response_raw = some m;
      response_failed = false;
      response_ready = true;
      awaiting_response = false;
    }
    else line

-- The connection is gone, and with it all that is unanswered.
unfoldable pub storage_server_signal_failure : Line → Line
unfolding is_awaited
storage_server_signal_failure line =
    let off = record line { alive = false; pending = [] } in
    if is_awaited line
    then record off {
      response_raw = none;
      response_failed = true;
      response_ready = true;
      awaiting_response = false;
    }
    else off
