-- ===== src/Protocol/Replies.antt =====
-- common/protocol.h: the error codes; what a handler of name_server/name_server.c or
-- storage_server/storage_server.c sends back.
use distributed_documentatio.Base.{ℕ, CText, List}
use distributed_documentatio.Base.Int.{ℤ}

-- An error with its code, an error of another server with the code that it has there, or the fields of the messages
-- that are sent in turn.
pub data Reply : Type 0 where
  failed : ℕ → CText → Reply
  passed_on : ℤ → CText → Reply
  answered : List (List CText) → Reply

abbrev pub err_username_invalid : ℕ
err_username_invalid = 101

abbrev pub err_user_not_found : ℕ
err_user_not_found = 102

abbrev pub err_invalid_request : ℕ
err_invalid_request = 400

abbrev pub err_permission_denied : ℕ
err_permission_denied = 403

abbrev pub err_file_not_found : ℕ
err_file_not_found = 404

abbrev pub err_file_exists : ℕ
err_file_exists = 409

abbrev pub err_sentence_locked : ℕ
err_sentence_locked = 423

abbrev pub err_internal_error : ℕ
err_internal_error = 500

abbrev pub err_no_undo_history : ℕ
err_no_undo_history = 502

abbrev pub err_exec_failed : ℕ
err_exec_failed = 504
