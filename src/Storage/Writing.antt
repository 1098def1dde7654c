-- ===== src/Storage/Writing.antt =====
-- storage_server/storage_server.c: the handlers of a write: `handle_client_write_lock` and
-- `handle_client_write_data`, and of a read: `handle_client_read`.
-- A handler runs as if no other did, since `file_lock` is held; its result is what is sent, and the
-- state afterwards. `now` is the time.
pub mod Locks
use distributed_documentatio.Protocol.Replies.{
  Reply, failed, answered, err_invalid_request, err_permission_denied, err_file_not_found,
  err_sentence_locked, err_internal_error, err_no_undo_history,
}
use distributed_documentatio.Storage.State.{
  StorageServer, FileRecord, ss_read_file_content, ss_check_read_access, ss_check_write_access,
  ss_find_file, put_record, ss_touch_file_metadata,
}
use distributed_documentatio.Storage.Sessions.{
  ss_find_session, ss_find_session_by_sentence, ss_detach_session, ss_create_session, put_working,
}
use distributed_documentatio.Storage.Sentence.{ss_get_sentence_bounds, span}
use distributed_documentatio.Storage.Words.{ss_apply_word_edit}
use distributed_documentatio.Base.Int.{pos}
use distributed_documentatio.Storage.Numbers.{parse_int}
use distributed_documentatio.Base.{
  ℕ, CText, List, if◌then◌else◌, none, not, codes, some, ◌∷◌, [], false,
}

-- The handlers past the check of the fields, once the file is found.
unfoldable pub read_file : ℕ → StorageServer → FileRecord → CText → Reply × StorageServer
read_file now ss rec username =
    if not (ss_check_read_access rec username)
    then (failed err_permission_denied (codes "No read access"), ss)
    else elim (ss_read_file_content ss.disk rec.filepath) [
      | none ↦ (failed err_internal_error (codes "Failed to read file"), ss)
      | some content ↦ (
        answered (
            (codes "OK_READ_START" ∷ rec.filename ∷ [])
            ∷ (codes "OK_CONTENT" ∷ content ∷ [])
            ∷ (codes "OK_READ_END" ∷ [])
            ∷ []),
        record ss { files = put_record (ss_touch_file_metadata now rec username false) ss.files },
      )
    ]

unfoldable pub handle_client_read : ℕ → StorageServer → List CText → Reply × StorageServer
unfolding read_file
handle_client_read now ss (_ ∷ username ∷ filename ∷ _) = elim (ss_find_file ss filename) [
  | none ↦ (failed err_file_not_found (codes "File not found"), ss)
  | some rec ↦ read_file now ss rec username
]
handle_client_read now ss _ = (failed err_invalid_request (codes "Missing fields in REQ_READ"), ss)

-- From the check of the access on; the client's former session is gone.
unfoldable pub lock_sentence :
    StorageServer → ℕ → FileRecord → CText → ℕ → CText → Reply × StorageServer
lock_sentence ss fd rec username sentence_index index_text =
    if not (ss_check_write_access rec username)
    then (failed err_permission_denied (codes "No write access"), ss)
    else elim (ss_find_session_by_sentence rec.address sentence_index ss.sessions) [
      | some _ ↦ (failed err_sentence_locked (codes "Sentence already locked"), ss)
      | none ↦ elim (ss_read_file_content ss.disk rec.filepath) [
        | none ↦ (failed err_internal_error (codes "Failed to read file"), ss)
        | some file_data ↦ elim (ss_get_sentence_bounds file_data sentence_index) [
          | none ↦ (failed err_invalid_request (codes "Sentence index out of range"), ss)
          | some (start, end) ↦ (
            answered (
                (codes "OK_LOCKED" ∷ rec.filename ∷ index_text ∷ [])
                ∷ (codes "OK_CONTENT" ∷ span file_data start end ∷ [])
                ∷ []),
            record ss {
              sessions =
                  ss_create_session fd rec.address username sentence_index start end file_data
                    (span file_data start end) ss.sessions;
            },
          )
        ]
      ]
    ]

-- ss_abort_session(ss, fd)
unfoldable pub ss_abort_session : StorageServer → ℕ → StorageServer
ss_abort_session ss fd = record ss { sessions = ss_detach_session fd ss.sessions }

unfoldable pub lock_at : StorageServer → ℕ → CText → CText → ℕ → CText → Reply × StorageServer
unfolding lock_sentence
lock_at ss fd username filename sentence_index index_text = elim (ss_find_file ss filename) [
  | none ↦ (failed err_file_not_found (codes "File not found"), ss)
  | some rec ↦ lock_sentence ss fd rec username sentence_index index_text
]

unfoldable pub handle_client_write_lock : StorageServer → ℕ → List CText → Reply × StorageServer
unfolding lock_at ss_abort_session
handle_client_write_lock ss fd (_ ∷ username ∷ filename ∷ index_text ∷ _) =
    elim (parse_int index_text) [
      | some (pos sentence_index) ↦
          lock_at (ss_abort_session ss fd) fd username filename sentence_index index_text
      | _ ↦ (failed err_invalid_request (codes "Invalid sentence index"), ss)
    ]
handle_client_write_lock ss fd _ =
    (failed err_invalid_request (codes "Missing fields in REQ_WRITE_LOCK"), ss)

unfoldable pub edit_session : StorageServer → ℕ → ℕ → CText → Reply × StorageServer
edit_session ss fd word_index content = elim (ss_find_session fd ss.sessions) [
  | none ↦ (failed err_invalid_request (codes "No active WRITE session"), ss)
  | some session ↦ elim (ss_apply_word_edit session.sentence_working word_index content) [
    | none ↦ (failed err_invalid_request (codes "Failed to apply edit"), ss)
    | some working ↦ (
      answered ((codes "OK" ∷ codes "WRITE_DATA applied" ∷ []) ∷ []),
      record ss { sessions = put_working fd working ss.sessions },
    )
  ]
]

unfoldable pub handle_client_write_data : StorageServer → ℕ → List CText → Reply × StorageServer
unfolding edit_session
handle_client_write_data ss fd (_ ∷ index_text ∷ content ∷ _) = elim (parse_int index_text) [
  | some (pos word_index) ↦ edit_session ss fd word_index content
  | _ ↦ (failed err_invalid_request (codes "Invalid word index"), ss)
]
handle_client_write_data ss fd _ =
    (failed err_invalid_request (codes "Missing fields in WRITE_DATA"), ss)
