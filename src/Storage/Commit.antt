-- ===== src/Storage/Commit.antt =====
-- storage_server/storage_server.c: `handle_client_etirw` and `handle_client_undo`. The sentence's bounds
-- are read before `file_lock` is taken; a handler runs here as if nothing came between. The message that
-- tells the name server the new size is left out.
pub mod Others
pub mod Undo
pub mod Restores
use distributed_documentatio.Storage.State.{
  StorageServer, FileRecord, WriteSession, ss_read_file_content, ss_write_file_content, file_exists,
  ss_check_write_access, ss_find_file, record_at, put_record, ss_touch_file_metadata,
}
use distributed_documentatio.Storage.Sessions.{
  ss_find_session, ss_file_has_active_writers, ss_detach_session, ss_update_active_sessions,
}
use distributed_documentatio.Storage.Sentence.{count_sentences_in_span}
use distributed_documentatio.Protocol.Replies.{
  Reply, failed, answered, err_invalid_request, err_permission_denied, err_file_not_found,
  err_sentence_locked, err_internal_error, err_no_undo_history,
}
use distributed_documentatio.Base.{
  ℕ, CText, Bool, take, List, if◌then◌else◌, Option, none, ltb, ◌++◌, ◌-◌, not, codes, some, ◌||◌,
  drop, length, ◌∷◌, [], true, false,
}

-- locked_start > base_len || locked_end > base_len || locked_start > locked_end
unfoldable pub bad_bounds : ℕ → WriteSession → Bool
bad_bounds base_len session =
    ltb base_len session.sentence_start
    || ltb base_len session.sentence_end
    || ltb session.sentence_end session.sentence_start

-- The three copies into `new_content`.
unfoldable pub new_content : CText → WriteSession → CText
new_content current session =
    take session.sentence_start current
    ++ (session.sentence_working ++ drop session.sentence_end current)

-- The sessions after the commit: the others of the file shifted, the client's own gone.
unfoldable pub sessions_after : ℕ → WriteSession → CText → List WriteSession → List WriteSession
sessions_after fd session current sessions =
    let replacement = session.sentence_working in
    ss_detach_session fd (
      ss_update_active_sessions fd session.file session.sentence_start
        (session.sentence_end - session.sentence_start) (length replacement)
        (count_sentences_in_span replacement 0 (length replacement))
        (count_sentences_in_span current session.sentence_start session.sentence_end) sessions)

-- From the two writes on.
unfoldable pub write_commit :
    ℕ → StorageServer → ℕ → FileRecord → WriteSession → CText → Reply × StorageServer
write_commit now ss fd rec session current =
    let (saved, disk) = ss_write_file_content ss.disk rec.undopath current in
    if not saved
    then (failed err_internal_error (codes "Failed to persist undo"), record ss { disk = disk })
    else (let (written, disk') =
          ss_write_file_content disk rec.filepath (new_content current session) in
        if not written
        then (failed err_internal_error (codes "Failed to write file"), record ss { disk = disk' })
        else (
          answered ((codes "OK_WRITE_DONE" ∷ []) ∷ []),
          record ss {
            files =
                put_record
                  (ss_touch_file_metadata now (record rec { undo_available = true })
                    session.username true)
                  ss.files;
            sessions = sessions_after fd session current ss.sessions;
            disk = disk';
          },
        ))

unfoldable pub commit_session :
    ℕ → StorageServer → ℕ → FileRecord → WriteSession → Reply × StorageServer
unfolding write_commit
commit_session now ss fd rec session = elim (ss_read_file_content ss.disk rec.filepath) [
  | none ↦ (failed err_internal_error (codes "Failed to read file"), ss)
  | some current ↦
      if bad_bounds (length current) session
      then (failed err_internal_error (codes "Invalid sentence bounds"), ss)
      else write_commit now ss fd rec session current
]

-- `none` is a pointer to a record that is not there.
unfoldable pub handle_client_etirw : ℕ → StorageServer → ℕ → Option (Reply × StorageServer)
unfolding commit_session
handle_client_etirw now ss fd = elim (ss_find_session fd ss.sessions) [
  | none ↦ some (failed err_invalid_request (codes "No active WRITE session"), ss)
  | some session ↦ elim (record_at session.file ss.files) [
    | none ↦ none
    | some rec ↦ some (commit_session now ss fd rec session)
  ]
]

-- From the check of `undo_available` on.
unfoldable pub restore : ℕ → StorageServer → FileRecord → CText → Reply × StorageServer
restore now ss rec username =
    if not rec.undo_available || not (file_exists ss.disk rec.undopath)
    then (failed err_no_undo_history (codes "No undo available"), ss)
    else elim (ss_read_file_content ss.disk rec.undopath) [
      | none ↦ (failed err_internal_error (codes "Failed to read undo data"), ss)
      | some undo_content ↦
          let (written, disk) = ss_write_file_content ss.disk rec.filepath undo_content in
          if not written
          then (
            failed err_internal_error (codes "Failed to restore file"),
            record ss { disk = disk },
          )
          else (
            answered ((codes "OK_UNDO" ∷ []) ∷ []),
            record ss {
              files =
                  put_record
                    (ss_touch_file_metadata now (record rec { undo_available = false }) username
                      true)
                    ss.files;
              disk = disk;
            },
          )
    ]

unfoldable pub undo_file : ℕ → StorageServer → FileRecord → CText → Reply × StorageServer
unfolding restore
undo_file now ss rec username =
    if not (ss_check_write_access rec username)
    then (failed err_permission_denied (codes "No write access"), ss)
    else if ss_file_has_active_writers rec.address ss.sessions
    then (failed err_sentence_locked (codes "File locked for writing"), ss)
    else restore now ss rec username

unfoldable pub handle_client_undo : ℕ → StorageServer → List CText → Reply × StorageServer
unfolding undo_file
handle_client_undo now ss (_ ∷ username ∷ filename ∷ _) = elim (ss_find_file ss filename) [
  | none ↦ (failed err_file_not_found (codes "File not found"), ss)
  | some rec ↦ undo_file now ss rec username
]
handle_client_undo now ss _ = (failed err_invalid_request (codes "Missing fields in REQ_UNDO"), ss)
