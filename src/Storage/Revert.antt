-- ===== src/Storage/Revert.antt =====
-- storage_server/storage_server.c: `handle_client_revert`, `handle_client_viewcheckpoint` and
-- `handle_client_listcheckpoints`.
pub mod Steps
pub mod Tagged
use distributed_documentatio.Storage.State.{
  StorageServer, FileRecord, CheckpointRecord, ss_read_file_content, file_exists,
  ss_check_write_access, ss_check_read_access, ss_find_file, put_record, ss_touch_file_metadata,
}
use distributed_documentatio.Storage.Sessions.{ss_file_has_active_writers}
use distributed_documentatio.Storage.Checkpoints.{
  ss_copy_file, ss_find_checkpoint, tag_copy, with_tag,
}
use distributed_documentatio.Protocol.Replies.{
  Reply, failed, answered, err_invalid_request, err_permission_denied, err_file_not_found,
  err_sentence_locked, err_internal_error,
}
use distributed_documentatio.Base.{
  ℕ, CText, if◌then◌else◌, List, none, not, codes, ◌∷◌, some, take, ◌++◌, map, [], true, false,
}

-- The two copies; if the second fails, the first is copied back.
unfoldable pub revert_to :
    ℕ → StorageServer → FileRecord → CText → CText → CheckpointRecord → Reply × StorageServer
revert_to now ss rec username tag ckpt =
    let (saved, disk) = ss_copy_file ss.disk rec.filepath rec.undopath in
    if not saved
    then (
      failed err_internal_error (codes "Failed to create undo snapshot"),
      record ss { disk = disk },
    )
    else (let (reverted, disk') = ss_copy_file disk ckpt.filepath rec.filepath in
        if not reverted
        then (
          failed err_internal_error (codes "Failed to revert file"),
          record ss { disk = (ss_copy_file disk' rec.undopath rec.filepath).1 },
        )
        else (
          answered (
              (codes "OK_REVERT"
                ∷ take 255 (codes "File reverted to '" ++ (tag ++ codes "'."))
                ∷ [])
              ∷ []),
          record ss {
            files =
                put_record
                  (ss_touch_file_metadata now (record rec { undo_available = true }) username true)
                  ss.files;
            disk = disk';
          },
        ))

-- The checkpoint of the tag, if its file is there; else the error.
unfoldable pub with_checkpoint :
    StorageServer
    → FileRecord
    → CText
    → (CheckpointRecord → Reply × StorageServer)
    → Reply × StorageServer
with_checkpoint ss rec tag next = elim (ss_find_checkpoint rec tag) [
  | none ↦ (failed err_invalid_request (codes "Checkpoint not found"), ss)
  | some ckpt ↦
      if not (file_exists ss.disk ckpt.filepath)
      then (failed err_internal_error (codes "Checkpoint data missing"), ss)
      else next ckpt
]

unfoldable pub revert_file : ℕ → StorageServer → FileRecord → CText → CText → Reply × StorageServer
unfolding with_checkpoint revert_to
revert_file now ss rec username tag =
    if not (ss_check_write_access rec username)
    then (failed err_permission_denied (codes "No write access"), ss)
    else if ss_file_has_active_writers rec.address ss.sessions
    then (failed err_sentence_locked (codes "File locked for writing"), ss)
    else with_checkpoint ss rec tag (λ ckpt. revert_to now ss rec username tag ckpt)

unfoldable pub handle_client_revert : ℕ → StorageServer → List CText → Reply × StorageServer
unfolding with_tag revert_file tag_copy
handle_client_revert now ss (_ ∷ username ∷ filename ∷ tag ∷ _) =
    with_tag ss filename (tag_copy tag) (λ rec. revert_file now ss rec username (tag_copy tag))
handle_client_revert now ss _ =
    (failed err_invalid_request (codes "Missing fields in REQ_REVERT"), ss)

unfoldable pub view_checkpoint :
    ℕ → StorageServer → FileRecord → CText → CText → CheckpointRecord → Reply × StorageServer
view_checkpoint now ss rec username tag ckpt = elim (ss_read_file_content ss.disk ckpt.filepath) [
  | none ↦ (failed err_internal_error (codes "Failed to read checkpoint"), ss)
  | some content ↦ (
    answered (
        (codes "OK_READ_START" ∷ (rec.filename ++ (codes " [" ++ (tag ++ codes "]"))) ∷ [])
        ∷ (codes "OK_CONTENT" ∷ content ∷ [])
        ∷ (codes "OK_READ_END" ∷ [])
        ∷ []),
    record ss { files = put_record (ss_touch_file_metadata now rec username false) ss.files },
  )
]

unfoldable pub view_file : ℕ → StorageServer → FileRecord → CText → CText → Reply × StorageServer
unfolding with_checkpoint view_checkpoint
view_file now ss rec username tag =
    if not (ss_check_read_access rec username)
    then (failed err_permission_denied (codes "No read access"), ss)
    else with_checkpoint ss rec tag (λ ckpt. view_checkpoint now ss rec username tag ckpt)

unfoldable pub handle_client_viewcheckpoint : ℕ → StorageServer → List CText → Reply × StorageServer
unfolding with_tag view_file tag_copy
handle_client_viewcheckpoint now ss (_ ∷ username ∷ filename ∷ tag ∷ _) =
    with_tag ss filename (tag_copy tag) (λ rec. view_file now ss rec username (tag_copy tag))
handle_client_viewcheckpoint now ss _ =
    (failed err_invalid_request (codes "Missing fields in REQ_VIEWCHECKPOINT"), ss)

unfoldable pub handle_client_listcheckpoints :
    ℕ → StorageServer → List CText → Reply × StorageServer
handle_client_listcheckpoints now ss (_ ∷ username ∷ filename ∷ _) =
    elim (ss_find_file ss filename) [
      | none ↦ (failed err_file_not_found (codes "File not found"), ss)
      | some rec ↦
          if not (ss_check_read_access rec username)
          then (failed err_permission_denied (codes "No read access"), ss)
          else (
            answered (
                map (λ c. codes "OK_LIST_CHECKPOINT" ∷ c.tag ∷ []) rec.checkpoints
                ++ (codes "OK_LIST_CHECKPOINT_END" ∷ []) ∷ []),
            record ss {
              files = put_record (ss_touch_file_metadata now rec username false) ss.files;
            },
          )
    ]
handle_client_listcheckpoints now ss _ =
    (failed err_invalid_request (codes "Missing fields in REQ_LIST_CHECKPOINTS"), ss)
