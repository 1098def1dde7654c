-- ===== src/Storage/Checkpoints.antt =====
-- storage_server/storage_server.c: checkpoints, copies of a file under a tag: `ss_copy_file`,
-- `ss_sanitize_tag`, `ss_find_checkpoint`, `ss_prune_oldest_checkpoint` and the handler
-- `handle_client_checkpoint`. The texts that `snprintf` writes fit their buffers but for the answers, which
-- are cut. An empty path is not writable.
use distributed_documentatio.Text.{trim_string, is_space, is_alnum}
use distributed_documentatio.NameServer.Index.{max_filename_length}
use distributed_documentatio.Storage.State.{
  StorageServer, FileRecord, CheckpointRecord, Disk, put_content, ss_check_write_access,
  ss_find_file, put_record, ss_touch_file_metadata,
}
use distributed_documentatio.Storage.Sessions.{ss_file_has_active_writers}
use distributed_documentatio.Protocol.Replies.{
  Reply, failed, answered, err_invalid_request, err_permission_denied, err_file_not_found,
  err_sentence_locked, err_internal_error,
}
use distributed_documentatio.Base.{
  ℕ, CText, List, if◌then◌else◌, Bool, map, Option, ◌∷◌, take, [], str_eq, ◌||◌, ◌-◌, none, codes,
  not, false, ◌==◌, strn_eq, ◌++◌, leb, some, length, decimal, true,
}

abbrev pub max_tag_length : ℕ
max_tag_length = 128

abbrev pub max_path_length : ℕ
max_path_length = 4096

abbrev pub ss_max_checkpoints : ℕ
ss_max_checkpoints = 32

-- unlink(path)
unfoldable pub unlink_file : Disk → CText → Disk
unlink_file disk path = record disk {
  content = λ q. if str_eq path q then none else disk.content q;
}

-- The flag is true for the return value 0; a copy that does not fit is taken away again. The destination is emptied
-- before the source is read, so that nothing is left to copy if they are one.
unfoldable pub ss_copy_file : Disk → CText → CText → Bool × Disk
ss_copy_file disk src_path dest_path = elim (disk.content src_path) [
  | none ↦ (false, disk)
  | some text ↦
      let bytes = if str_eq src_path dest_path then [] else text in
      if not (disk.writable dest_path)
      then (false, disk)
      else if leb (length bytes) disk.limit
      then (true, record disk { content = put_content disk.content dest_path bytes })
      else (false, unlink_file disk dest_path)
]

unfoldable pub tag_byte : ℕ → ℕ
tag_byte ch =
    if is_alnum ch || ch == b'_' || ch == b'-' then ch else if not (is_space ch) then b'_' else b'-'

unfoldable pub ss_sanitize_tag : CText → ℕ → CText
ss_sanitize_tag tag size = map tag_byte (take (size - 1) tag)

unfoldable pub find_tag : CText → List CheckpointRecord → Option CheckpointRecord
find_tag tag [] = none
find_tag tag (c ∷ checkpoints) =
    if strn_eq max_filename_length c.tag tag then some c else find_tag tag checkpoints

unfoldable pub ss_find_checkpoint : FileRecord → CText → Option CheckpointRecord
ss_find_checkpoint rec [] = none
ss_find_checkpoint rec (c ∷ tag) = find_tag (c ∷ tag) rec.checkpoints

-- The checkpoints that are left, and the disk.
unfoldable pub ss_prune_oldest_checkpoint :
    Disk → List CheckpointRecord → List CheckpointRecord × Disk
ss_prune_oldest_checkpoint disk [] = ([], disk)
ss_prune_oldest_checkpoint disk (oldest ∷ checkpoints) =
    (checkpoints, elim oldest.filepath [ [] ↦ disk | _ ∷ _ ↦ unlink_file disk oldest.filepath ])

-- The tag of a request.
unfoldable pub tag_copy : CText → CText
tag_copy tag = trim_string (take (max_tag_length - 1) tag)

unfoldable pub or_default : CText → CText
or_default [] = codes "checkpoint"
or_default (c ∷ sanitized) = c ∷ sanitized

-- `none` is the return value -1.
unfoldable pub build_path : ℕ → CText → CText → Option CText
build_path size base file =
    let path = base ++ (codes "/" ++ file) in if leb size (length path) then none else some path

-- The path of a checkpoint that is made at that time.
unfoldable pub checkpoint_path : CText → ℕ → FileRecord → CText → Option CText
unfolding build_path or_default ss_sanitize_tag
checkpoint_path storage_path now rec tag = build_path max_path_length storage_path (
    rec.filename
    ++ (codes ".ckpt_"
        ++ (decimal now ++ (codes "_" ++ or_default (ss_sanitize_tag tag max_tag_length)))))

abbrev pub slot_of : CText → CText → CheckpointRecord
slot_of tag path = record {
  tag = take (max_filename_length - 1) tag;
  filepath = take (max_path_length - 1) path;
}

-- From the copy of the file on.
unfoldable pub keep_checkpoint :
    ℕ → StorageServer → FileRecord → CText → CText → CText → Reply × StorageServer
keep_checkpoint now ss rec username tag path =
    let (copied, disk) = ss_copy_file ss.disk rec.filepath path in
    if not copied
    then (
      failed err_internal_error (codes "Failed to persist checkpoint"),
      record ss { disk = unlink_file disk path },
    )
    else (let (kept, pruned) =
          if leb ss_max_checkpoints (length rec.checkpoints)
          then ss_prune_oldest_checkpoint disk rec.checkpoints
          else (rec.checkpoints, disk) in
        (
          answered (
              (codes "OK_CHECKPOINT"
                ∷ take 255 (codes "Checkpoint '" ++ (tag ++ codes "' created."))
                ∷ [])
              ∷ []),
          record ss {
            files =
                put_record
                  (ss_touch_file_metadata now
                    (record rec { checkpoints = kept ++ slot_of tag path ∷ [] }) username false)
                  ss.files;
            disk = pruned;
          },
        ))

-- From the check of the access on.
unfoldable pub make_checkpoint :
    ℕ → StorageServer → FileRecord → CText → CText → Reply × StorageServer
unfolding keep_checkpoint
make_checkpoint now ss rec username tag =
    if not (ss_check_write_access rec username)
    then (failed err_permission_denied (codes "No write access"), ss)
    else if ss_file_has_active_writers rec.address ss.sessions
    then (failed err_sentence_locked (codes "File locked for writing"), ss)
    else elim (ss_find_checkpoint rec tag) [
      | some _ ↦ (failed err_invalid_request (codes "Checkpoint already exists"), ss)
      | none ↦ elim (checkpoint_path ss.storage_path now rec tag) [
        | none ↦ (failed err_internal_error (codes "Failed to build checkpoint path"), ss)
        | some path ↦ keep_checkpoint now ss rec username tag path
      ]
    ]

-- The checks that the three handlers with a tag share, before the file is found.
unfoldable pub with_tag :
    StorageServer → CText → CText → (FileRecord → Reply × StorageServer) → Reply × StorageServer
with_tag ss filename tag next = elim tag [
  | [] ↦ (failed err_invalid_request (codes "Checkpoint tag cannot be empty"), ss)
  | _ ∷ _ ↦ elim (ss_find_file ss filename) [
    | none ↦ (failed err_file_not_found (codes "File not found"), ss)
    | some rec ↦ next rec
  ]
]

unfoldable pub handle_client_checkpoint : ℕ → StorageServer → List CText → Reply × StorageServer
unfolding with_tag make_checkpoint tag_copy
handle_client_checkpoint now ss (_ ∷ username ∷ filename ∷ tag ∷ _) =
    with_tag ss filename (tag_copy tag) (λ rec. make_checkpoint now ss rec username (tag_copy tag))
handle_client_checkpoint now ss _ =
    (failed err_invalid_request (codes "Missing fields in REQ_CHECKPOINT"), ss)
