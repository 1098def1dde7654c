-- ===== src/Storage/Revert/Tagged.antt =====
-- A revert to a checkpoint gives back the text that the file had when the checkpoint was made.
use distributed_documentatio.Storage.State.{
  StorageServer, FileRecord, CheckpointRecord, file_exists, ss_check_write_access, ss_find_file,
  record_at, put_record, ss_touch_file_metadata,
}
use distributed_documentatio.Storage.Checkpoints.{
  ss_find_checkpoint, tag_copy, with_tag, slot_of, make_checkpoint, handle_client_checkpoint,
  max_path_length,
}
use distributed_documentatio.Storage.Revert.{with_checkpoint, revert_file, handle_client_revert}
use distributed_documentatio.Protocol.Replies.{answered}
use distributed_documentatio.Storage.Commit.Undo.{
  IsWritable, put, find_record-put_record, put-IsWritable,
}
use distributed_documentatio.Base.{
  CText, ℕ, ◌≡◌, ◌<◌, codes, ◌++◌, some, length, ◌∷◌, true, [], take, false, arith, refl, ap,
  str_eq, str_eq_refl, take_all, ◌-◌, ◌∙◌,
}
use distributed_documentatio.NameServer.Index.{max_filename_length}
use distributed_documentatio.Storage.Revert.Steps.{
  IsFresh, tagged, server_with, created, made, with_tag_named, checkpoint_path_short,
  tag_copy_short, reverted_to, exists_of, tagged_may, find_checkpoint-tagged, answered_revert,
  copied,
}

module _ (now : ℕ) (ss : StorageServer) (rec : FileRecord)
    (filename username tag path text other : CText)
    (ok : IsFresh now ss rec filename username tag path text)
    (point : record_at rec.address ss.files ≡ some rec) (short : length tag < 128)
    (apart : str_eq rec.filepath path ≡ false) (undo_apart : str_eq rec.undopath path ≡ false)
    (w : IsWritable ss.disk rec.undopath other) (w' : IsWritable ss.disk rec.filepath text) where
  abbrev edited : StorageServer
  edited = record (server_with now ss rec username tag path text) {
    disk = put (put ss.disk path text) rec.filepath other;
  }

  tagged_named : ss_find_file edited filename ≡ some (tagged now rec username tag path)
  unfolding ss_find_file ss_touch_file_metadata
  tagged_named =
      find_record-put_record filename ss.files rec (tagged now rec username tag path) ok.named point
        refl refl

  tagged_found :
      ss_find_checkpoint (tagged now rec username tag path) tag
      ≡ some (record { tag = tag; filepath = path })
  unfolding ss_touch_file_metadata take ss_find_checkpoint
  tagged_found =
      let slot : slot_of tag path ≡ record { tag = tag; filepath = path } =
        rw
          (
            take_all (max_filename_length - 1) tag (omega arith),
            take_all (max_path_length - 1) path
                (omega (arith, checkpoint_path_short ss.storage_path now rec tag path ok.built)),
          )
          refl in
      find_checkpoint-tagged rec tag path ok.some_tag ok.fresh slot

  path_kept : edited.disk.content path ≡ some text
  unfolding put
  path_kept = rw (apart, str_eq_refl path) refl

  edited_text : edited.disk.content rec.filepath ≡ some other
  unfolding put
  edited_text = rw (str_eq_refl rec.filepath) refl

  undo_kept :
      (put edited.disk rec.undopath (copied rec.filepath rec.undopath other)).content path
      ≡ some text
  unfolding put
  undo_kept = rw (undo_apart, apart, str_eq_refl path) refl

  reverted_server : ℕ → StorageServer
  reverted_server later = record edited {
    files =
        put_record
          (ss_touch_file_metadata later
            (record (tagged now rec username tag path) { undo_available = true }) username true)
          edited.files;
    disk =
        put (put edited.disk rec.undopath (copied rec.filepath rec.undopath other)) rec.filepath
          text;
  }

  reverted :
      (later : ℕ)
      → revert_file later edited (tagged now rec username tag path) username tag
        ≡ (answered_revert tag, reverted_server later)
  unfolding revert_file with_checkpoint ss_touch_file_metadata reverted_server
  reverted later =
      let may : ss_check_write_access (tagged now rec username tag path) username ≡ true =
        tagged_may now rec username tag path ok.may in
      let ckpt : CheckpointRecord = record { tag = tag; filepath = path } in
      let there : file_exists edited.disk path ≡ true = exists_of edited.disk path text path_kept in
      rw (revert_file, may, ok.idle, with_checkpoint, tagged_found, there)
        (reverted_to later edited (tagged now rec username tag path) username tag other text ckpt
          edited_text
          (put-IsWritable (put ss.disk path text) rec.filepath rec.undopath other other
            (put-IsWritable ss.disk path rec.undopath text other w))
          undo_kept apart
          (put-IsWritable (put ss.disk path text) rec.filepath rec.filepath other text
            (put-IsWritable ss.disk path rec.filepath text text w')))

  restored_text_back : (later : ℕ) → (reverted_server later).disk.content rec.filepath ≡ some text
  unfolding put reverted_server
  restored_text_back later = rw (str_eq_refl rec.filepath) refl

  first_step :
      (raw : CText)
      → tag_copy raw ≡ tag
      → handle_client_checkpoint now ss (codes "REQ_CHECKPOINT" ∷ username ∷ filename ∷ raw ∷ [])
        ≡ (created tag, server_with now ss rec username tag path text)
  unfolding handle_client_checkpoint
  first_step raw e =
      ap (λ t. with_tag ss filename t (λ r. make_checkpoint now ss r username t)) e
      ∙ (with_tag_named ss filename tag rec (λ r. make_checkpoint now ss r username tag) ok.some_tag
            ok.named
          ∙ made now ss rec filename username tag path text ok apart)

  second_step :
      (later : ℕ) (raw : CText)
      → tag_copy raw ≡ tag
      → handle_client_revert later edited (codes "REQ_REVERT" ∷ username ∷ filename ∷ raw ∷ [])
        ≡ (answered_revert tag, reverted_server later)
  unfolding handle_client_revert
  second_step later raw e =
      ap (λ t. with_tag edited filename t (λ r. revert_file later edited r username t)) e
      ∙ (with_tag_named edited filename tag (tagged now rec username tag path)
            (λ r. revert_file later edited r username tag) ok.some_tag tagged_named
          ∙ reverted later)

-- After a checkpoint of an idle file under a new tag succeeds, whatever the file holds instead of its text, a
-- revert to the tag succeeds and gives the text back; the copies must fit on the disk, the paths must differ, and
-- there must be room for one more checkpoint.
pub revert_restores :
    (now later : ℕ) (ss : StorageServer) (rec : FileRecord)
    (filename username raw path text other : CText)
    → IsFresh now ss rec filename username (tag_copy raw) path text
    → record_at rec.address ss.files ≡ some rec
    → str_eq rec.filepath path ≡ false
    → str_eq rec.undopath path ≡ false
    → IsWritable ss.disk rec.undopath other
    → IsWritable ss.disk rec.filepath text
    → let done =
        handle_client_checkpoint now ss (codes "REQ_CHECKPOINT" ∷ username ∷ filename ∷ raw ∷ []) in
      let edited = record done.1 { disk = put done.1.disk rec.filepath other } in
      let back =
        handle_client_revert later edited (codes "REQ_REVERT" ∷ username ∷ filename ∷ raw ∷ []) in
      (done.0 ≡ created (tag_copy raw))
      × (back.0
          ≡ answered (
              (codes "OK_REVERT"
                ∷ take 255 (codes "File reverted to '" ++ (tag_copy raw ++ codes "'."))
                ∷ [])
              ∷ []))
      × (back.1.disk.content rec.filepath ≡ some text)
revert_restores now later ss rec filename username raw path text other ok point apart undo_apart w
      w' =
    let tag = tag_copy raw in
    let short = tag_copy_short raw in
    rw
      (
        first_step now ss rec filename username tag path text other ok point short apart undo_apart
            w w' raw refl,
        second_step now ss rec filename username tag path text other ok point short apart undo_apart
            w w' later raw refl,
      )
      (
        refl,
        refl,
        restored_text_back now ss rec filename username tag path text other ok point short apart
            undo_apart w w' later,
      )
