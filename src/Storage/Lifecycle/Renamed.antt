-- ===== src/Storage/Lifecycle/Renamed.antt =====
-- A file under its new name.
use distributed_documentatio.Base.{ℕ, CText, ◌≡◌, some, true}
use distributed_documentatio.Storage.State.{
  StorageServer, FileRecord, Disk, ss_find_file, put_content,
}
use distributed_documentatio.Storage.Checkpoints.{unlink_file}
use distributed_documentatio.Storage.Lifecycle.{rename_paths}

module _ (now : ℕ) (ss : StorageServer) (rec : FileRecord)
    (old_logical new_logical old_flat new_flat current_path new_path text : CText)
    (found : ss_find_file ss old_logical ≡ some rec)
    (paths : rename_paths ss.storage_path rec old_flat new_flat ≡ some (current_path, new_path))
    (there : ss.disk.content current_path ≡ some text)
    (opens : ss.disk.writable new_path ≡ true) where
  -- The disk once the file itself is renamed.
  abbrev moved : Disk
  moved = record ss.disk {
    content = put_content (unlink_file ss.disk current_path).content new_path text;
  }
