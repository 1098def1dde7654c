-- ===== src/Storage/State.antt =====
-- storage_server/storage_server.h: `CheckpointRecord`, `FileRecord`, `WriteSession` and `StorageServer`;
-- storage_server/storage_server.c: files on disk, access, and looking up a file record. A pointer to
-- a record is its address. The disk holds bytes other than NUL under paths; a path that cannot be
-- opened for writing is left alone, and of a text longer than `limit` only the first bytes are written.
-- The `.meta` files, which are written after every change and read at the start only, are left out.
use distributed_documentatio.Base.{
  ℕ, CText, List, Bool, Option, if◌then◌else◌, none, ◌∷◌, take, [], str_eq, leb, false, true,
  strn_eq, ◌==◌, ◌-◌, some, length,
}
use distributed_documentatio.Acl.{Acl, same_user, max_username_length, acl_contains}
use distributed_documentatio.NameServer.Index.{max_filename_length}

pub record CheckpointRecord : Type 0 where
  pub tag : CText
  pub filepath : CText

pub record FileRecord : Type 0 where
  pub address : ℕ
  pub filename : CText
  pub physical_name : CText
  pub filepath : CText
  pub metapath : CText
  pub undopath : CText
  pub owner : CText
  pub read_users : Acl
  pub write_users : Acl
  pub created : ℕ
  pub modified : ℕ
  pub last_access : ℕ
  pub last_access_user : CText
  pub undo_available : Bool
  pub checkpoints : List CheckpointRecord
  pub migrating : Bool

pub record WriteSession : Type 0 where
  pub client_fd : ℕ
  pub file : ℕ
  pub username : CText
  pub sentence_index : ℕ
  pub sentence_start : ℕ
  pub sentence_end : ℕ
  pub file_snapshot : CText
  pub sentence_working : CText

pub record Disk : Type 0 where
  pub content : CText → Option CText
  pub writable : CText → Bool
  pub limit : ℕ

pub record StorageServer : Type 0 where
  pub storage_path : CText
  pub files : List FileRecord
  pub sessions : List WriteSession
  pub disk : Disk

-- `none` is NULL.
unfoldable pub ss_read_file_content : Disk → CText → Option CText
ss_read_file_content disk path = disk.content path

abbrev pub put_content : (CText → Option CText) → CText → CText → CText → Option CText
put_content content path bytes q = if str_eq path q then some bytes else content q

-- The flag is true for the return value 0.
unfoldable pub ss_write_file_content : Disk → CText → CText → Bool × Disk
ss_write_file_content disk path text =
    if disk.writable path
    then (
      leb (length text) disk.limit,
      record disk { content = put_content disk.content path (take disk.limit text) },
    )
    else (false, disk)

-- `file_exists` of common/utils.c.
unfoldable pub file_exists : Disk → CText → Bool
file_exists disk path = elim (disk.content path) [ none ↦ false | some _ ↦ true ]

-- rec->owner[0] != '\0' and the names are the same.
unfoldable pub is_owner : FileRecord → CText → Bool
is_owner rec user = elim rec.owner [ [] ↦ false | _ ∷ _ ↦ same_user rec.owner user ]

unfoldable pub ss_check_read_access : FileRecord → CText → Bool
unfolding is_owner
ss_check_read_access rec user =
    if is_owner rec user
    then true
    else if acl_contains rec.read_users user
    then true
    else acl_contains rec.write_users user

unfoldable pub ss_check_write_access : FileRecord → CText → Bool
unfolding is_owner
ss_check_write_access rec user =
    if is_owner rec user then true else acl_contains rec.write_users user

unfoldable pub find_record : CText → List FileRecord → Option FileRecord
find_record filename [] = none
find_record filename (rec ∷ files) =
    if strn_eq max_filename_length rec.filename filename
    then some rec
    else find_record filename files

unfoldable pub ss_find_file : StorageServer → CText → Option FileRecord
unfolding find_record
ss_find_file ss filename = find_record filename ss.files

-- The record that a pointer points to.
unfoldable pub record_at : ℕ → List FileRecord → Option FileRecord
record_at address [] = none
record_at address (rec ∷ files) =
    if rec.address == address then some rec else record_at address files

-- A record is written through a pointer.
unfoldable pub put_record : FileRecord → List FileRecord → List FileRecord
put_record new [] = []
put_record new (rec ∷ files) =
    if rec.address == new.address then new ∷ files else rec ∷ put_record new files

unfoldable pub ss_touch_file_metadata : ℕ → FileRecord → CText → Bool → FileRecord
ss_touch_file_metadata now rec username update_modified = record rec {
  last_access = now;
  last_access_user = take (max_username_length - 1) username;
  modified = if update_modified then now else rec.modified;
}
