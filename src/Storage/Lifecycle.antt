-- ===== src/Storage/Lifecycle.antt =====
-- storage_server/storage_server.c: creating, deleting and renaming a file (`ss_create_file`,
-- `ss_delete_file`, `ss_handle_rename`), and the paths of a record (`ss_set_record_paths`,
-- `ss_init_file_record`). The address of a new record is an argument, and the allocation succeeds. A rename on
-- the disk needs the old path to be there and the new one to be writable, and puts the file in place of
-- one that has the new path.
pub mod Cycle
pub mod Renamed
use distributed_documentatio.Names.{flatten_logical_path}
use distributed_documentatio.Acl.{max_username_length}
use distributed_documentatio.NameServer.Index.{max_filename_length}
use distributed_documentatio.Storage.State.{
  StorageServer, FileRecord, CheckpointRecord, Disk, put_content, ss_find_file, put_record,
}
use distributed_documentatio.Storage.Sessions.{ss_file_has_active_writers}
use distributed_documentatio.Storage.Checkpoints.{build_path, max_path_length, unlink_file}
use distributed_documentatio.Base.{
  ℕ, CText, List, Option, Bool, codes, take, none, some, [], ◌∷◌, ◌-◌, ◌++◌, false, if◌then◌else◌,
  not, strn_eq, true,
}

abbrev pub path_or_empty : Option CText → CText
path_or_empty path = elim path [ none ↦ [] | some p ↦ p ]

unfoldable pub physical_name_of : CText → CText
physical_name_of logical_name = elim (flatten_logical_path max_filename_length logical_name) [
  | none ↦ take (max_filename_length - 1) logical_name
  | some flat ↦ flat
]

unfoldable pub path_of : CText → CText → CText → CText
path_of storage_path logical_name suffix =
    path_or_empty
      (build_path max_path_length storage_path (physical_name_of logical_name ++ suffix))

unfoldable pub ss_set_record_paths : CText → FileRecord → CText → FileRecord
ss_set_record_paths storage_path rec logical_name = record rec {
  filename = take (max_filename_length - 1) logical_name;
  physical_name = physical_name_of logical_name;
  filepath = path_of storage_path logical_name [];
  metapath = path_of storage_path logical_name (codes ".meta");
  undopath = path_of storage_path logical_name (codes ".undo");
}

-- memset(rec, 0, sizeof(FileRecord))
abbrev pub zero_record : ℕ → FileRecord
zero_record address = record {
  address = address;
  filename = [];
  physical_name = [];
  filepath = [];
  metapath = [];
  undopath = [];
  owner = [];
  read_users = [];
  write_users = [];
  created = 0;
  modified = 0;
  last_access = 0;
  last_access_user = [];
  undo_available = false;
  checkpoints = [];
  migrating = false;
}

unfoldable pub ss_init_file_record : ℕ → CText → CText → FileRecord
ss_init_file_record address storage_path filename =
    ss_set_record_paths storage_path (zero_record address) filename

abbrev pub owner_name : Option CText → CText
owner_name owner = elim owner [ none ↦ [] | some user ↦ take (max_username_length - 1) user ]

-- The record of a new file; an owner of `none` is NULL.
unfoldable pub new_record : ℕ → CText → ℕ → CText → Option CText → FileRecord
new_record now storage_path address filename owner =
    let rec = ss_init_file_record address storage_path filename in
    let name = owner_name owner in
    record rec {
      owner = name;
      last_access_user = name;
      created = now;
      modified = now;
      last_access = now;
    }

-- The flag is true for the return value 0.
unfoldable pub ss_create_file : ℕ → StorageServer → ℕ → CText → Option CText → Bool × StorageServer
ss_create_file now ss address filename owner = elim (ss_find_file ss filename) [
  | some _ ↦ (false, ss)
  | none ↦
      let rec = new_record now ss.storage_path address filename owner in
      if not (ss.disk.writable rec.filepath) then (false, ss) else (
        true,
        record ss {
          files = rec ∷ ss.files;
          disk = record ss.disk { content = put_content ss.disk.content rec.filepath [] };
        },
      )
]

-- What `ss_delete_file` returns: 0, -1 or -2.
pub data Deleted : Type 0 where
  deleted : Deleted
  not_found : Deleted
  has_writers : Deleted

unfoldable pub unlink_checkpoints : List CheckpointRecord → Disk → Disk
unlink_checkpoints [] disk = disk
unlink_checkpoints (c ∷ checkpoints) disk =
    unlink_checkpoints checkpoints
      (elim c.filepath [ [] ↦ disk | _ ∷ _ ↦ unlink_file disk c.filepath ])

unfoldable pub unlink_all : FileRecord → Disk → Disk
unlink_all rec disk =
    unlink_checkpoints rec.checkpoints
      (unlink_file (unlink_file (unlink_file disk rec.filepath) rec.metapath) rec.undopath)

-- The list without the first record of the name.
unfoldable pub unlink_record : CText → List FileRecord → List FileRecord
unlink_record filename [] = []
unlink_record filename (rec ∷ files) =
    if strn_eq max_filename_length rec.filename filename
    then files
    else rec ∷ unlink_record filename files

unfoldable pub ss_delete_file : StorageServer → CText → Deleted × StorageServer
ss_delete_file ss filename = elim (ss_find_file ss filename) [
  | none ↦ (not_found, ss)
  | some rec ↦ if ss_file_has_active_writers rec.address ss.sessions then (has_writers, ss) else (
    deleted,
    record ss { files = unlink_record filename ss.files; disk = unlink_all rec ss.disk },
  )
]

-- rename(old_path, new_path); `none` is a return value other than 0.
unfoldable pub rename_path : Disk → CText → CText → Option Disk
rename_path disk old_path new_path = elim (disk.content old_path) [
  | none ↦ none
  | some bytes ↦
      if disk.writable new_path
      then some
          (record disk { content = put_content (unlink_file disk old_path).content new_path bytes })
      else none
]

-- A rename whose result is not looked at.
abbrev pub try_rename : Disk → CText → CText → Disk
try_rename disk old_path new_path = elim (rename_path disk old_path new_path) [
  | none ↦ disk
  | some disk' ↦ disk'
]

abbrev pub with_suffix : CText → CText → CText
with_suffix path suffix = take (max_path_length - 1) (path ++ suffix)

-- The record under its new names.
unfoldable pub renamed_record : ℕ → FileRecord → CText → CText → CText → FileRecord
renamed_record now rec new_logical new_flat new_path = record rec {
  filename = take (max_filename_length - 1) new_logical;
  physical_name = take (max_filename_length - 1) new_flat;
  filepath = new_path;
  metapath = with_suffix new_path (codes ".meta");
  undopath = with_suffix new_path (codes ".undo");
  last_access = now;
  modified = now;
}

-- From the two paths on.
unfoldable pub rename_record :
    ℕ → StorageServer → FileRecord → CText → CText → CText → CText → Bool × StorageServer
rename_record now ss rec new_logical new_flat current_path new_path =
    elim (rename_path ss.disk current_path new_path) [
      | none ↦ (false, ss)
      | some disk ↦ (
        true,
        record ss {
          files = put_record (renamed_record now rec new_logical new_flat new_path) ss.files;
          disk =
              try_rename
                (try_rename disk (with_suffix current_path (codes ".meta"))
                  (with_suffix new_path (codes ".meta")))
                (with_suffix current_path (codes ".undo")) (with_suffix new_path (codes ".undo"));
        },
      )
    ]

-- The flat name that is expected for the file, and the paths under both flat names.
unfoldable pub rename_paths : CText → FileRecord → CText → CText → Option (CText × CText)
rename_paths storage_path rec old_flat new_flat =
    elim (flatten_logical_path max_filename_length rec.filename) [
      | none ↦ none
      | some expected_old_flat ↦
          if not (strn_eq max_filename_length expected_old_flat old_flat)
          then none
          else elim (build_path max_path_length storage_path old_flat) [
            | none ↦ none
            | some current_path ↦ elim (build_path max_path_length storage_path new_flat) [
              | none ↦ none
              | some new_path ↦ some (current_path, new_path)
            ]
          ]
    ]

-- The flag is true for the return value 0.
unfoldable pub ss_handle_rename :
    ℕ → StorageServer → CText → CText → CText → CText → Bool × StorageServer
ss_handle_rename now ss old_logical new_logical old_flat new_flat =
    elim (ss_find_file ss old_logical) [
      | none ↦ (false, ss)
      | some rec ↦ elim (rename_paths ss.storage_path rec old_flat new_flat) [
        | none ↦ (false, ss)
        | some (current_path, new_path) ↦
            rename_record now ss rec new_logical new_flat current_path new_path
      ]
    ]
