-- ===== src/Storage/Lifecycle/Cycle.antt =====
-- A file that is created and deleted again.
use distributed_documentatio.Base.{
  ℕ, CText, Option, ◌≡◌, none, some, true, false, [], length, ◌<◌, strn_eq, ◌∷◌, take,
  if◌then◌else◌, str_eq, ◌-◌, take_all, ◌||◌, arith, codes, strn_eq_refl, refl, str_eq_refl, Bool,
}
use distributed_documentatio.Storage.State.{ss_find_file, StorageServer, put_content, find_record}
use distributed_documentatio.Storage.Lifecycle.{
  ss_create_file, ss_delete_file, new_record, deleted, path_of, unlink_all, unlink_record,
  ss_init_file_record, ss_set_record_paths, unlink_checkpoints,
}
use distributed_documentatio.Storage.Checkpoints.{unlink_file}
use distributed_documentatio.Storage.Sessions.{ss_file_has_active_writers}
use distributed_documentatio.NameServer.Index.{max_filename_length}

-- The name that the new record has.
pub new_record-name :
    (filename : CText)
    → length filename < max_filename_length
    → strn_eq max_filename_length (take (max_filename_length - 1) filename) filename ≡ true
new_record-name filename short =
    rw (take_all (max_filename_length - 1) filename (omega (arith, short)))
      (strn_eq_refl max_filename_length filename)

swept :
    (a b c : Bool) (rest : Option CText)
    → (if c then none else if b then none else if a then none else if a then some [] else rest)
      ≡ (if a || b || c then none else rest)
swept a b c rest = ground arith

module _ (now : ℕ) (ss : StorageServer) (address : ℕ) (filename : CText) (owner : Option CText)
    (fresh : ss_find_file ss filename ≡ none) (short : length filename < max_filename_length)
    (opens : ss.disk.writable (path_of ss.storage_path filename []) ≡ true) where
  -- The server with the new file.
  abbrev created_server : StorageServer
  created_server = record ss {
    files = new_record now ss.storage_path address filename owner ∷ ss.files;
    disk = record ss.disk {
      content = put_content ss.disk.content (path_of ss.storage_path filename []) [];
    };
  }

  create_lem : ss_create_file now ss address filename owner ≡ (true, created_server)
  unfolding ss_create_file new_record ss_init_file_record ss_set_record_paths
  create_lem = rw (ss_create_file, fresh, opens) refl

  find_created :
      ss_find_file created_server filename
      ≡ some (new_record now ss.storage_path address filename owner)
  unfolding ss_find_file find_record new_record ss_init_file_record ss_set_record_paths
  find_created = rw (new_record-name filename short) refl

  delete_lem :
      ss_file_has_active_writers address ss.sessions ≡ false
      → ss_delete_file created_server filename ≡ (
        deleted,
        record ss {
          disk =
              unlink_all
                (new_record now ss.storage_path address filename owner)
                created_server.disk;
        },
      )
  unfolding ss_delete_file unlink_record new_record ss_init_file_record ss_set_record_paths
  delete_lem idle = rw (ss_delete_file, find_created, idle, new_record-name filename short) refl

  gone :
      (q : CText)
      → (unlink_all
            (new_record now ss.storage_path address filename owner)
            created_server.disk).content
          q
        ≡ (if str_eq (path_of ss.storage_path filename []) q
              || str_eq (path_of ss.storage_path filename (codes ".meta")) q
              || str_eq (path_of ss.storage_path filename (codes ".undo")) q
            then none
            else ss.disk.content q)
  unfolding unlink_all unlink_checkpoints unlink_file new_record ss_init_file_record
      ss_set_record_paths
  gone q =
      swept (str_eq (path_of ss.storage_path filename []) q)
        (str_eq (path_of ss.storage_path filename (codes ".meta")) q)
        (str_eq (path_of ss.storage_path filename (codes ".undo")) q) (ss.disk.content q)

  -- A new file that fits its name and can be written is created, and found with no text. Deleting it,
  -- while nobody writes it, gives back the former list of files, and the former contents of every path but the
  -- three of the file, which are gone.
  pub create-delete :
      (q : CText)
      → ss_file_has_active_writers address ss.sessions ≡ false
      → (let (ok, ss') = ss_create_file now ss address filename owner in
          let (result, ss'') = ss_delete_file ss' filename in
          (ok ≡ true)
          × (ss'.disk.content (path_of ss.storage_path filename []) ≡ some [])
          × (result ≡ deleted)
          × (ss''.files ≡ ss.files)
          × (ss''.disk.content q ≡ (
              if str_eq (path_of ss.storage_path filename []) q
                || str_eq (path_of ss.storage_path filename (codes ".meta")) q
                || str_eq (path_of ss.storage_path filename (codes ".undo")) q
              then none
              else ss.disk.content q)))
  create-delete q idle =
      rw (create_lem, delete_lem idle, gone q, str_eq_refl (path_of ss.storage_path filename []))
        (refl, refl, refl, refl, refl)
