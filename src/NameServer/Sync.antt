-- ===== src/NameServer/Sync.antt =====
-- name_server/name_server.c: `run_ss_loop`: the messages SS_HAS_FILE and SS_FILES_DONE, with which a storage server
-- lists its files when it connects, and WRITE_COMPLETE. `now` is what `get_current_time` returns; a message that a
-- waiting thread takes, in `Exchange`, is not seen here.
pub mod Listed
pub mod Totals
use distributed_documentatio.Base.{
  ◌∷◌, ℕ, List, CText, Option, get_elem?, if◌then◌else◌, take, Bool, none, length, some, strn_eq,
  ◌-◌, set, leb, [], ◌&&◌, false, ◌==◌, codes, not,
}
use distributed_documentatio.NameServer.Registry.{Registry, register_file}
use distributed_documentatio.NameServer.Connections.{ns_recalculate_server_load_locked}
use distributed_documentatio.NameServer.Files.{FileMetadata}
use distributed_documentatio.NameServer.Servers.{StorageServerInfo}
use distributed_documentatio.NameServer.State.{NameServer, is_empty, max_ip_length, ns_max_files}
use distributed_documentatio.Base.Int.{ℤ, pos, pos_part, ◌+ℤ◌, negated}
use distributed_documentatio.NameServer.Cache.{file_cache_store}
use distributed_documentatio.NameServer.Index.{file_index_find, max_filename_length}
use distributed_documentatio.Protocol.Replies.{
  Reply, failed, err_internal_error, err_invalid_request,
}
use distributed_documentatio.Text.Digits.{read_int}
use distributed_documentatio.Acl.{max_username_length}
use distributed_documentatio.NameServer.Csv.{file_acl_parse_csv}
use distributed_documentatio.Names.{validate_filename, validate_username}

-- atoll(fields[n]), or 0 if there is no such field
unfoldable pub number_at : ℕ → List CText → ℤ
number_at n fields = elim (get_elem? fields n) [ none ↦ pos 0 | some field ↦ read_int field ]

-- What an SS_HAS_FILE says of a file, over the metadata that is there.
unfoldable pub listed_metadata :
    ℕ → StorageServerInfo → CText → CText → CText → List CText → FileMetadata → FileMetadata
listed_metadata now ss owner readers writers fields file = record file {
  owner = if is_empty owner then file.owner else take (max_username_length - 1) owner;
  ss_ip = take (max_ip_length - 1) ss.client_ip;
  ss_port = ss.client_port;
  modified = now;
  size = number_at 5 fields;
  word_count = number_at 6 fields;
  char_count = number_at 7 fields;
  read_access_users = file_acl_parse_csv readers;
  write_access_users = file_acl_parse_csv writers;
}

-- The metadata of a file that is new, before it is filled in.
abbrev pub blank_metadata : ℕ → CText → FileMetadata
blank_metadata now filename = record {
  filename = take (max_filename_length - 1) filename;
  owner = [];
  ss_ip = [];
  ss_port = 0;
  size = pos 0;
  word_count = pos 0;
  char_count = pos 0;
  is_directory = false;
  created = now;
  modified = now;
  last_access = 0;
  last_access_user = [];
  last_modified_user = [];
  read_access_users = [];
  write_access_users = [];
}

-- The file at its place is changed, and stored in the cache.
unfoldable pub update_file : Registry → CText → ℕ → FileMetadata → Registry
update_file ns filename place file =
    let (entries, tick) =
      file_cache_store filename place (length ns.files) ns.cache_tick ns.cache in
    record ns { files = set ns.files place file; cache = entries; cache_tick = tick }

-- The file that the index has for the name, with its place.
unfoldable pub indexed_file : Registry → CText → Option (ℕ × FileMetadata)
indexed_file ns filename = elim (file_index_find ns.index filename) [
  | none ↦ none
  | some place ↦ elim (get_elem? ns.files place) [ none ↦ none | some file ↦ some (place, file) ]
]

-- From the search of the file on; the error is sent to the storage server.
unfoldable pub list_file :
    ℕ
    → StorageServerInfo
    → CText
    → CText
    → CText
    → CText
    → List CText
    → Registry
    → Option Reply × Registry
unfolding indexed_file update_file listed_metadata
list_file now ss filename owner readers writers fields ns = elim (indexed_file ns filename) [
  | some (place, file) ↦ (
    none,
    update_file ns filename place (listed_metadata now ss owner readers writers fields file),
  )
  | none ↦
      if leb ns_max_files (length ns.files)
      then (some (failed err_internal_error (codes "Maximum file limit reached.")), ns)
      else (
        none,
        register_file ns
            (listed_metadata now ss owner readers writers fields (blank_metadata now filename)),
      )
]

-- `server` is the entry of the connection.
unfoldable pub handle_ss_has_file :
    ℕ → Option StorageServerInfo → Registry → List CText → Option Reply × Registry
unfolding list_file
handle_ss_has_file now server ns (command ∷ filename ∷ owner ∷ readers ∷ writers ∷ rest) =
    if not (validate_filename filename)
    then (
      some (failed err_invalid_request (codes "Invalid filename received from storage server.")),
      ns,
    )
    else if not (is_empty owner) && not (validate_username owner)
    then (
      some (failed err_invalid_request (codes "Invalid owner received from storage server.")),
      ns,
    )
    else elim server [
      | none ↦
          (some (failed err_internal_error (codes "Unknown storage server during file sync.")), ns)
      | some ss ↦
          list_file now ss filename owner readers writers
            (command ∷ filename ∷ owner ∷ readers ∷ writers ∷ rest) ns
    ]
handle_ss_has_file now server ns _ =
    (some (failed err_invalid_request (codes "Incomplete SS_HAS_FILE message.")), ns)

-- The totals of the storage server are counted from its files.
unfoldable pub handle_ss_files_done : ℕ → NameServer → NameServer
unfolding ns_recalculate_server_load_locked
handle_ss_files_done place ns = elim (get_elem? ns.storage_servers place) [
  | none ↦ ns
  | some none ↦ ns
  | some (some ss) ↦ record ns {
    storage_servers =
        set ns.storage_servers place
          (some (ns_recalculate_server_load_locked ns.registry.files ss));
  }
]

-- strncmp(file->ss_ip, ss->client_ip, MAX_IP_LENGTH) == 0 && file->ss_port == ss->client_port
unfoldable pub is_on_server : FileMetadata → StorageServerInfo → Bool
is_on_server file ss =
    strn_eq max_ip_length file.ss_ip ss.client_ip && file.ss_port == ss.client_port

-- The total of bytes changes with the size of a file of the server, and does not become negative.
unfoldable pub shift_bytes : FileMetadata → ℤ → StorageServerInfo → StorageServerInfo
unfolding is_on_server
shift_bytes file size ss =
    if is_on_server file ss
    then record ss { total_bytes = pos (pos_part (ss.total_bytes +ℤ (size +ℤ negated file.size))) }
    else ss

unfoldable pub completed_metadata : ℕ → List CText → FileMetadata → FileMetadata
completed_metadata now fields file = record file {
  size = number_at 2 fields;
  word_count = number_at 3 fields;
  char_count = number_at 4 fields;
  modified = now;
}

-- A file that was written; `place` is the entry of the connection.
unfoldable pub complete_write : ℕ → ℕ → CText → List CText → NameServer → NameServer
unfolding indexed_file update_file shift_bytes completed_metadata number_at
complete_write now place filename fields ns = elim (indexed_file ns.registry filename) [
  | none ↦ ns
  | some (i, file) ↦
      let registry = update_file ns.registry filename i (completed_metadata now fields file) in
      elim (get_elem? ns.storage_servers place) [
        | none ↦ record ns { registry = registry }
        | some none ↦ record ns { registry = registry }
        | some (some ss) ↦ record ns {
          registry = registry;
          storage_servers =
              set ns.storage_servers place (some (shift_bytes file (number_at 2 fields) ss));
        }
      ]
]

unfoldable pub handle_write_complete : ℕ → ℕ → NameServer → List CText → NameServer
unfolding complete_write
handle_write_complete now place ns (command ∷ filename ∷ size ∷ words ∷ chars ∷ rest) =
    complete_write now place filename (command ∷ filename ∷ size ∷ words ∷ chars ∷ rest) ns
handle_write_complete now place ns _ = ns
