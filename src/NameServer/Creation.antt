-- ===== src/NameServer/Creation.antt =====
-- name_server/name_server.c: the requests CREATE and CREATEFOLDER of `run_client_loop`. `ask` is
-- `storage_server_send_and_wait`, from the place of the storage server and the fields of the command; `now` is what
-- `get_current_time` returns. A handler runs here as if no other did meanwhile.
pub mod Files
pub mod Exact
pub mod Folders
use distributed_documentatio.Base.Int.{ℤ, pos, negsuc}
use distributed_documentatio.Base.{
  ℕ, CText, List, ◌+◌, Bool, Option, set, suc, some, take, if◌then◌else◌, false, none, leb, ◌∷◌,
  zero, ◌-◌, not, codes, [], ◌++◌, length, get_elem?, true, ◌==◌,
}
use distributed_documentatio.NameServer.Registry.{
  Registry, register_file, remove_file_metadata_locked, file_lookup_locked,
}
use distributed_documentatio.NameServer.Paths.{ns_split_parent_child, ns_validate_logical_path}
use distributed_documentatio.NameServer.Servers.{
  StorageServerInfo, Servers, ns_select_storage_server_balanced, alive_at,
}
use distributed_documentatio.NameServer.Exchange.{Outcome}
use distributed_documentatio.NameServer.State.{
  NameServer, is_open, response_error, ns_max_files, max_ip_length, is_empty,
}
use distributed_documentatio.NameServer.Files.{FileMetadata}
use distributed_documentatio.Protocol.Replies.{
  Reply, failed, err_internal_error, err_file_not_found, err_invalid_request, err_file_exists,
}
use distributed_documentatio.NameServer.Index.{max_filename_length}
use distributed_documentatio.NameServer.Sharing.{ok_reply}
use distributed_documentatio.Acl.{max_username_length}
use distributed_documentatio.Names.{validate_filename}

-- The total of files of a storage server is one higher.
abbrev pub plus_one : ℤ → ℤ
plus_one (pos n) = pos (n + 1)
plus_one (negsuc zero) = pos 0
plus_one (negsuc (suc n)) = negsuc n

unfoldable pub count_file : ℕ → StorageServerInfo → Servers → Servers
count_file place target servers =
    set servers place (some (record target { total_files = plus_one target.total_files }))

-- The metadata that is made for a file or a folder.
unfoldable pub new_metadata : ℕ → CText → CText → CText → ℕ → Bool → FileMetadata
new_metadata now filename user ip port is_directory = record {
  filename = take (max_filename_length - 1) filename;
  owner = take (max_username_length - 1) user;
  ss_ip = take (max_ip_length - 1) ip;
  ss_port = port;
  size = pos 0;
  word_count = pos 0;
  char_count = pos 0;
  is_directory = is_directory;
  created = now;
  modified = now;
  last_access = now;
  last_access_user = take (max_username_length - 1) user;
  last_modified_user = take (max_username_length - 1) user;
  read_access_users = [];
  write_access_users = [];
}

-- The command to the storage server that was chosen, and the error that stands for its failure.
unfoldable pub create_failure :
    (ℕ → List CText → Outcome) → CText → CText → ℕ → StorageServerInfo → Option Reply
create_failure ask user filename place target =
    if is_open target.sockfd
    then response_error (codes "OK_CREATE") (ask place (codes "CREATE_FILE" ∷ filename ∷ user ∷ []))
    else some (failed err_internal_error (codes "Storage server socket unavailable."))

-- From the metadata on: a file that the storage server does not create is removed again.
unfoldable pub create_on :
    (ℕ → List CText → Outcome)
    → ℕ
    → CText
    → CText
    → NameServer
    → ℕ
    → StorageServerInfo
    → Reply × NameServer
create_on ask now user filename ns place target =
    let file = new_metadata now filename user target.client_ip target.client_port false in
    let registered = register_file ns.registry file in
    elim (create_failure ask user filename place target) [
      | some e ↦ (e, record ns { registry = (remove_file_metadata_locked registered filename).1 })
      | none ↦ (
        ok_reply (codes "File '" ++ (filename ++ codes "' created successfully.")),
        record ns {
          registry = registered;
          storage_servers = count_file place target ns.storage_servers;
        },
      )
    ]

-- The choice of a storage server.
unfoldable pub create_somewhere :
    (ℕ → List CText → Outcome) → ℕ → CText → CText → NameServer → Reply × NameServer
unfolding create_on
create_somewhere ask now user filename ns =
    let (chosen, servers, turn) =
      ns_select_storage_server_balanced ns.storage_servers ns.ss_round_robin_index in
    let selected = record ns { storage_servers = servers; ss_round_robin_index = turn } in
    let nowhere = failed err_internal_error (codes "No alive storage servers available.") in
    elim chosen [
      | none ↦ (nowhere, selected)
      | some place ↦ elim (alive_at servers place) [
        | none ↦ (nowhere, selected)
        | some target ↦ create_on ask now user filename selected place target
      ]
    ]

-- From the check of the number of files on.
unfoldable pub create_file :
    (ℕ → List CText → Outcome) → ℕ → CText → CText → NameServer → Reply × NameServer
unfolding create_somewhere
create_file ask now user filename ns =
    if leb ns_max_files (length ns.registry.files)
    then (failed err_internal_error (codes "Maximum file limit reached."), ns)
    else (let (found, registry) = file_lookup_locked ns.registry filename in
        let looked = record ns { registry = registry } in
        elim found [
          | some _ ↦ (failed err_file_exists (codes "File already exists."), looked)
          | none ↦
              if length ns.storage_servers == 0
              then (failed err_internal_error (codes "No storage servers available."), looked)
              else create_somewhere ask now user filename looked
        ])

unfoldable pub handle_create :
    (ℕ → List CText → Outcome) → ℕ → CText → NameServer → List CText → Reply × NameServer
unfolding create_file
handle_create ask now user ns (_ ∷ filename ∷ _) =
    if not (validate_filename filename)
    then (failed err_invalid_request (codes "Invalid filename requested for CREATE."), ns)
    else if is_empty user
    then (failed err_internal_error (codes "Client identity unknown."), ns)
    else create_file ask now user filename ns
handle_create ask now user ns _ =
    (failed err_invalid_request (codes "Filename missing in CREATE."), ns)

-- Whether the parent of a new folder will do; the root has no entry.
unfoldable pub parent_error : Registry → CText → Option Reply × Registry
parent_error registry [] = (none, registry)
parent_error registry (c ∷ parent) =
    let (found, looked) = file_lookup_locked registry (c ∷ parent) in
    let missing = failed err_file_not_found (codes "Parent folder does not exist.") in
    elim found [
      | none ↦ (some missing, looked)
      | some place ↦ elim (get_elem? looked.files place) [
        | none ↦ (some missing, looked)
        | some meta ↦
            if meta.is_directory
            then (none, looked)
            else (some (failed err_invalid_request (codes "Parent path is not a folder.")), looked)
      ]
    ]

-- From the lookup of the parent on.
unfoldable pub folder_below : ℕ → CText → CText → CText → NameServer → Reply × NameServer
unfolding parent_error new_metadata
folder_below now user path parent ns =
    let (refused, registry) = parent_error ns.registry parent in
    elim refused [
      | some e ↦ (e, record ns { registry = registry })
      | none ↦ (
        ok_reply (codes "Folder created."),
        record ns { registry = register_file registry (new_metadata now path user [] 0 true) },
      )
    ]

-- From the check of the number of files on.
unfoldable pub create_folder : ℕ → CText → CText → NameServer → Reply × NameServer
unfolding folder_below ns_split_parent_child
create_folder now user path ns =
    if leb ns_max_files (length ns.registry.files)
    then (failed err_internal_error (codes "Maximum file limit reached."), ns)
    else (let (found, registry) = file_lookup_locked ns.registry path in
        let looked = record ns { registry = registry } in
        elim found [
          | some _ ↦ (failed err_file_exists (codes "Path already exists."), looked)
          | none ↦ elim (ns_split_parent_child max_filename_length max_filename_length path) [
            | none ↦ (failed err_invalid_request (codes "Unable to resolve parent folder."), looked)
            | some (parent, _) ↦ folder_below now user path parent looked
          ]
        ])

unfoldable pub handle_createfolder : ℕ → CText → NameServer → List CText → Reply × NameServer
unfolding create_folder ns_validate_logical_path
handle_createfolder now user ns (_ ∷ path ∷ _) =
    if not (ns_validate_logical_path path)
    then (failed err_invalid_request (codes "Invalid path format."), ns)
    else if is_empty user
    then (failed err_internal_error (codes "Client identity unknown."), ns)
    else create_folder now user path ns
handle_createfolder now user ns _ =
    (failed err_invalid_request (codes "Usage: CREATEFOLDER <path>"), ns)
