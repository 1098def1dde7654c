-- ===== src/NameServer/Deletion.antt =====
-- name_server/name_server.c: the request DELETE of `run_client_loop`, for a file, or for a folder with all that is
-- below it. `ask` is `storage_server_send_and_wait`, from the place of the storage server and the fields of the
-- command.
pub mod Plan
pub mod Removal
pub mod Exact
use distributed_documentatio.Base.{
  CText, ◌∷◌, ℕ, List, decimal, Bool, Option, if◌then◌else◌, codes, suc, none, str_eq, not, take,
  some, ◌++◌, ◌||◌, [], get_elem?, false, length, zero, ◌&&◌, ◌-◌, ltb, set, ◌==◌,
}
use distributed_documentatio.NameServer.Paths.{
  behind_prefix, ns_validate_logical_path, first_byte, slash,
}
use distributed_documentatio.NameServer.Files.{FileMetadata}
use distributed_documentatio.Protocol.Replies.{
  Reply, failed, err_permission_denied, err_invalid_request, err_internal_error, err_file_not_found,
  passed_on,
}
use distributed_documentatio.NameServer.State.{
  status_detail, NameServer, AccessRequest, error_detail, server_place, answers_with, is_empty,
  holds_file,
}
use distributed_documentatio.NameServer.Servers.{Servers, StorageServerInfo}
use distributed_documentatio.NameServer.Sharing.{with_file, ok_reply, max_field_size}
use distributed_documentatio.Protocol.{
  protocol_parse_message, protocol_is_error, protocol_get_error_code,
}
use distributed_documentatio.NameServer.Exchange.{Outcome, status, got}
use distributed_documentatio.NameServer.Registry.{remove_file_metadata_locked}
use distributed_documentatio.Base.Int.{pos_part, pos, negsuc, int_eq}
use distributed_documentatio.Acl.{same_user}

-- `DeletePlanEntry`; `ss` is the place of the storage server.
pub record DeletePlanEntry : Type 0 where
  pub path : CText
  pub is_directory : Bool
  pub ss : Option ℕ
  pub size : ℕ

-- strncmp(filename, target_path, prefix_len) == 0 && filename[prefix_len] == PATH_SEPARATOR
unfoldable pub is_below : CText → CText → Bool
unfolding behind_prefix
is_below target filename = elim (behind_prefix filename target) [
  | none ↦ false
  | some rest ↦ first_byte rest == slash
]

unfoldable pub matches : FileMetadata → CText → CText → Bool
unfolding is_below
matches target_meta target filename =
    str_eq filename target || target_meta.is_directory && is_below target filename

-- An error, or the entries to delete.
pub data Planned : Type 0 where
  stopped : Reply → Planned
  planned : List DeletePlanEntry → Planned

abbrev pub with_entry : DeletePlanEntry → Planned → Planned
with_entry entry (stopped e) = stopped e
with_entry entry (planned entries) = planned (entry ∷ entries)

abbrev pub plan_entry : FileMetadata → Option ℕ → DeletePlanEntry
plan_entry fm ss = record {
  path = fm.filename;
  is_directory = fm.is_directory;
  ss = ss;
  size = pos_part fm.size;
}

-- The loop over the files.
unfoldable pub make_plan : CText → FileMetadata → CText → Servers → List FileMetadata → Planned
unfolding matches
make_plan user target_meta target servers [] = planned []
make_plan user target_meta target servers (fm ∷ files) =
    let rest = make_plan user target_meta target servers files in
    if not (matches target_meta target fm.filename)
    then rest
    else if not (same_user fm.owner user)
    then stopped
        (failed err_permission_denied (codes "Delete requires ownership of all contained entries."))
    else if fm.is_directory
    then with_entry (plan_entry fm none) rest
    else elim (server_place (holds_file fm) 0 servers) [
      | none ↦ stopped (failed err_internal_error (codes "Storage server unavailable for delete."))
      | some s ↦ with_entry (plan_entry fm (some s)) rest
    ]

-- (detail[0] != '\0') ? detail : "Delete failed."
unfoldable pub detail_or_failed : CText → CText
detail_or_failed [] = codes "Delete failed."
detail_or_failed (c ∷ s) = take (max_field_size - 1) (c ∷ s)

-- The error that the response of a storage server stands for, if it does not say that the file is deleted.
unfoldable pub delete_error : Outcome → Option Reply
unfolding status_detail protocol_parse_message protocol_is_error protocol_get_error_code
    error_detail answers_with int_eq detail_or_failed
delete_error (status n) = some (failed err_internal_error (status_detail n))
delete_error (got m) =
    let fields = protocol_parse_message m.text in
    let code = protocol_get_error_code fields in
    let detail = detail_or_failed (error_detail fields) in
    if protocol_is_error fields
    then (if int_eq code (pos 0)
        then some (failed err_internal_error detail)
        else some (passed_on code detail))
    else if answers_with (codes "OK_DELETE") fields
    then none
    else some (failed err_internal_error (codes "Unexpected storage server response."))

-- The loop over the plan that deletes the files on their storage servers, up to the first error.
unfoldable pub delete_on_servers : (ℕ → List CText → Outcome) → List DeletePlanEntry → Option Reply
unfolding delete_error status_detail
delete_on_servers ask [] = none
delete_on_servers ask (entry ∷ plan) =
    let rest = delete_on_servers ask plan in
    if entry.is_directory then rest else elim entry.ss [
      | none ↦ some (failed err_internal_error (status_detail 1))
      | some s ↦ elim (delete_error (ask s (codes "DELETE_FILE" ∷ entry.path ∷ []))) [
        | some e ↦ some e
        | none ↦ rest
      ]
    ]

-- The last of the entries with the longest path, and the other ones.
unfoldable pub take_longest : List DeletePlanEntry → Option (DeletePlanEntry × List DeletePlanEntry)
take_longest [] = none
take_longest (entry ∷ plan) =
    let longest = take_longest plan in
    elim longest [
      | none ↦ some (entry, [])
      | some (best, rest) ↦
          if ltb (length best.path) (length entry.path)
          then some (entry, plan)
          else some (best, entry ∷ rest)
    ]

-- One file less on the storage server.
unfoldable pub less_load : ℕ → StorageServerInfo → StorageServerInfo
less_load size ss = record ss {
  total_files = elim ss.total_files [ pos n ↦ pos (n - 1) | negsuc n ↦ negsuc n ];
  total_bytes = if ltb 0 size then pos (pos_part ss.total_bytes - size) else ss.total_bytes;
}

unfoldable pub unload : DeletePlanEntry → Servers → Servers
unfolding less_load
unload entry servers = elim entry.ss [
  | none ↦ servers
  | some place ↦ elim (get_elem? servers place) [
    | none ↦ servers
    | some none ↦ servers
    | some (some ss) ↦ set servers place (some (less_load entry.size ss))
  ]
]

-- The requests for a deleted file are over.
unfoldable pub cancel_requests : CText → List AccessRequest → List AccessRequest
cancel_requests path [] = []
cancel_requests path (req ∷ requests) =
    (if str_eq req.filename path then record req { is_pending = false } else req)
    ∷ cancel_requests path requests

unfoldable pub remove_entry : DeletePlanEntry → NameServer → NameServer
unfolding unload cancel_requests
remove_entry entry ns =
    let (removed, registry) = remove_file_metadata_locked ns.registry entry.path in
    if removed
    then record ns {
      registry = registry;
      storage_servers = unload entry ns.storage_servers;
      access_requests = cancel_requests entry.path ns.access_requests;
    }
    else record ns { registry = registry }

-- The loop that removes the metadata; each round takes one entry off the plan.
unfoldable pub remove_entries : ℕ → List DeletePlanEntry → NameServer → NameServer
unfolding take_longest remove_entry
remove_entries zero plan ns = ns
remove_entries (suc rounds) plan ns = elim (take_longest plan) [
  | none ↦ ns
  | some (entry, rest) ↦ remove_entries rounds rest (remove_entry entry ns)
]

unfoldable pub deleted_reply : CText → List DeletePlanEntry → Reply
unfolding decimal
deleted_reply target (entry ∷ []) = ok_reply (codes "Entry '" ++ (target ++ codes "' deleted."))
deleted_reply target plan = ok_reply (
    codes "Deleted "
    ++ (decimal (length plan) ++ (codes " entries under '" ++ (target ++ codes "'."))))

-- Once the plan is made.
unfoldable pub carry_out :
    (ℕ → List CText → Outcome) → CText → List DeletePlanEntry → NameServer → Reply × NameServer
unfolding delete_on_servers remove_entries deleted_reply
carry_out ask target plan ns = elim (delete_on_servers ask plan) [
  | some e ↦ (e, ns)
  | none ↦ (deleted_reply target plan, remove_entries (length plan) plan ns)
]

-- What the loop over the files leads to.
unfoldable pub after_plan :
    (ℕ → List CText → Outcome) → CText → NameServer → Planned → Reply × NameServer
unfolding carry_out
after_plan ask target ns (stopped e) = (e, ns)
after_plan ask target ns (planned []) =
    (failed err_internal_error (codes "Delete plan was empty."), ns)
after_plan ask target ns (planned (entry ∷ plan)) = carry_out ask target (entry ∷ plan) ns

-- From the check of the owner on.
unfoldable pub delete_target :
    (ℕ → List CText → Outcome) → CText → CText → NameServer → ℕ → FileMetadata → Reply × NameServer
unfolding make_plan after_plan
delete_target ask user target ns place target_meta =
    if not (same_user target_meta.owner user)
    then (failed err_permission_denied (codes "Only the owner may delete this entry."), ns)
    else after_plan ask target ns
        (make_plan user target_meta target ns.storage_servers ns.registry.files)

unfoldable pub handle_delete :
    (ℕ → List CText → Outcome) → CText → NameServer → List CText → Reply × NameServer
unfolding delete_target with_file ns_validate_logical_path
handle_delete ask user ns (_ ∷ target ∷ _) =
    if not (ns_validate_logical_path target)
    then (failed err_invalid_request (codes "Invalid path requested for DELETE."), ns)
    else if is_empty user
    then (failed err_internal_error (codes "Client identity unknown."), ns)
    else with_file ns target (failed err_file_not_found (codes "Target path not found."))
        (delete_target ask user target)
handle_delete ask user ns _ = (failed err_invalid_request (codes "Usage: DELETE <path>"), ns)
