-- ===== src/NameServer/Location.antt =====
-- name_server/name_server.c: the request REQ_LOC of `run_client_loop`, with which a client asks where a file is.
-- `now` is what `get_current_time` returns.
pub mod Found
pub mod Allowed
use distributed_documentatio.NameServer.Permissions.{equals_ignoring_case}
use distributed_documentatio.NameServer.Files.{
  file_has_write_access, FileMetadata, file_has_read_access,
}
use distributed_documentatio.Base.{
  CText, ℕ, Option, Bool, take, if◌then◌else◌, codes, List, none, ◌||◌, ◌-◌, ◌∷◌, not, some,
  decimal, false, [], true,
}
use distributed_documentatio.NameServer.Sync.{update_file}
use distributed_documentatio.NameServer.Sharing.{with_file}
use distributed_documentatio.Protocol.Replies.{
  Reply, answered, failed, err_invalid_request, err_permission_denied, err_internal_error,
  err_file_not_found,
}
use distributed_documentatio.NameServer.State.{NameServer, is_empty}
use distributed_documentatio.Acl.{max_username_length}
use distributed_documentatio.Names.{validate_filename}

-- Whether the operation needs the right to write, or the right to read; `none` if it is not known.
unfoldable pub needs_write : CText → Option Bool
unfolding equals_ignoring_case
needs_write operation =
    if is_empty operation || equals_ignoring_case operation (codes "READ")
    then some false
    else if equals_ignoring_case operation (codes "WRITE")
    then some true
    else if equals_ignoring_case operation (codes "STREAM")
    then some false
    else if equals_ignoring_case operation (codes "CHECKPOINT")
    then some true
    else if equals_ignoring_case operation (codes "REVERT")
    then some true
    else if equals_ignoring_case operation (codes "VIEWCHECKPOINT")
    then some false
    else if equals_ignoring_case operation (codes "LISTCHECKPOINTS")
    then some false
    else none

unfoldable pub has_right : FileMetadata → CText → Bool → Bool
unfolding file_has_write_access file_has_read_access
has_right file user write =
    if write then file_has_write_access file user else file_has_read_access file user

unfoldable pub modifies : CText → Bool
modifies operation =
    equals_ignoring_case operation (codes "WRITE")
    || equals_ignoring_case operation (codes "UNDO")
    || equals_ignoring_case operation (codes "CHECKPOINT")
    || equals_ignoring_case operation (codes "REVERT")

-- The access is recorded in the metadata.
unfoldable pub accessed_metadata : ℕ → CText → CText → FileMetadata → FileMetadata
unfolding modifies
accessed_metadata now user operation file =
    let read = record file {
      last_access_user = take (max_username_length - 1) user;
      last_access = now;
    } in
    if modifies operation
    then record read { last_modified_user = take (max_username_length - 1) user; modified = now }
    else read

unfoldable pub location_reply : FileMetadata → Reply
location_reply file =
    answered ((codes "OK_LOC" ∷ file.filename ∷ file.ss_ip ∷ decimal file.ss_port ∷ []) ∷ [])

-- From the check of the operation on.
unfoldable pub locate_file :
    ℕ → CText → CText → CText → NameServer → ℕ → FileMetadata → Reply × NameServer
unfolding needs_write has_right accessed_metadata update_file location_reply
locate_file now user operation filename ns place file = elim (needs_write operation) [
  | none ↦ (failed err_invalid_request (codes "Unsupported location request operation."), ns)
  | some write ↦
      if has_right file user write
      then (let accessed = accessed_metadata now user operation file in
          (
            location_reply accessed,
            record ns { registry = update_file ns.registry filename place accessed },
          ))
      else (failed err_permission_denied (codes "User lacks required access."), ns)
]

unfoldable pub locate : ℕ → CText → NameServer → CText → CText → Reply × NameServer
unfolding locate_file with_file
locate now user ns operation filename =
    if not (validate_filename filename)
    then (failed err_invalid_request (codes "Invalid filename requested."), ns)
    else if is_empty user
    then (failed err_internal_error (codes "Client identity unknown."), ns)
    else with_file ns filename (failed err_file_not_found (codes "Requested file not found."))
        (locate_file now user operation filename)

unfoldable pub handle_req_loc : ℕ → CText → NameServer → List CText → Reply × NameServer
unfolding locate
handle_req_loc now user ns (_ ∷ operation ∷ filename ∷ _) = locate now user ns operation filename
handle_req_loc now user ns (_ ∷ filename ∷ []) = locate now user ns (codes "READ") filename
handle_req_loc now user ns (_ ∷ []) =
    (failed err_invalid_request (codes "Filename missing in location request."), ns)
handle_req_loc now user ns [] =
    (failed err_invalid_request (codes "Filename missing in location request."), ns)
