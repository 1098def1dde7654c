-- ===== src/NameServer/Execution.antt =====
-- name_server/name_server.c: the request EXEC of `run_client_loop`. `ask` is `storage_server_send_and_wait`, from
-- the place of the storage server and the fields of the command; `run` is `popen`, from a shell command to what it
-- prints, or to NULL; `now` is what `get_current_time` returns. The name of a file fits the array that it is copied
-- to.
pub mod Readers
use distributed_documentatio.Text.{trim_string}
use distributed_documentatio.NameServer.Metadata.{get_lines}
use distributed_documentatio.Base.{
  CText, List, Option, ℕ, codes, ◌∷◌, none, [], if◌then◌else◌, str_eq, not, some, ◌-◌,
}
use distributed_documentatio.NameServer.State.{
  error_detail, NameServer, server_place, is_empty, holds_file,
}
use distributed_documentatio.NameServer.Sharing.{put_file, with_file, max_field_size}
use distributed_documentatio.Protocol.{
  protocol_parse_message, protocol_is_error, protocol_get_error_code,
}
use distributed_documentatio.Protocol.Replies.{
  Reply, failed, err_exec_failed, err_internal_error, answered, passed_on, err_permission_denied,
  err_invalid_request, err_file_not_found,
}
use distributed_documentatio.NameServer.Exchange.{Outcome, status, got}
use distributed_documentatio.NameServer.Files.{FileMetadata, file_has_read_access}
use distributed_documentatio.Names.{validate_filename}
use distributed_documentatio.NameServer.Copying.{touched}

-- The loop over the lines that are printed, and the end.
unfoldable pub exec_lines : List CText → List (List CText)
unfolding trim_string
exec_lines [] = (codes "OK_EXEC_END" ∷ []) ∷ []
exec_lines (line ∷ lines) = (codes "EXEC_OUT" ∷ trim_string line ∷ []) ∷ exec_lines lines

-- From the call of `popen` on.
unfoldable pub exec_output : (CText → Option CText) → CText → Reply
unfolding exec_lines get_lines
exec_output run file_content = elim (run file_content) [
  | none ↦ failed err_exec_failed (codes "Failed to execute command on server.")
  | some output ↦ answered (
      (codes "OK_EXEC_START" ∷ [])
      ∷ exec_lines (get_lines max_field_size (max_field_size - 1) output))
]

-- The fields of a response that is no error.
unfoldable pub exec_content : (CText → Option CText) → List CText → Reply
unfolding exec_output
exec_content run (f ∷ _ ∷ file_content ∷ _) =
    if str_eq f (codes "OK_CONTENT")
    then exec_output run file_content
    else failed err_internal_error (codes "Unexpected storage server payload for EXEC.")
exec_content run _ = failed err_internal_error (codes "Unexpected storage server payload for EXEC.")

-- What the response of the storage server leads to.
unfoldable pub exec_response : (CText → Option CText) → Outcome → Reply
unfolding exec_content error_detail protocol_parse_message protocol_is_error protocol_get_error_code
exec_response run (status n) =
    failed err_internal_error (codes "Failed to get file content from storage server.")
exec_response run (got m) =
    let content_msg = protocol_parse_message m.text in
    if protocol_is_error content_msg
    then passed_on (protocol_get_error_code content_msg) (error_detail content_msg)
    else exec_content run content_msg

-- Once the file is found.
unfoldable pub exec_file :
    (ℕ → List CText → Outcome)
    → (CText → Option CText)
    → ℕ
    → CText
    → NameServer
    → ℕ
    → FileMetadata
    → Reply × NameServer
unfolding exec_response put_file
exec_file ask run now user ns place file =
    if not (file_has_read_access file user)
    then (failed err_permission_denied (codes "User lacks read access for EXEC."), ns)
    else (
      elim (server_place (holds_file file) 0 ns.storage_servers) [
        | none ↦ failed err_internal_error (codes "Storage server for file is offline.")
        | some target ↦ exec_response run (ask target (codes "GET_CONTENT" ∷ file.filename ∷ []))
      ],
      put_file ns place (touched now user file),
    )

unfoldable pub handle_exec :
    (ℕ → List CText → Outcome)
    → (CText → Option CText)
    → ℕ
    → CText
    → NameServer
    → List CText
    → Reply × NameServer
unfolding exec_file with_file
handle_exec ask run now user ns (_ ∷ filename ∷ _) =
    if not (validate_filename filename)
    then (failed err_invalid_request (codes "Invalid filename."), ns)
    else if is_empty user
    then (failed err_internal_error (codes "Client identity unknown."), ns)
    else with_file ns filename (failed err_file_not_found (codes "File not found."))
        (exec_file ask run now user)
handle_exec ask run now user ns _ =
    (failed err_invalid_request (codes "Filename missing in EXEC."), ns)
