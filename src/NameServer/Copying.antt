-- ===== src/NameServer/Copying.antt =====
-- name_server/name_server.c: the request COPY of `run_client_loop`. `ask` is `storage_server_send_and_wait`, from the
-- place of the storage server and the fields of the command; `now` is what `get_current_time` returns.
pub mod Permitted
use distributed_documentatio.Protocol.Replies.{
  Reply, failed, err_internal_error, err_permission_denied, err_file_not_found, err_invalid_request,
}
use distributed_documentatio.Base.{
  decimal, CText, ℕ, List, Option, if◌then◌else◌, codes, take, get_elem?, some, ◌==◌, ◌∷◌, not,
  none, [], ◌-◌, ◌&&◌,
}
use distributed_documentatio.Protocol.{protocol_parse_message, protocol_is_error}
use distributed_documentatio.NameServer.Registry.{Registry, file_lookup_locked}
use distributed_documentatio.NameServer.Servers.{StorageServerInfo, alive_at}
use distributed_documentatio.NameServer.Files.{
  FileMetadata, file_has_read_access, file_has_write_access,
}
use distributed_documentatio.NameServer.State.{NameServer, server_place, holds_file, is_empty}
use distributed_documentatio.NameServer.Exchange.{Outcome, status, got}
use distributed_documentatio.Acl.{max_username_length}
use distributed_documentatio.NameServer.Sharing.{put_file}
use distributed_documentatio.Names.{validate_filename}

-- An error, or the response of the storage server, which is passed on as it is.
pub data CopyReply : Type 0 where
  refused : Reply → CopyReply
  forwarded : CText → CopyReply

-- The address of the source as the destination's storage server is told it.
unfoldable pub source_address : ℕ → ℕ → StorageServerInfo → CText × CText
unfolding decimal
source_address src_place dest_place src_ss =
    if src_place == dest_place
    then (codes "LOCAL", codes "0")
    else (src_ss.client_ip, decimal src_ss.client_port)

unfoldable pub copy_fields : CText → CText → CText → CText × CText → List CText
copy_fields user src_name dest_name (ip, port) =
    codes "SS_COPY" ∷ dest_name ∷ ip ∷ port ∷ src_name ∷ user ∷ []

-- The access to the source is recorded.
abbrev pub touched : ℕ → CText → FileMetadata → FileMetadata
touched now user file = record file {
  last_access = now;
  last_access_user = take (max_username_length - 1) user;
}

-- The source's metadata once the copy is made.
unfoldable pub record_access : ℕ → CText → ℕ → NameServer → NameServer
record_access now user src_idx ns = elim (get_elem? ns.registry.files src_idx) [
  | none ↦ ns
  | some file ↦ put_file ns src_idx (touched now user file)
]

-- What the response of the storage server leads to.
unfoldable pub finish_copy : ℕ → CText → ℕ → NameServer → Outcome → CopyReply × NameServer
unfolding record_access protocol_parse_message protocol_is_error
finish_copy now user src_idx ns (status n) =
    (refused (failed err_internal_error (codes "Copy failed on Storage Server")), ns)
finish_copy now user src_idx ns (got m) = (
  forwarded m.text,
  if protocol_is_error (protocol_parse_message m.text)
      then ns
      else record_access now user src_idx ns,
)

-- From the search of the storage servers on.
unfoldable pub copy_between :
    (ℕ → List CText → Outcome)
    → ℕ
    → CText
    → CText
    → CText
    → NameServer
    → ℕ
    → FileMetadata
    → FileMetadata
    → CopyReply × NameServer
unfolding finish_copy copy_fields source_address
copy_between ask now user src_name dest_name ns src_idx src_file dest_file =
    elim (server_place (holds_file dest_file) 0 ns.storage_servers) [
      | none ↦
          (refused (failed err_internal_error (codes "Destination storage server offline")), ns)
      | some dest_place ↦ elim (server_place (holds_file src_file) 0 ns.storage_servers) [
        | none ↦ (refused (failed err_internal_error (codes "Source storage server offline")), ns)
        | some src_place ↦ elim (alive_at ns.storage_servers src_place) [
          | none ↦ (refused (failed err_internal_error (codes "Source storage server offline")), ns)
          | some src_ss ↦ finish_copy now user src_idx ns (
              ask dest_place
                (copy_fields user src_name dest_name (source_address src_place dest_place src_ss)))
        ]
      ]
    ]

-- The checks of the rights.
unfoldable pub copy_checked :
    (ℕ → List CText → Outcome)
    → ℕ
    → CText
    → CText
    → CText
    → NameServer
    → ℕ
    → FileMetadata
    → FileMetadata
    → CopyReply × NameServer
unfolding copy_between
copy_checked ask now user src_name dest_name ns src_idx src_file dest_file =
    if not (file_has_read_access src_file user)
    then (refused (failed err_permission_denied (codes "No read access to source")), ns)
    else if not (file_has_write_access dest_file user)
    then (refused (failed err_permission_denied (codes "No write access to destination")), ns)
    else copy_between ask now user src_name dest_name ns src_idx src_file dest_file

-- The file that a lookup returns, with its place.
unfoldable pub file_at : Registry → Option ℕ → Option (ℕ × FileMetadata)
file_at registry none = none
file_at registry (some place) = elim (get_elem? registry.files place) [
  | none ↦ none
  | some file ↦ some (place, file)
]

-- Both lookups, and what they find.
unfoldable pub copy_file :
    (ℕ → List CText → Outcome) → ℕ → CText → CText → CText → NameServer → CopyReply × NameServer
unfolding copy_checked file_at
copy_file ask now user src_name dest_name ns =
    let (src, once) = file_lookup_locked ns.registry src_name in
    let (dest, twice) = file_lookup_locked once dest_name in
    let looked = record ns { registry = twice } in
    elim (file_at once src) [
      | none ↦ (refused (failed err_file_not_found (codes "Source file not found")), looked)
      | some (src_idx, src_file) ↦ elim (file_at twice dest) [
        | none ↦ (
          refused
              (failed err_file_not_found (codes "Destination file not found (create it first)")),
          looked,
        )
        | some (_, dest_file) ↦
            copy_checked ask now user src_name dest_name looked src_idx src_file dest_file
      ]
    ]

unfoldable pub handle_copy :
    (ℕ → List CText → Outcome) → ℕ → CText → NameServer → List CText → CopyReply × NameServer
unfolding copy_file
handle_copy ask now user ns (_ ∷ src_name ∷ dest_name ∷ _) =
    if not (validate_filename src_name && validate_filename dest_name)
    then (refused (failed err_invalid_request (codes "Invalid filename(s) for COPY.")), ns)
    else if is_empty user
    then (refused (failed err_internal_error (codes "Client identity unknown.")), ns)
    else copy_file ask now user src_name dest_name ns
handle_copy ask now user ns _ =
    (refused (failed err_invalid_request (codes "Usage: COPY <source> <dest>")), ns)
