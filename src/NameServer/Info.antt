-- ===== src/NameServer/Info.antt =====
-- name_server/name_server.c: the request INFO of `run_client_loop`, with `acl_append_token` and `send_info_line`.
-- `format_time` is a parameter, as in `Listing`; every message is sent.
pub mod Readers
use distributed_documentatio.Base.{
  CText, ℕ, codes, Option, List, decimal, ◌∷◌, none, some, if◌then◌else◌, take, [], ◌++◌, not, ◌-◌,
}
use distributed_documentatio.Text.{safe_strcat}
use distributed_documentatio.Text.Digits.{int_text}
use distributed_documentatio.NameServer.Sharing.{with_file, max_field_size}
use distributed_documentatio.Acl.{Acl, same_user}
use distributed_documentatio.NameServer.State.{NameServer, is_empty}
use distributed_documentatio.NameServer.Listing.{time_or_none}
use distributed_documentatio.NameServer.Files.{FileMetadata, file_has_read_access}
use distributed_documentatio.Protocol.Replies.{
  Reply, answered, failed, err_permission_denied, err_invalid_request, err_internal_error,
  err_file_not_found,
}
use distributed_documentatio.Base.Int.{pos_part}
use distributed_documentatio.Names.{validate_filename}

abbrev pub or_none : CText → CText
or_none [] = codes "N/A"
or_none (c ∷ s) = c ∷ s

-- The buffer and `is_first`: `none` stands for a buffer to which nothing was appended.
unfoldable pub acl_append_token : Option CText → CText → Option CText
unfolding safe_strcat
acl_append_token buffer [] = buffer
acl_append_token none (c ∷ token) = some (take (max_field_size - 1) (c ∷ token))
acl_append_token (some buffer) (c ∷ token) =
    let comma = safe_strcat max_field_size buffer (codes ", ") in
    let separated : CText = elim comma [ none ↦ buffer | some longer ↦ longer ] in
    elim (safe_strcat max_field_size separated (c ∷ token)) [
      | none ↦ some separated
      | some longer ↦ some longer
    ]

-- The loop over the users of a list; the owner is left out.
unfoldable pub append_users : CText → Option CText → Acl → Option CText
unfolding acl_append_token
append_users owner buffer [] = buffer
append_users owner buffer (u ∷ users) =
    let with_user = append_users owner (acl_append_token buffer u) users in
    let without = append_users owner buffer users in
    if same_user u owner then without else with_user

-- The owner first, and then the list.
unfoldable pub access_list : CText → Acl → CText
unfolding append_users acl_append_token
access_list owner users = elim (append_users owner (acl_append_token none owner) users) [
  | none ↦ codes "None"
  | some list ↦ list
]

abbrev pub info_line : CText → List CText
info_line text = codes "INFO_LINE" ∷ take (max_field_size - 1) text ∷ []

unfoldable pub info_lines : (ℕ → CText) → FileMetadata → List (List CText)
unfolding int_text decimal time_or_none access_list
info_lines format_time file =
    (codes "OK_INFO_START" ∷ file.filename ∷ [])
    ∷ info_line (codes "Owner: " ++ or_none file.owner)
    ∷ info_line (codes "Size: " ++ (decimal (pos_part file.size) ++ codes " bytes"))
    ∷ info_line (codes "Words: " ++ int_text file.word_count)
    ∷ info_line (codes "Chars: " ++ int_text file.char_count)
    ∷ info_line (codes "Created: " ++ time_or_none format_time file.created)
    ∷ info_line (
        codes "--> Last Modified: "
        ++ (time_or_none format_time file.modified
            ++ (codes " by " ++ or_none file.last_modified_user)))
    ∷ info_line (
        codes "--> Last Accessed: "
        ++ (time_or_none format_time file.last_access
            ++ (codes " by " ++ or_none file.last_access_user)))
    ∷ info_line (
        codes "Access Rights: Read=["
        ++ (access_list file.owner file.read_access_users
            ++ (codes "]; Write=["
                ++ (access_list file.owner file.write_access_users ++ codes "]"))))
    ∷ (codes "OK_INFO_END" ∷ [])
    ∷ []

-- Once the file is found.
unfoldable pub show_file : (ℕ → CText) → CText → NameServer → ℕ → FileMetadata → Reply × NameServer
unfolding info_lines
show_file format_time user ns place file = (
  if file_has_read_access file user
      then answered (info_lines format_time file)
      else failed err_permission_denied (codes "User lacks read access for INFO."),
  ns,
)

unfoldable pub handle_info : (ℕ → CText) → CText → NameServer → List CText → Reply × NameServer
unfolding show_file with_file
handle_info format_time user ns (_ ∷ filename ∷ _) =
    if not (validate_filename filename)
    then (failed err_invalid_request (codes "Invalid filename requested for INFO."), ns)
    else if is_empty user
    then (failed err_internal_error (codes "Client identity unknown."), ns)
    else with_file ns filename (failed err_file_not_found (codes "File not found for INFO."))
        (show_file format_time user)
handle_info format_time user ns _ =
    (failed err_invalid_request (codes "Filename missing in INFO."), ns)
