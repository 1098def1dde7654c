-- ===== src/NameServer/Listing.antt =====
-- name_server/name_server.c: the requests VIEW and VIEWFOLDER of `run_client_loop`, which list files.
-- `format_time`, which writes a time in the time zone of the machine, is a parameter.
pub mod Visible
pub mod Children
use distributed_documentatio.Base.{
  Bool, ℕ, List, CText, Option, if◌then◌else◌, false, not, some, true, ltb, codes, ◌∷◌, ◌==◌, [],
  str_eq, none, ◌||◌, ◌&&◌,
}
use distributed_documentatio.Acl.{file_acl_contains, same_user}
use distributed_documentatio.Text.Digits.{int_text}
use distributed_documentatio.NameServer.Paths.{behind_prefix, ns_normalize_destination, slash}
use distributed_documentatio.NameServer.Sharing.{with_file}
use distributed_documentatio.NameServer.Files.{FileMetadata}
use distributed_documentatio.NameServer.State.{NameServer, is_empty}
use distributed_documentatio.Protocol.Replies.{
  Reply, answered, failed, err_invalid_request, err_file_not_found, err_internal_error,
}
use distributed_documentatio.NameServer.Index.{max_filename_length}

-- The flags: all files, and their details.
unfoldable pub read_flags : Bool → Bool → CText → Option (Bool × Bool)
read_flags request_all request_details [] = some (request_all, request_details)
read_flags request_all request_details (c ∷ flags) =
    let skipped = read_flags request_all request_details flags in
    let all_files = read_flags true request_details flags in
    let details = read_flags request_all true flags in
    if c == b'-' || c == b' ' || c == 9
    then skipped
    else if c == b'a' || c == b'A'
    then all_files
    else if c == b'l' || c == b'L'
    then details
    else none

unfoldable pub has_access : Bool → CText → FileMetadata → Bool
unfolding file_acl_contains
has_access request_all user file =
    if request_all
    then true
    else if same_user file.owner user
    then true
    else if file_acl_contains file.read_access_users user
    then true
    else file_acl_contains file.write_access_users user

unfoldable pub time_or_none : (ℕ → CText) → ℕ → CText
time_or_none format_time time = if ltb 0 time then format_time time else codes "N/A"

unfoldable pub view_fields : (ℕ → CText) → Bool → FileMetadata → List CText
unfolding time_or_none int_text
view_fields format_time request_details file =
    if request_details
    then codes "OK_VIEW_L"
      ∷ file.filename
      ∷ file.owner
      ∷ int_text file.word_count
      ∷ int_text file.char_count
      ∷ time_or_none format_time file.created
      ∷ time_or_none format_time file.modified
      ∷ []
    else codes "OK_VIEW_L" ∷ file.filename ∷ []

-- The loop over the files.
unfoldable pub view_lines :
    (ℕ → CText) → Bool → Bool → CText → List FileMetadata → List (List CText)
unfolding has_access view_fields
view_lines format_time request_all request_details user [] = (codes "OK_VIEW_END" ∷ []) ∷ []
view_lines format_time request_all request_details user (file ∷ files) =
    let rest = view_lines format_time request_all request_details user files in
    if has_access request_all user file
    then view_fields format_time request_details file ∷ rest
    else rest

-- The flags of a request; there may be none.
unfoldable pub view_flags : List CText → CText
view_flags (_ ∷ flags ∷ _) = flags
view_flags _ = []

unfoldable pub handle_view : (ℕ → CText) → CText → NameServer → List CText → Reply
unfolding read_flags view_flags view_lines
handle_view format_time user ns fields = elim (read_flags false false (view_flags fields)) [
  | none ↦ failed err_invalid_request (codes "Unsupported VIEW flag.")
  | some (request_all, request_details) ↦
      if is_empty user
      then failed err_internal_error (codes "Client identity unknown.")
      else answered (view_lines format_time request_all request_details user ns.registry.files)
]

-- strchr(text, PATH_SEPARATOR)
unfoldable pub has_slash : CText → Bool
has_slash [] = false
has_slash (c ∷ s) = c == slash || has_slash s

-- What follows the folder's name is a slash and one more name.
unfoldable pub is_remainder : CText → Bool
unfolding has_slash
is_remainder [] = false
is_remainder (c ∷ remainder) = c == slash && not (is_empty remainder) && not (has_slash remainder)

-- The entry lies in the folder itself; the empty path is the root.
unfoldable pub lies_in : CText → CText → Bool
unfolding behind_prefix is_remainder has_slash
lies_in [] filename = not (has_slash filename)
lies_in (f ∷ folder) filename =
    if str_eq filename (f ∷ folder)
    then false
    else elim (behind_prefix filename (f ∷ folder)) [ none ↦ false | some rest ↦ is_remainder rest ]

unfoldable pub folder_lines : CText → List FileMetadata → List (List CText)
unfolding lies_in
folder_lines folder [] = (codes "OK_VIEWFOLDER_END" ∷ []) ∷ []
folder_lines folder (file ∷ files) =
    let rest = folder_lines folder files in
    if lies_in folder file.filename
    then (codes "OK_VIEWFOLDER" ∷ file.filename ∷ []) ∷ rest
    else rest

-- From the search of the folder on; the root is always there.
unfoldable pub view_path : NameServer → CText → Reply × NameServer
unfolding folder_lines with_file
view_path ns [] = (answered (folder_lines [] ns.registry.files), ns)
view_path ns (c ∷ path) =
    with_file ns (c ∷ path) (failed err_file_not_found (codes "Folder not found."))
      (λ looked place folder. (
        if folder.is_directory
            then answered (folder_lines (c ∷ path) looked.registry.files)
            else failed err_invalid_request (codes "Requested path is not a folder."),
        looked,
      ))

unfoldable pub handle_viewfolder : NameServer → List CText → Reply × NameServer
unfolding view_path ns_normalize_destination
handle_viewfolder ns (_ ∷ input_path ∷ _) =
    elim (ns_normalize_destination max_filename_length input_path) [
      | none ↦ (failed err_invalid_request (codes "Invalid folder path."), ns)
      | some path ↦ view_path ns path
    ]
handle_viewfolder ns _ = (failed err_invalid_request (codes "Usage: VIEWFOLDER <path>"), ns)
