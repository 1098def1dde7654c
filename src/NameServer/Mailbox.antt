-- ===== src/NameServer/Mailbox.antt =====
-- name_server/name_server.c: the requests REQUESTACCESS, LISTREQUESTS, APPROVEACCESS and REJECTACCESS of
-- `run_client_loop`, over the array `access_requests`. `ask` is as in `Sharing`, and a handler runs as if no
-- other did meanwhile. The counter for the numbers does not overflow.
pub mod Numbers
pub mod Decided
pub mod Deleted
pub mod Later
pub mod Decisions
pub mod Rollback
use distributed_documentatio.NameServer.State.{
  NameServer, AccessRequest, server_place, is_empty, ns_max_access_requests,
}
use distributed_documentatio.NameServer.Sharing.{put_file, with_file, ok_reply, perm_token}
use distributed_documentatio.NameServer.Files.{FileMetadata, file_add_access, file_remove_access}
use distributed_documentatio.NameServer.Permissions.{parse_permission_flags}
use distributed_documentatio.NameServer.Exchange.{Outcome, got, status}
use distributed_documentatio.Protocol.{protocol_parse_message, protocol_is_error}
use distributed_documentatio.Protocol.Replies.{
  Reply, failed, answered, err_invalid_request, err_file_not_found, err_internal_error,
}
use distributed_documentatio.Text.Digits.{read_int, int_text}
use distributed_documentatio.Names.{validate_filename}
use distributed_documentatio.Acl.{max_username_length}
use distributed_documentatio.Base.{
  CText, ℕ, Option, Bool, List, if◌then◌else◌, set, some, codes, leb, ◌&&◌, ◌∷◌, none, str_eq, true,
  length, not, ◌+◌, ◌==◌, [], false, ◌++◌, ◌||◌, take, ◌-◌,
}
use distributed_documentatio.Base.Int.{int_eq, ℤ, pos}
use distributed_documentatio.NameServer.Servers.{StorageServerInfo}
use distributed_documentatio.NameServer.Index.{max_filename_length}

-- A request is put behind the others.
unfoldable pub submit_request :
    CText → Bool → Bool → CText → NameServer → ℕ → FileMetadata → Reply × NameServer
submit_request user r w filename ns place file =
    if leb ns_max_access_requests (length ns.access_requests)
    then (failed err_internal_error (codes "Request queue is full."), ns)
    else (
      ok_reply (codes "Access request submitted."),
      record ns {
        access_requests =
            ns.access_requests
            ++ record {
              id = pos ns.next_request_id;
              filename = take (max_filename_length - 1) filename;
              from_user = take (max_username_length - 1) user;
              to_user = take (max_username_length - 1) file.owner;
              grant_read = r;
              grant_write = w;
              is_pending = true;
            }
              ∷ [];
        next_request_id = ns.next_request_id + 1;
      },
    )

unfoldable pub handle_request_access : CText → NameServer → List CText → Reply × NameServer
unfolding submit_request with_file
handle_request_access user ns (_ ∷ filename ∷ perm ∷ _) =
    if not (validate_filename filename)
    then (failed err_invalid_request (codes "Invalid filename."), ns)
    else elim (parse_permission_flags perm) [
      | none ↦ (failed err_invalid_request (codes "Permission must be R or W."), ns)
      | some (r, w) ↦
          if not (r || w)
          then (failed err_invalid_request (codes "Permission must be R or W."), ns)
          else with_file ns filename (failed err_file_not_found (codes "File not found."))
              (submit_request user r w filename)
    ]
handle_request_access user ns _ =
    (failed err_invalid_request (codes "Usage: REQUESTACCESS <filename> <R|W>"), ns)

unfoldable pub permission_text : AccessRequest → CText
permission_text req =
    if req.grant_write && req.grant_read
    then codes "Read & Write"
    else if req.grant_write
    then codes "Write"
    else codes "Read"

-- The messages of the loop, and the last one.
unfoldable pub request_lines : CText → List AccessRequest → List (List CText)
unfolding permission_text int_text
request_lines user [] = (codes "OK_REQUEST_LIST_END" ∷ []) ∷ []
request_lines user (req ∷ requests) =
    let rest = request_lines user requests in
    if not req.is_pending || not (str_eq req.to_user user)
    then rest
    else (codes "OK_REQUEST_LIST"
        ∷ int_text req.id
        ∷ req.filename
        ∷ req.from_user
        ∷ permission_text req
        ∷ [])
      ∷ rest

unfoldable pub handle_list_requests : CText → NameServer → Reply × NameServer
unfolding request_lines
handle_list_requests user ns = (answered (request_lines user ns.access_requests), ns)

-- The first request of that number, with its place.
unfoldable pub find_request : ℤ → ℕ → List AccessRequest → Option (ℕ × AccessRequest)
unfolding int_eq
find_request id i [] = none
find_request id i (req ∷ requests) =
    if int_eq req.id id then some (i, req) else find_request id (i + 1) requests

-- A request is written through a pointer.
unfoldable pub put_request : NameServer → ℕ → AccessRequest → NameServer
put_request ns place req = record ns { access_requests = set ns.access_requests place req }

-- strcmp(candidate->client_ip, file->ss_ip) == 0 && candidate->client_port == file->ss_port
unfoldable pub serves_file : FileMetadata → StorageServerInfo → Bool
serves_file file candidate =
    str_eq candidate.client_ip file.ss_ip && candidate.client_port == file.ss_port

-- The error that the response stands for, if it is one.
unfoldable pub approval_error : Outcome → Option Reply
unfolding protocol_parse_message protocol_is_error
approval_error (status n) =
    some (failed err_internal_error (codes "Storage server failed to update ACL."))
approval_error (got m) =
    if protocol_is_error (protocol_parse_message m.text)
    then some (failed err_internal_error (codes "Storage server rejected ACL change."))
    else none

unfoldable pub or_read : CText → CText
or_read [] = codes "R"
or_read (c ∷ s) = c ∷ s

unfoldable pub approve_on_server :
    (ℕ → List CText → Outcome) → NameServer → FileMetadata → AccessRequest → Option Reply
unfolding approval_error or_read
approve_on_server ask ns file req = elim (server_place (serves_file file) 0 ns.storage_servers) [
  | none ↦ some (failed err_internal_error (codes "Storage server is offline. Access not granted."))
  | some s ↦ approval_error (
      ask s (
        codes "SS_ADDACCESS"
        ∷ req.filename
        ∷ req.from_user
        ∷ or_read (perm_token req.grant_read req.grant_write)
        ∷ []))
]

-- Once the file is found. What `file_add_access` returns is not looked at.
unfoldable pub approve_file :
    (ℕ → List CText → Outcome)
    → ℕ
    → AccessRequest
    → NameServer
    → ℕ
    → FileMetadata
    → Reply × NameServer
approve_file ask k req ns place file =
    let added = (file_add_access file req.from_user req.grant_read req.grant_write).1 in
    elim (approve_on_server ask ns file req) [
      | some e ↦ (
        e,
        put_request (put_file ns place (file_remove_access added req.from_user).1) k
            (record req { is_pending = true }),
      )
      | none ↦ (
        ok_reply (codes "Access approved and saved."),
        put_request (put_file ns place added) k (record req { is_pending = false }),
      )
    ]

-- Once the number is read.
unfoldable pub approve_request :
    (ℕ → List CText → Outcome) → CText → NameServer → ℤ → Reply × NameServer
unfolding find_request
approve_request ask user ns id = elim (find_request id 0 ns.access_requests) [
  | none ↦ (failed err_invalid_request (codes "Invalid request ID or not file owner."), ns)
  | some (k, req) ↦
      if not req.is_pending || not (str_eq req.to_user user)
      then (failed err_invalid_request (codes "Invalid request ID or not file owner."), ns)
      else with_file ns req.filename
          (failed err_file_not_found (codes "File for this request no longer exists."))
          (approve_file ask k req)
]

unfoldable pub handle_approve_access :
    (ℕ → List CText → Outcome) → CText → NameServer → List CText → Reply × NameServer
unfolding approve_request read_int
handle_approve_access ask user ns (_ ∷ id ∷ _) = approve_request ask user ns (read_int id)
handle_approve_access ask user ns _ =
    (failed err_invalid_request (codes "Usage: APPROVEACCESS <request_id>"), ns)

abbrev pub keep : AccessRequest → Option (List AccessRequest) → Option (List AccessRequest)
keep req rest = elim rest [ none ↦ none | some requests ↦ some (req ∷ requests) ]

-- The loop of a rejection; `none` if it finds nothing.
unfoldable pub reject_loop : CText → ℤ → List AccessRequest → Option (List AccessRequest)
reject_loop user id [] = none
reject_loop user id (req ∷ requests) =
    let rest = keep req (reject_loop user id requests) in
    if int_eq req.id id && req.is_pending && str_eq req.to_user user
    then some (record req { is_pending = false } ∷ requests)
    else rest

unfoldable pub reject_request : CText → NameServer → ℤ → Reply × NameServer
reject_request user ns id = elim (reject_loop user id ns.access_requests) [
  | none ↦ (failed err_invalid_request (codes "Invalid or non-pending request ID."), ns)
  | some requests ↦ (ok_reply (codes "Request rejected."), record ns { access_requests = requests })
]

unfoldable pub handle_reject_access : CText → NameServer → List CText → Reply × NameServer
unfolding reject_request read_int
handle_reject_access user ns (_ ∷ id ∷ _) = reject_request user ns (read_int id)
handle_reject_access user ns _ =
    (failed err_invalid_request (codes "Usage: REJECTACCESS <request_id>"), ns)
