-- ===== src/NameServer/Sharing.antt =====
-- name_server/name_server.c: the requests ADDACCESS and REMACCESS of `run_client_loop`. `ask` is
-- `storage_server_send_and_wait`, from the place of the storage server and the fields of the command. The lists
-- are changed first; when the storage server does not agree, ADDACCESS takes the user off them again, and REMACCESS
-- puts him back. A handler runs here as if no other did meanwhile.
pub mod Lookup
pub mod Grants
pub mod Effects
pub mod Adding
pub mod Revokes
use distributed_documentatio.NameServer.State.{
  is_empty, NameServer, server_place, response_error, holds_file,
}
use distributed_documentatio.NameServer.Files.{FileMetadata, file_add_access, file_remove_access}
use distributed_documentatio.NameServer.Registry.{file_lookup_locked}
use distributed_documentatio.NameServer.Permissions.{parse_permission_flags}
use distributed_documentatio.NameServer.Exchange.{Outcome}
use distributed_documentatio.Protocol.Replies.{
  Reply, failed, answered, err_invalid_request, err_permission_denied, err_file_not_found,
  err_internal_error, err_user_not_found,
}
use distributed_documentatio.Names.{validate_filename, validate_username}
use distributed_documentatio.Acl.{same_user, acl_contains}
use distributed_documentatio.Base.{
  ℕ, CText, Bool, set, List, codes, if◌then◌else◌, none, some, Option, ◌∷◌, [], not, get_elem?,
  take, ◌++◌, ◌&&◌, ◌-◌, ◌||◌,
}

abbrev pub max_field_size : ℕ
max_field_size = 4096

-- A file is written through a pointer.
unfoldable pub put_file : NameServer → ℕ → FileMetadata → NameServer
put_file ns place file = record ns {
  registry = record ns.registry { files = set ns.registry.files place file };
}

-- The file that a lookup returns, or the error for a name that is not there.
unfoldable pub with_file :
    NameServer
    → CText
    → Reply
    → (NameServer → ℕ → FileMetadata → Reply × NameServer)
    → Reply × NameServer
with_file ns filename missing next =
    let (found, registry) = file_lookup_locked ns.registry filename in
    let looked = record ns { registry = registry } in
    elim found [
      | none ↦ (missing, looked)
      | some place ↦ elim (get_elem? registry.files place) [
        | none ↦ (missing, looked)
        | some file ↦ next looked place file
      ]
    ]

-- The command to the storage server of a file, and the error that stands for its failure.
unfoldable pub tell_server :
    (ℕ → List CText → Outcome) → NameServer → FileMetadata → CText → List CText → Option Reply
tell_server ask ns file expected fields =
    elim (server_place (holds_file file) 0 ns.storage_servers) [
      | none ↦ some (failed err_internal_error (codes "Storage server is offline."))
      | some s ↦ response_error expected (ask s fields)
    ]

abbrev pub ok_reply : CText → Reply
ok_reply detail = answered ((codes "OK" ∷ take (max_field_size - 1) detail ∷ []) ∷ [])

unfoldable pub perm_token : Bool → Bool → CText
perm_token grant_read grant_write =
    (if grant_read then codes "R" else []) ++ (if grant_write then codes "W" else [])

-- From the checks of the owner on.
unfoldable pub grant_file :
    (ℕ → List CText → Outcome)
    → CText
    → CText
    → CText
    → CText
    → Bool
    → Bool
    → NameServer
    → ℕ
    → FileMetadata
    → Reply × NameServer
grant_file ask user filename target permission r w ns place file =
    if not (same_user file.owner user)
    then (failed err_permission_denied (codes "Only the owner may modify access."), ns)
    else if same_user file.owner target
    then (ok_reply (codes "Owner '" ++ (target ++ codes "' already has full access.")), ns)
    else (let (ok, added) = file_add_access file target r w in
        if not ok
        then (failed err_internal_error (codes "Failed to update ACL."), put_file ns place added)
        else elim (tell_server ask ns file (codes "OK_ACCESS_CHANGED")
            (codes "SS_ADDACCESS" ∷ filename ∷ target ∷ perm_token r w ∷ [])) [
              | some e ↦ (e, put_file ns place (file_remove_access added target).1)
              | none ↦ (
                ok_reply (
                    codes "Access granted to "
                    ++ (target ++ (codes " (" ++ (permission ++ codes ").")))),
                put_file ns place added,
              )
            ])

unfoldable pub handle_addaccess :
    (ℕ → List CText → Outcome) → CText → NameServer → List CText → Reply × NameServer
unfolding grant_file with_file
handle_addaccess ask user ns (_ ∷ filename ∷ target ∷ permission ∷ _) =
    if not (validate_filename filename && validate_username target)
    then (failed err_invalid_request (codes "Invalid filename or username for ADDACCESS."), ns)
    else elim (parse_permission_flags permission) [
      | none ↦ (failed err_invalid_request (codes "Invalid permission token for ADDACCESS."), ns)
      | some (r, w) ↦
          if not (r || w)
          then (failed err_invalid_request (codes "Invalid permission token for ADDACCESS."), ns)
          else if is_empty user
          then (failed err_internal_error (codes "Client identity unknown."), ns)
          else with_file ns filename
              (failed err_file_not_found (codes "File not found for ADDACCESS."))
              (grant_file ask user filename target permission r w)
    ]
handle_addaccess ask user ns _ =
    (failed err_invalid_request (codes "Missing parameters for ADDACCESS."), ns)

-- From the check of the owner on.
unfoldable pub revoke_file :
    (ℕ → List CText → Outcome)
    → CText
    → CText
    → CText
    → NameServer
    → ℕ
    → FileMetadata
    → Reply × NameServer
revoke_file ask user filename target ns place file =
    if not (same_user file.owner user)
    then (failed err_permission_denied (codes "Only the owner may modify access."), ns)
    else (let had_read = acl_contains file.read_access_users target in
        let had_write = acl_contains file.write_access_users target in
        let (had, less) = file_remove_access file target in
        if not had
        then (
          failed err_user_not_found (codes "User had no explicit access."),
          put_file ns place less,
        )
        else elim (tell_server ask ns file (codes "OK_ACCESS_CHANGED")
            (codes "SS_REMACCESS" ∷ filename ∷ target ∷ [])) [
              | some e ↦ (e, put_file ns place (file_add_access less target had_read had_write).1)
              | none ↦ (
                ok_reply (codes "Access revoked for " ++ (target ++ codes ".")),
                put_file ns place less,
              )
            ])

unfoldable pub handle_remaccess :
    (ℕ → List CText → Outcome) → CText → NameServer → List CText → Reply × NameServer
unfolding revoke_file with_file
handle_remaccess ask user ns (_ ∷ filename ∷ target ∷ _) =
    if not (validate_filename filename && validate_username target)
    then (failed err_invalid_request (codes "Invalid filename or username for REMACCESS."), ns)
    else if is_empty user
    then (failed err_internal_error (codes "Client identity unknown."), ns)
    else with_file ns filename (failed err_file_not_found (codes "File not found for REMACCESS."))
        (revoke_file ask user filename target)
handle_remaccess ask user ns _ =
    (failed err_invalid_request (codes "Missing parameters for REMACCESS."), ns)
