-- ===== src/Examples/Requests.antt =====
-- name_server/: the requests about the rights on files.
use distributed_documentatio.Base.{
  ℕ, codes, [], false, true, ◌∷◌, arith, strn_eq, ◌≡◌, str_eq, refl, some, take, get_elem?, all,
  subst,
}
use distributed_documentatio.NameServer.Files.{
  FileMetadata, file_add_access, add_if, file_has_read_access, file_has_write_access,
}
use distributed_documentatio.NameServer.Registry.{register_file}
use distributed_documentatio.Acl.{acl_contains, same_user, file_acl_add, acl_add}
use distributed_documentatio.Base.Int.{pos, int_eq}
use distributed_documentatio.NameServer.State.{
  AccessRequest, NameServer, server_place, is_open, is_empty,
}
use distributed_documentatio.NameServer.Sharing.Grants.{is_answered}
use distributed_documentatio.NameServer.Sharing.{handle_addaccess}
use distributed_documentatio.NameServer.Mailbox.Numbers.{MailboxIsNumbered, mailbox-IsNumbered}
use distributed_documentatio.NameServer.Mailbox.{
  reject_request, approve_on_server, handle_request_access, reject_loop, serves_file,
  handle_approve_access, approval_error, handle_reject_access, approve_file,
}
use distributed_documentatio.NameServer.Mailbox.Decisions.{decide, decides_own, decided_once}
use distributed_documentatio.NameServer.Mailbox.Rollback.{failed_approval_revokes}
use distributed_documentatio.Examples.Server.{
  silent, name_server, says, one_file, file, file-IsShared, one_file-IsConsistent,
}
use distributed_documentatio.NameServer.Index.{
  file_index_find, find_node, file_index_insert, bucket_of, stored_filename,
}
use distributed_documentatio.NameServer.Deletion.{handle_delete}
use distributed_documentatio.NameServer.Mailbox.Later.{then_event, now, request_access, delete}
use distributed_documentatio.Names.{validate_filename, validate_username, is_user_text}
use distributed_documentatio.Text.{is_alnum}
use distributed_documentatio.NameServer.Permissions.{parse_permission_flags, to_lower}
use distributed_documentatio.NameServer.Sharing.Adding.{AddsAccess, addaccess_exact}
use distributed_documentatio.NameServer.Files.Access.{IsShared}
use mathlib.Core.Option.{some-injective}

addaccess_exact_example :
    AddsAccess silent (codes "ann") (codes "a") (codes "bob") false true (name_server one_file []) (
      handle_addaccess silent
        (codes "ann")
        (name_server one_file [])
        (codes "ADDACCESS" ∷ codes "a" ∷ codes "bob" ∷ codes "W" ∷ []))
unfolding register_file file_index_find find_node validate_filename validate_username is_user_text
    is_alnum all parse_permission_flags is_empty file_index_insert bucket_of str_eq stored_filename
    take to_lower
addaccess_exact_example =
    addaccess_exact silent (codes "ann") (codes "ADDACCESS") (codes "a") (codes "bob") (codes "W")
      false true [] (name_server one_file []) one_file-IsConsistent
      (λ f h. subst IsShared (some-injective file f h) file-IsShared) refl refl refl refl refl

abbrev request : AccessRequest
request = record {
  id = pos 1;
  filename = codes "a";
  from_user = codes "bob";
  to_user = codes "ann";
  grant_read = true;
  grant_write = false;
  is_pending = true;
}

abbrev asking : NameServer
asking = name_server one_file (request ∷ [])

asking-IsNumbered : MailboxIsNumbered asking
asking-IsNumbered = record { numbered = (refl, tt); next = refl; fits = omega arith }

mailbox-IsNumbered_example :
    MailboxIsNumbered
      (handle_request_access
        (codes "eve")
        asking
        (codes "REQACCESS" ∷ codes "a" ∷ codes "R" ∷ [])).1
    × MailboxIsNumbered
        (handle_approve_access silent
          (codes "eve")
          asking
          (codes "REQACCESS" ∷ codes "a" ∷ codes "R" ∷ [])).1
    × MailboxIsNumbered
        (handle_reject_access
          (codes "eve")
          asking
          (codes "REQACCESS" ∷ codes "a" ∷ codes "R" ∷ [])).1
mailbox-IsNumbered_example =
    mailbox-IsNumbered silent (codes "eve") asking (codes "REQACCESS" ∷ codes "a" ∷ codes "R" ∷ [])
      asking-IsNumbered

-- The request is rejected, asked for once more, and the file is deleted.
abbrev rejected : NameServer
rejected = (decide silent false (codes "ann") asking (pos 1)).1

abbrev asked_again : NameServer
asked_again =
    (handle_request_access (codes "bob") rejected
      (codes "REQUEST_ACCESS" ∷ codes "a" ∷ codes "W" ∷ [])).1

abbrev deleted : NameServer
deleted = (handle_delete silent (codes "ann") asked_again (codes "DELETE" ∷ codes "a" ∷ [])).1

decided_once_example :
    is_answered (decide (says (codes "OK_ACCESS_CHANGED")) true (codes "ann") deleted (pos 1)).0
    ≡ false
unfolding reject_request reject_loop int_eq str_eq is_answered
decided_once_example =
    decided_once silent (says (codes "OK_ACCESS_CHANGED")) false true (codes "ann") (codes "ann")
      asking deleted (pos 1) asking-IsNumbered refl
      (then_event
        (then_event now (
          request_access rejected (codes "bob")
            (codes "REQUEST_ACCESS" ∷ codes "a" ∷ codes "W" ∷ [])))
        (delete asked_again silent (codes "ann") (codes "DELETE" ∷ codes "a" ∷ [])))

decides_own_example :
    (m : ℕ) × (req : AccessRequest) × (get_elem? (request ∷ []) m ≡ some req)
    × (req.id ≡ pos 1)
    × (req.is_pending ≡ true)
    × (req.to_user ≡ codes "ann")
unfolding reject_request reject_loop int_eq str_eq is_answered
decides_own_example = decides_own silent false (codes "ann") asking (pos 1) refl

failed_approval_revokes_example :
    (after : FileMetadata) × (get_elem?
        (approve_file silent 0 request asking 0 file).1.registry.files
        0
      ≡ some after)
    × (file_has_read_access after (codes "bob") ≡ same_user (codes "ann") (codes "bob"))
    × (file_has_write_access after (codes "bob") ≡ same_user (codes "ann") (codes "bob"))
unfolding register_file file_add_access add_if file_acl_add acl_add same_user strn_eq str_eq take
    acl_contains approve_on_server server_place serves_file is_open approval_error
failed_approval_revokes_example =
    failed_approval_revokes silent 0 request asking 0 file _ refl (omega arith) file-IsShared refl
      refl
