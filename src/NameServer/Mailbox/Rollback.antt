-- ===== src/NameServer/Mailbox/Rollback.antt =====
-- What an approval that fails leaves behind.
use distributed_documentatio.Base.{
  arith, ℕ, List, CText, get_elem?, ◌≡◌, some, length, ◌<◌, true, strn_eq_refl,
}
use distributed_documentatio.NameServer.Mailbox.{approve_file, put_request, approve_on_server}
use distributed_documentatio.NameServer.Exchange.{Outcome}
use distributed_documentatio.NameServer.State.{AccessRequest, NameServer}
use distributed_documentatio.NameServer.Files.{
  FileMetadata, file_add_access, file_has_read_access, file_has_write_access, file_remove_access,
}
use distributed_documentatio.Protocol.Replies.{Reply}
use distributed_documentatio.Acl.{max_username_length, same_user}
use distributed_documentatio.NameServer.Files.Access.{IsShared, grant_exact, revoke_exact}
use distributed_documentatio.NameServer.Sharing.Grants.{owner-add, get-put_file}

-- An approval that fails at the storage server takes every right from the user that the request is from, those that
-- he had before included, unless he owns the file: here the name fits an entry, and the lists are free of
-- duplicates, fit their arrays and have room for him.
pub failed_approval_revokes :
    (ask : ℕ → List CText → Outcome) (k : ℕ) (req : AccessRequest) (ns : NameServer) (place : ℕ)
    (file : FileMetadata) (e : Reply)
    → get_elem? ns.registry.files place ≡ some file
    → length req.from_user < max_username_length
    → IsShared file
    → (file_add_access file req.from_user req.grant_read req.grant_write).0 ≡ true
    → approve_on_server ask ns file req ≡ some e
    → (after : FileMetadata) × (get_elem?
          (approve_file ask k req ns place file).1.registry.files
          place
        ≡ some after)
      × (file_has_read_access after req.from_user ≡ same_user file.owner req.from_user)
      × (file_has_write_access after req.from_user ≡ same_user file.owner req.from_user)
unfolding approve_file put_request
failed_approval_revokes ask k req ns place file e here short shared room refused =
    let u = req.from_user in
    let added = (file_add_access file u req.grant_read req.grant_write).1 in
    let (_, _, kept) = grant_exact file u u req.grant_read req.grant_write short shared room in
    let (reads, writes) = revoke_exact added u u kept in
    let owner = owner-add file u req.grant_read req.grant_write in
    let self : same_user u u ≡ true = unfold same_user in strn_eq_refl max_username_length u in
    let back = (file_remove_access added u).1 in
    rw (approve_file, refused)
      (
        back,
        get-put_file ns place file back here,
        ground (arith, reads, owner, self),
        ground (arith, writes, owner, self),
      )
