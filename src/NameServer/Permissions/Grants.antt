-- ===== src/NameServer/Permissions/Grants.antt =====
-- What a permission that is accepted leads to.
use distributed_documentatio.Base.{
  CText, Bool, ◌≡◌, ◌<◌, ◌||◌, some, true, false, length, arith, strn_eq_refl, if◌then◌else◌, none,
  Option, strn_eq,
}
use distributed_documentatio.Acl.{max_username_length, same_user}
use distributed_documentatio.NameServer.Files.{
  FileMetadata, file_add_access, file_has_read_access, file_has_write_access,
}
use distributed_documentatio.NameServer.Files.Access.{grant_exact, IsShared}
use distributed_documentatio.NameServer.Permissions.{parse_permission_flags}

-- The flags by the three groups of names.
abbrev flags_of : Bool → Bool → Bool → Option (Bool × Bool)
flags_of a b c =
    if a
    then some (true, false)
    else if b
    then some (false, true)
    else if c
    then some (true, true)
    else none

flags_some : (a b c r w : Bool) → flags_of a b c ≡ some (r, w) → (r || w) ≡ true
flags_some a b c r w h = ground arith

-- An accepted permission is never empty.
parse-some :
    (perm : CText) (r w : Bool) → parse_permission_flags perm ≡ some (r, w) → (r || w) ≡ true
unfolding parse_permission_flags
parse-some perm r w h = flags_some _ _ _ r w h

-- With a permission that is accepted, a grant that succeeds, to a user whose name fits an entry, on lists that are
-- free of duplicates and fit their arrays, gives this user the right to read, and the right to write if the
-- permission has it or he had it before.
pub accepted_grant :
    (file : FileMetadata) (u perm : CText) (r w : Bool)
    → parse_permission_flags perm ≡ some (r, w)
    → length u < max_username_length
    → IsShared file
    → (file_add_access file u r w).0 ≡ true
    → (file_has_read_access (file_add_access file u r w).1 u ≡ true)
      × (file_has_write_access (file_add_access file u r w).1 u ≡ file_has_write_access file u || w)
unfolding same_user strn_eq
accepted_grant file u perm r w parsed short shared ok =
    let (reads, writes, _) = grant_exact file u u r w short shared ok in
    let some_right = parse-some perm r w parsed in
    let own : same_user u u ≡ true = strn_eq_refl _ u in
    (ground (arith, reads, some_right, own), ground (arith, writes, own))
