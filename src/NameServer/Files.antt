-- ===== src/NameServer/Files.antt =====
-- name_server/name_server.h: `FileMetadata`; name_server/name_server.c: the access rights of a file.
pub mod Access
use distributed_documentatio.Base.{
  ℕ, CText, Bool, Option, ◌||◌, if◌then◌else◌, some, true, none, false,
}
use distributed_documentatio.Base.Int.{ℤ}
use distributed_documentatio.Acl.{
  Acl, file_acl_contains, file_acl_add, file_acl_remove, same_user, acl_contains, acl_add,
  acl_remove,
}

pub record FileMetadata : Type 0 where
  pub filename : CText
  pub owner : CText
  pub ss_ip : CText
  pub ss_port : ℕ
  pub size : ℤ
  pub word_count : ℤ
  pub char_count : ℤ
  pub is_directory : Bool
  pub created : ℕ
  pub modified : ℕ
  pub last_access : ℕ
  pub last_access_user : CText
  pub last_modified_user : CText
  pub read_access_users : Acl
  pub write_access_users : Acl

-- `if (grant) file_acl_add(entries, username)`
unfoldable pub add_if : Bool → Acl → CText → Option Acl
add_if grant entries username = if grant then file_acl_add entries username else some entries

-- The flag is true for the return value 0; the file is as it is left, also where the call fails.
unfoldable pub file_add_access : FileMetadata → CText → Bool → Bool → Bool × FileMetadata
file_add_access file username grant_read grant_write =
    elim (add_if (grant_read || grant_write) file.read_access_users username) [
      | none ↦ (false, file)
      | some readers ↦ elim (add_if grant_write file.write_access_users username) [
        | none ↦ (false, record file { read_access_users = readers })
        | some writers ↦
            (true, record file { read_access_users = readers; write_access_users = writers })
      ]
    ]

-- The flag is the return value.
unfoldable pub file_remove_access : FileMetadata → CText → Bool × FileMetadata
unfolding file_acl_remove
file_remove_access file username =
    let (removed_read, readers) = file_acl_remove file.read_access_users username in
    let (removed_write, writers) = file_acl_remove file.write_access_users username in
    (
      removed_read || removed_write,
      record file { read_access_users = readers; write_access_users = writers },
    )

unfoldable pub file_has_read_access : FileMetadata → CText → Bool
unfolding file_acl_contains
file_has_read_access file username =
    if same_user file.owner username
    then true
    else if file_acl_contains file.read_access_users username
    then true
    else file_acl_contains file.write_access_users username

unfoldable pub file_has_write_access : FileMetadata → CText → Bool
unfolding file_acl_contains
file_has_write_access file username =
    if same_user file.owner username
    then true
    else file_acl_contains file.write_access_users username
