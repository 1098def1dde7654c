-- ===== src/NameServer/Sharing/Revokes.antt =====
-- REMACCESS changes the rights exactly as it says in its reply.
use distributed_documentatio.Base.{CText, length, ◌<◌, ◌≡◌, true}
use distributed_documentatio.NameServer.Files.{FileMetadata, file_remove_access}
use distributed_documentatio.Acl.{max_username_length, acl_contains, Acl}
use distributed_documentatio.NameServer.Files.Access.{IsShared}
use distributed_documentatio.NameServer.State.{NameServer}

module _ (file : FileMetadata) (u : CText) (short : length u < max_username_length)
    (shared : IsShared file)
    (reads_too : acl_contains file.write_access_users u ≡ true
      → acl_contains file.read_access_users u ≡ true) where
  abbrev less : FileMetadata
  less = (file_remove_access file u).1
