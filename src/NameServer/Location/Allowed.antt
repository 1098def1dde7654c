-- ===== src/NameServer/Location/Allowed.antt =====
-- Who is told where a file is.
use distributed_documentatio.NameServer.Files.{FileMetadata}
use distributed_documentatio.Base.{
  ℕ, CText, Bool, ◌≡◌, none, false, some, true, ◌⊎◌, if◌then◌else◌, str_eq,
}
use distributed_documentatio.NameServer.Location.{
  location_reply, accessed_metadata, needs_write, has_right,
}
use distributed_documentatio.NameServer.State.{NameServer}
use distributed_documentatio.NameServer.Sharing.Grants.{is_answered}
use distributed_documentatio.Protocol.Replies.{Reply}
use distributed_documentatio.NameServer.Registry.Consistent.{IsConsistent}
use distributed_documentatio.NameServer.Registry.{Registry}
use distributed_documentatio.NameServer.Registry.Names.{file_named}

-- The operation is known and the user has the right that it needs.
unfoldable pub may : FileMetadata → CText → CText → Bool
may file user operation = elim (needs_write operation) [
  | none ↦ false
  | some write ↦ has_right file user write
]

-- The registry afterwards is in agreement; there is an error, every name has the file that it had, and the file
-- does not exist or the user may not do this with it, or the file exists, the user may, the reply has its address,
-- and only the access to it is recorded.
abbrev pub Locates : ℕ → CText → CText → CText → NameServer → Reply × NameServer → Type 0
Locates now user operation filename ns result =
    IsConsistent result.1.registry
    × (((is_answered result.0 ≡ false)
          × ((j : CText) → file_named result.1.registry j ≡ file_named ns.registry j)
          × ((file : FileMetadata)
              → file_named ns.registry filename ≡ some file
              → may file user operation ≡ false))
        ⊎ ((file : FileMetadata) × (file_named ns.registry filename ≡ some file)
            × (may file user operation ≡ true)
            × (result.0 ≡ location_reply file)
            × ((j : CText)
                → file_named result.1.registry j ≡ (
                    if str_eq filename j
                    then some (accessed_metadata now user operation file)
                    else file_named ns.registry j))))
