-- ===== src/NameServer/Creation/Folders.antt =====
-- CREATEFOLDER, from its message to its reply.
use distributed_documentatio.NameServer.Registry.{Registry}
use distributed_documentatio.NameServer.Creation.{new_metadata}
use distributed_documentatio.Base.{ℕ, CText, ◌∷◌, Option, ◌≡◌, some, true, false, [], none}
use distributed_documentatio.NameServer.Sharing.Grants.{is_answered}
use distributed_documentatio.NameServer.Files.{FileMetadata}
use distributed_documentatio.NameServer.Registry.Consistent.{IsConsistent}
use distributed_documentatio.NameServer.Paths.{ns_split_parent_child}
use distributed_documentatio.Protocol.Replies.{Reply}
use distributed_documentatio.NameServer.Registry.Names.{file_named}
use distributed_documentatio.NameServer.Index.{max_filename_length, file_index_find}
use distributed_documentatio.NameServer.State.{NameServer}

-- A parent that will do: the root, or a folder.
abbrev pub IsParent : Registry → CText → Type 0
IsParent registry [] = Unit {0}
IsParent registry (c ∷ parent) =
    (meta : FileMetadata) × (file_named registry (c ∷ parent) ≡ some meta)
    × (meta.is_directory ≡ true)

-- The parent of a path, and the metadata of a folder that lies in it.
abbrev pub InFolder : Registry → ℕ → CText → CText → FileMetadata → Type 0
InFolder registry now user path file =
    (parent : CText) × (child : CText) × (ns_split_parent_child max_filename_length
        max_filename_length path
      ≡ some (parent, child))
    × IsParent registry parent
    × (file ≡ new_metadata now path user [] 0 true)

-- What the check of the parent leaves of the registry, and what it finds.
abbrev Checked : Registry → CText → Option Reply × Registry → Type 0
Checked registry parent result =
    IsConsistent result.1
    × ((j : CText) → file_named result.1 j ≡ file_named registry j)
    × ((k : CText) → file_index_find result.1.index k ≡ file_index_find registry.index k)
    × ((e : Reply) → result.0 ≡ some e → is_answered e ≡ false)
    × (result.0 ≡ none → IsParent registry parent)
