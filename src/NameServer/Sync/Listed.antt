-- ===== src/NameServer/Sync/Listed.antt =====
-- A storage server lists its files.
use distributed_documentatio.NameServer.Sync.{
  indexed_file, update_file, blank_metadata, listed_metadata,
}
use distributed_documentatio.NameServer.Registry.{Registry}
use distributed_documentatio.Base.{
  CText, ℕ, ◌≡◌, none, Option-cases, some, inl, get_elem?, inr, arith, if◌then◌else◌, str_eq,
  length, Option, ◌<◌, ◌⊎◌, List,
}
use distributed_documentatio.NameServer.Registry.Consistent.{IsConsistent, recached, found-inside}
use distributed_documentatio.NameServer.Files.{FileMetadata}
use distributed_documentatio.NameServer.Registry.Names.{file_named}
use distributed_documentatio.NameServer.Index.{file_index_find, max_filename_length}
use distributed_documentatio.NameServer.Registry.Update.{update-IsConsistent, update_exact}
use distributed_documentatio.NameServer.Cache.Agrees.{store-Agrees}
use distributed_documentatio.NameServer.Servers.{StorageServerInfo}
use distributed_documentatio.Protocol.Replies.{Reply}

pub indexed_found :
    (ns : Registry) (k : CText) (i : ℕ) (file : FileMetadata)
    → indexed_file ns k ≡ some (i, file)
    → (file_index_find ns.index k ≡ some i) × (get_elem? ns.files i ≡ some file)
unfolding indexed_file
indexed_found ns k i file h = ground arith

pub indexed_missing :
    (ns : Registry) (k : CText)
    → IsConsistent ns
    → indexed_file ns k ≡ none
    → file_index_find ns.index k ≡ none
unfolding indexed_file
indexed_missing ns k inv h = elim (Option-cases (file_index_find ns.index k)) [
  | inl missing ↦ missing
  | inr (i, found) ↦
      let (file, there, _) = inv.found k i found in
      let clash : ◌≡◌ {A = Option (ℕ × FileMetadata)} (some (i, file)) none =
        rw (indexed_file, found, there) at h in
      absurd (ground arith)
]

-- The update of a file and of its cache entry.
module _ (ns : Registry) (inv : IsConsistent ns) (k : CText) (place : ℕ) (file new : FileMetadata)
    (found : indexed_file ns k ≡ some (place, file))
    (same_name : new.filename ≡ file.filename) where
  pub update_file-IsConsistent : IsConsistent (update_file ns k place new)
  unfolding update_file
  update_file-IsConsistent =
      let (here, at) = indexed_found ns k place file found in
      let kept = update-IsConsistent ns inv k place file new here at same_name in
      recached _ _ _ kept (
        store-Agrees (file_index_find ns.index) k place (length ns.files) ns.cache_tick ns.cache
          inv.cached here (found-inside ns k place inv here).1)

  pub update_file_exact :
      (j : CText)
      → file_named (update_file ns k place new) j
        ≡ (if str_eq k j then some new else file_named ns j)
  unfolding update_file
  update_file_exact j =
      let (here, at) = indexed_found ns k place file found in
      update_exact ns inv k place file new here at same_name j

-- What is known of a file that is listed: the metadata of its name, or blank metadata.
abbrev pub known_or_blank : ℕ → CText → Option FileMetadata → FileMetadata
known_or_blank now filename none = blank_metadata now filename
known_or_blank now filename (some file) = file

-- The registry afterwards is in agreement; there is an error and every name has the file that it had, or there is
-- none, and the name has the file that was listed, and every other name the file that it had.
abbrev pub Lists : Registry → CText → FileMetadata → Option Reply × Registry → Type 0
Lists ns filename listed result =
    IsConsistent result.1
    × (((e : Reply) × (result.0 ≡ some e) × ((j : CText) → file_named result.1 j ≡ file_named ns j))
        ⊎ ((result.0 ≡ none)
            × ((j : CText)
                → file_named result.1 j
                  ≡ (if str_eq filename j then some listed else file_named ns j))))

module _ (now : ℕ) (ss : StorageServerInfo) (filename owner readers writers : CText)
    (valid : (0 < length filename) × (length filename < max_filename_length)) (fields : List CText)
    (ns : Registry) (inv : IsConsistent ns) where
  abbrev listed : FileMetadata
  listed =
      listed_metadata now ss owner readers writers fields
        (known_or_blank now filename (file_named ns filename))
