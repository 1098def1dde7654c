-- ===== src/NameServer/Registry.antt =====
-- name_server/name_server.c: the files of the name server, which its index and its cache point into:
-- `files[0 .. file_count - 1]`, `file_index`, `file_cache` and `cache_tick` of `NameServer`.
pub mod Consistent
pub mod Remove
pub mod Names
pub mod Keeps
pub mod Register
pub mod Update
use distributed_documentatio.NameServer.Files.{FileMetadata}
use distributed_documentatio.NameServer.Index.{
  FileIndex, file_index_find, file_index_remove_entry, set_node_index, file_index_insert,
}
use distributed_documentatio.NameServer.Cache.{CacheEntry, file_cache_lookup, file_cache_store}
use distributed_documentatio.Base.{
  List, CText, ℕ, Option, length, if◌then◌else◌, ◌∷◌, some, Bool, none, leb, ◌==◌, ◌-◌, str_eq, ltb,
  false, [], get_elem?, take, not, true, set, ◌+◌, ◌++◌,
}

pub record Registry : Type 0 where
  pub files : List FileMetadata
  pub index : FileIndex
  pub cache : List CacheEntry
  pub cache_tick : ℕ

-- The place in `files` of the pointer that is returned, and the registry afterwards.
unfoldable pub file_lookup_locked : Registry → CText → Option ℕ × Registry
file_lookup_locked ns filename =
    let count = length ns.files in
    let cached = file_cache_lookup filename count ns.cache_tick ns.cache in
    let looked = record ns { cache = cached.entries; cache_tick = cached.tick } in
    elim cached.hit [
      | some place ↦ (some place, looked)
      | none ↦ elim (file_index_find ns.index filename) [
        | none ↦ (none, looked)
        | some place ↦
            if leb count place
            then (none, looked)
            else (let (entries, tick) =
                  file_cache_store filename place count cached.tick cached.entries in
                (some place, record looked { cache = entries; cache_tick = tick }))
      ]
    ]

-- `filename[0] != '\0'`
unfoldable pub unless_empty : CText → Option CText
unless_empty [] = none
unless_empty (c ∷ s) = some (c ∷ s)

-- The name that moves into the freed place; a nameless file moves without its node.
unfoldable pub moved_name : List FileMetadata → ℕ → ℕ → Option CText
moved_name files removed_index last_index =
    if removed_index == last_index then none else elim (get_elem? files last_index) [
      | none ↦ none
      | some moved_meta ↦ unless_empty moved_meta.filename
    ]

-- The last file is copied over the removed one, and the last place is given up.
unfoldable pub close_gap : List FileMetadata → ℕ → List FileMetadata
close_gap files removed_index =
    let last_index = length files - 1 in
    take last_index (elim (get_elem? files last_index) [
      | none ↦ files
      | some last ↦ set files removed_index last
    ])

-- The entry of the moved file follows it.
unfoldable pub replaced : Option CText → ℕ → CacheEntry → CacheEntry
replaced none removed_index entry = entry
replaced (some name) removed_index entry =
    if str_eq entry.filename name then record entry { file_array_index = removed_index } else entry

-- The body of the loop over the cache.
unfoldable pub sweep_entry : CText → Option CText → ℕ → ℕ → CacheEntry → CacheEntry
sweep_entry filename moved removed_index file_count entry =
    let placed = replaced moved removed_index entry in
    if not entry.valid
    then entry
    else if str_eq entry.filename filename
    then record entry { valid = false }
    else if leb file_count placed.file_array_index
    then record placed { valid = false }
    else placed

unfoldable pub sweep : CText → Option CText → ℕ → ℕ → List CacheEntry → List CacheEntry
sweep filename moved removed_index file_count [] = []
sweep filename moved removed_index file_count (entry ∷ entries) =
    sweep_entry filename moved removed_index file_count entry
    ∷ sweep filename moved removed_index file_count entries

-- A place out of range stands for the last one.
unfoldable pub place_to_remove : ℕ → ℕ → ℕ
place_to_remove count place = if ltb place count then place else count - 1

-- The node of the moved file, if it has one.
unfoldable pub relink : FileIndex → Option CText → ℕ → FileIndex
relink index none removed_index = index
relink index (some name) removed_index = elim (file_index_find index name) [
  | none ↦ index
  | some _ ↦ set_node_index index name removed_index
]

-- The flag is the return value.
unfoldable pub remove_file_metadata_locked : Registry → CText → Bool × Registry
remove_file_metadata_locked ns filename = elim (file_index_find ns.index filename) [
  | none ↦ (false, ns)
  | some place ↦
      let count = length ns.files in
      let removed_index = place_to_remove count place in
      let moved = moved_name ns.files removed_index (count - 1) in
      let unlinked = (file_index_remove_entry ns.index filename).1 in
      (
        true,
        record ns {
          files = close_gap ns.files removed_index;
          index = relink unlinked moved removed_index;
          cache = sweep filename moved removed_index (count - 1) ns.cache;
        },
      )
]

-- A new file is put behind the others, indexed and cached, as CREATE, CREATEFOLDER and the file list of a
-- storage server do once its metadata is made.
unfoldable pub register_file : Registry → FileMetadata → Registry
register_file ns file =
    let new_index = length ns.files in
    let (entries, tick) =
      file_cache_store file.filename new_index (new_index + 1) ns.cache_tick ns.cache in
    record {
      files = ns.files ++ file ∷ [];
      index = file_index_insert ns.index file.filename new_index;
      cache = entries;
      cache_tick = tick;
    }
