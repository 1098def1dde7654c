-- ===== src/NameServer/Cache.antt =====
-- name_server/name_server.c: the cache of file lookups, an array of `file_cache_size` entries.
pub mod Agrees
pub mod Evict
use distributed_documentatio.Base.{
  ℕ, CText, ◌^◌, Bool, ◌+◌, Option, List, ◌-◌, ◌%◌, ◌&&◌, none, ◌∷◌, some, if◌then◌else◌, str_eq,
  ltb, false, suc, leb, [], set, true,
}
use distributed_documentatio.NameServer.Index.{stored_filename}

abbrev pub file_cache_size : ℕ
file_cache_size = 64

abbrev pub ulong_max : ℕ
ulong_max = 2 ^ 64 - 1

pub record CacheEntry : Type 0 where
  pub filename : CText
  pub file_array_index : ℕ
  pub valid : Bool
  pub last_used : ℕ

-- ++ns->cache_tick, in 64 bits
abbrev pub next_tick : ℕ → ℕ
next_tick tick = (tick + 1) % 2 ^ 64

-- A valid entry of the name.
unfoldable pub is_entry_of : CText → CacheEntry → Bool
is_entry_of filename e = e.valid && str_eq e.filename filename

-- Its place is one of the files.
unfoldable pub in_range : ℕ → CacheEntry → Bool
in_range file_count e = ltb e.file_array_index file_count

-- The place that a lookup finds, and what it leaves.
pub record Lookup : Type 0 where
  pub hit : Option ℕ
  pub entries : List CacheEntry
  pub tick : ℕ

-- An entry whose place is out of range is dropped on the way.
unfoldable pub file_cache_lookup : CText → ℕ → ℕ → List CacheEntry → Lookup
file_cache_lookup filename file_count tick [] = record { hit = none; entries = []; tick = tick }
file_cache_lookup filename file_count tick (e ∷ entries) =
    let rest = file_cache_lookup filename file_count tick entries in
    if is_entry_of filename e
    then (if in_range file_count e
        then record {
          hit = some e.file_array_index;
          entries = record e { last_used = next_tick tick } ∷ entries;
          tick = next_tick tick;
        }
        else record rest { entries = record e { valid = false } ∷ rest.entries })
    else record rest { entries = e ∷ rest.entries }

unfoldable pub file_cache_invalidate : CText → List CacheEntry → List CacheEntry
file_cache_invalidate filename [] = []
file_cache_invalidate filename (e ∷ entries) =
    (if is_entry_of filename e then record e { valid = false } else e)
    ∷ file_cache_invalidate filename entries

-- The entries and the tick after the loop.
unfoldable pub file_cache_rename : CText → CText → ℕ → ℕ → List CacheEntry → List CacheEntry × ℕ
unfolding is_entry_of stored_filename
file_cache_rename old_name new_name array_index tick [] = ([], tick)
file_cache_rename old_name new_name array_index tick (e ∷ entries) =
    let tick' = if is_entry_of old_name e then next_tick tick else tick in
    let (rest, last) = file_cache_rename old_name new_name array_index tick' entries in
    (
      (if is_entry_of old_name e
            then record e {
              filename = stored_filename new_name;
              file_array_index = array_index;
              last_used = tick';
            }
            else e)
          ∷ rest,
      last,
    )

-- The first of the three searches of `file_cache_store`: the entry of the name.
unfoldable pub place_of_name : CText → List CacheEntry → Option ℕ
unfolding is_entry_of
place_of_name filename [] = none
place_of_name filename (e ∷ entries) =
    if is_entry_of filename e
    then some 0
    else elim (place_of_name filename entries) [ none ↦ none | some i ↦ some (suc i) ]

-- The second: the first free entry.
unfoldable pub place_free : List CacheEntry → Option ℕ
place_free [] = none
place_free (e ∷ entries) =
    if e.valid then elim (place_free entries) [ none ↦ none | some i ↦ some (suc i) ] else some 0

-- The third: the entry that was used least recently, from entry `i` on; `oldest` is its time so far.
unfoldable pub place_oldest : ℕ → Option ℕ → ℕ → List CacheEntry → Option ℕ
place_oldest oldest found i [] = found
place_oldest oldest found i (e ∷ entries) = elim e.valid [
  | false ↦ some i
  | true ↦
      place_oldest (if ltb e.last_used oldest then e.last_used else oldest)
        (if ltb e.last_used oldest then some i else found) (i + 1) entries
]

unfoldable pub place_to_store : CText → List CacheEntry → Option ℕ
unfolding place_of_name place_free place_oldest
place_to_store filename entries = elim (place_of_name filename entries) [
  | some i ↦ some i
  | none ↦ elim (place_free entries) [
    | some i ↦ some i
    | none ↦ place_oldest ulong_max none 0 entries
  ]
]

-- The entries and the tick afterwards.
unfoldable pub file_cache_store : CText → ℕ → ℕ → ℕ → List CacheEntry → List CacheEntry × ℕ
unfolding place_to_store stored_filename
file_cache_store filename array_index file_count tick entries =
    if leb file_count array_index then (entries, tick) else elim (place_to_store filename entries) [
      | none ↦ (entries, tick)
      | some i ↦ (
        set entries i (record {
          filename = stored_filename filename;
          file_array_index = array_index;
          valid = true;
          last_used = next_tick tick;
        }),
        next_tick tick,
      )
    ]
