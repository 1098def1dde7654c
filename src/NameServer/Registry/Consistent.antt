-- ===== src/NameServer/Registry/Consistent.antt =====
-- The files, the index and the cache agree, and a lookup keeps them so.
use distributed_documentatio.NameServer.Registry.{Registry, file_lookup_locked}
use distributed_documentatio.NameServer.Index.{file_index_find, max_filename_length}
use distributed_documentatio.NameServer.Index.Laws.{IsIndex}
use distributed_documentatio.NameServer.Cache.{file_cache_lookup, CacheEntry}
use distributed_documentatio.NameServer.Cache.Agrees.{
  Agrees, lookup-Agrees, lookup-hit, store-Agrees,
}
use distributed_documentatio.Base.{
  CText, ℕ, ◌≡◌, some, Option-cases, ◌<◌, length, get_elem?, get_elem?-inside, inr, inl, leb, false,
  arith, List, Bool-cases, refl,
}
use distributed_documentatio.NameServer.Files.{FileMetadata}

-- The place of every file is found under its name, which is not empty and fits its array, and nothing else is found.
pub record IsConsistent (ns : Registry) : Type 0 where
  pub chains : IsIndex ns.index
  pub found :
      (k : CText) (i : ℕ)
      → file_index_find ns.index k ≡ some i
      → (file : FileMetadata) × (get_elem? ns.files i ≡ some file) × (file.filename ≡ k)
  pub listed :
      (i : ℕ) (file : FileMetadata)
      → get_elem? ns.files i ≡ some file
      → file_index_find ns.index file.filename ≡ some i
  pub named :
      (i : ℕ) (file : FileMetadata)
      → get_elem? ns.files i ≡ some file
      → (0 < length file.filename) × (length file.filename < max_filename_length)
  pub cached : Agrees (file_index_find ns.index) ns.cache

pub found-inside :
    (ns : Registry) (k : CText) (i : ℕ)
    → IsConsistent ns
    → file_index_find ns.index k ≡ some i
    → (i < length ns.files) × (length k < max_filename_length)
found-inside ns k i inv f =
    let (file, at, named) = inv.found k i f in
    (get_elem?-inside ns.files i file at, rw named at (inv.named i file at).1)

-- In a registry in agreement a lookup returns the place that the index has for the name, be it from the cache or
-- from the index itself.
pub lookup_exact :
    (ns : Registry) (k : CText)
    → IsConsistent ns
    → (file_lookup_locked ns k).0 ≡ file_index_find ns.index k
unfolding file_lookup_locked
lookup_exact ns k inv =
    elim (Option-cases (file_cache_lookup k (length ns.files) ns.cache_tick ns.cache).hit) [
      | inr (i, e) ↦
          rw
            (
              e,
              file_lookup_locked,
              lookup-hit (file_index_find ns.index) k (length ns.files) ns.cache_tick i ns.cache
                  inv.cached e,
            )
            refl
      | inl e ↦ elim (Option-cases (file_index_find ns.index k)) [
        | inl f ↦ rw (e, file_lookup_locked, f) refl
        | inr (i, f) ↦
            let room : leb (length ns.files) i ≡ false =
              ground (arith, found-inside ns k i inv f) in
            rw (e, file_lookup_locked, f, room) refl
      ]
    ]

pub recached :
    (ns : Registry) (entries : List CacheEntry) (tick : ℕ)
    → IsConsistent ns
    → Agrees (file_index_find ns.index) entries
    → IsConsistent (record ns { cache = entries; cache_tick = tick })
recached ns entries tick inv a = record {
  chains = inv.chains;
  found = inv.found;
  listed = inv.listed;
  named = inv.named;
  cached = a;
}

-- A lookup, whether or not it finds the name, keeps a registry in agreement.
pub lookup-IsConsistent :
    (ns : Registry) (k : CText) → IsConsistent ns → IsConsistent (file_lookup_locked ns k).1
unfolding file_lookup_locked
lookup-IsConsistent ns k inv =
    let count = length ns.files in
    let cached = file_cache_lookup k count ns.cache_tick ns.cache in
    let a = lookup-Agrees (file_index_find ns.index) k count ns.cache_tick ns.cache inv.cached in
    elim (Option-cases cached.hit) [
      | inr (i, e) ↦ rw (e, file_lookup_locked) (recached ns _ _ inv a)
      | inl e ↦ elim (Option-cases (file_index_find ns.index k)) [
        | inl f ↦ rw (e, file_lookup_locked, f) (recached ns _ _ inv a)
        | inr (i, f) ↦ elim (Bool-cases (leb count i)) [
          | inl out ↦ rw (e, file_lookup_locked, f, out) (recached ns _ _ inv a)
          | inr room ↦
              rw (e, file_lookup_locked, f, room)
                (recached ns _ _ inv (
                  store-Agrees (file_index_find ns.index) k i count cached.tick cached.entries a f
                    (found-inside ns k i inv f).1))
        ]
      ]
    ]

-- A lookup changes the cache only.
pub lookup_recaches :
    (ns : Registry) (k : CText)
    → (file_lookup_locked ns k).1 ≡ record ns {
      cache = (file_lookup_locked ns k).1.cache;
      cache_tick = (file_lookup_locked ns k).1.cache_tick;
    }
unfolding file_lookup_locked
lookup_recaches ns k =
    elim (Option-cases (file_cache_lookup k (length ns.files) ns.cache_tick ns.cache).hit) [
      | inr (i, e) ↦ rw (e, file_lookup_locked) refl
      | inl e ↦ elim (Option-cases (file_index_find ns.index k)) [
        | inl f ↦ rw (e, file_lookup_locked, f) refl
        | inr (i, f) ↦ elim (Bool-cases (leb (length ns.files) i)) [
          | inl out ↦ rw (e, file_lookup_locked, f, out) refl
          | inr room ↦ rw (e, file_lookup_locked, f, room) refl
        ]
      ]
    ]
