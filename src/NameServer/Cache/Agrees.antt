-- ===== src/NameServer/Cache/Agrees.antt =====
-- A cache that agrees with the index keeps agreeing, and answers as the index does.
use distributed_documentatio.Base.{
  ℕ, CText, Option, List, ◌∷◌, ◌≡◌, true, some, [], arith, set, str_eq_iff, suc, zero, Bool-cases,
  ◌⊎◌, ◌<◌, inl, inr, length, if◌then◌else◌, str_eq, refl, none, leb, Option-cases, false, take_all,
  ◌-◌, str_eq_refl,
}
use distributed_documentatio.NameServer.Index.{stored_filename, max_filename_length}
use distributed_documentatio.NameServer.Cache.{
  CacheEntry, is_entry_of, in_range, file_cache_lookup, file_cache_store, file_cache_invalidate,
  stored_filename, place_to_store,
}

-- Every valid entry has the place of its name.
abbrev pub Agrees : (CText → Option ℕ) → List CacheEntry → Type 0
Agrees find [] = Unit {0}
Agrees find (e ∷ entries) =
    (e.valid ≡ true → find e.filename ≡ some e.file_array_index) × Agrees find entries

pub lookup-Agrees :
    (find : CText → Option ℕ) (k : CText) (count tick : ℕ) (entries : List CacheEntry)
    → Agrees find entries
    → Agrees find (file_cache_lookup k count tick entries).entries
unfolding file_cache_lookup
lookup-Agrees find k count tick [] a = tt
lookup-Agrees find k count tick (e ∷ entries) a =
    let rest = lookup-Agrees find k count tick entries a.1 in
    elim (Bool-cases (is_entry_of k e)) [
      | inl h ↦ elim (Bool-cases (in_range count e)) [
        | inl l ↦ rw (h, l) (a.0, a.1)
        | inr l ↦ rw (h, l) (λ v. cc, rest)
      ]
      | inr h ↦ rw h (a.0, rest)
    ]

pub lookup-hit :
    (find : CText → Option ℕ) (k : CText) (count tick i : ℕ) (entries : List CacheEntry)
    → Agrees find entries
    → (file_cache_lookup k count tick entries).hit ≡ some i
    → find k ≡ some i
unfolding file_cache_lookup is_entry_of in_range
lookup-hit find k count tick i [] a h = cc
lookup-hit find k count tick i (e ∷ entries) a h =
    ground (arith, lookup-hit find k count tick i entries a.1, str_eq_iff e.filename k, a.0)

pub set-Agrees :
    (find : CText → Option ℕ) (e : CacheEntry) (i : ℕ) (entries : List CacheEntry)
    → Agrees find entries
    → find e.filename ≡ some e.file_array_index
    → Agrees find (set entries i e)
set-Agrees find e i [] a h = tt
set-Agrees find e zero (d ∷ entries) a h = (λ _. h, a.1)
set-Agrees find e (suc i) (d ∷ entries) a h = (a.0, set-Agrees find e i entries a.1 h)

-- A lookup of a name whose entry is in range finds it.
abbrev Holds : CText → ℕ → ℕ → List CacheEntry → Type 0
Holds k count i [] = ⊥
Holds k count i (e ∷ entries) =
    (is_entry_of k e ≡ true) × (e.file_array_index ≡ i) ⊎ Holds k count i entries

hit_of_Holds :
    (find : CText → Option ℕ) (k : CText) (count tick i : ℕ) (entries : List CacheEntry)
    → Agrees find entries
    → find k ≡ some i
    → i < count
    → Holds k count i entries
    → (file_cache_lookup k count tick entries).hit ≡ some i
unfolding file_cache_lookup is_entry_of in_range
hit_of_Holds find k count tick i [] a f l h = absurd h
hit_of_Holds find k count tick i (e ∷ entries) a f l (inl h) =
    ground (arith, str_eq_iff e.filename k)
hit_of_Holds find k count tick i (e ∷ entries) a f l (inr h) =
    ground (arith, a.0, str_eq_iff e.filename k, hit_of_Holds find k count tick i entries a.1 f l h)

pub store-Agrees :
    (find : CText → Option ℕ) (k : CText) (i count tick : ℕ) (entries : List CacheEntry)
    → Agrees find entries
    → find k ≡ some i
    → length k < max_filename_length
    → Agrees find (file_cache_store k i count tick entries).0
unfolding file_cache_store stored_filename
store-Agrees find k i count tick entries a h short = elim (Bool-cases (leb count i)) [
  | inl out ↦ rw (out, file_cache_store) a
  | inr room ↦ elim (Option-cases (place_to_store k entries)) [
    | inl p ↦ rw (room, p, file_cache_store) a
    | inr (q, p) ↦
        rw (room, p, file_cache_store)
          (set-Agrees find _ q entries a
            (rw (take_all (max_filename_length - 1) k (omega arith)) h))
  ]
]

-- The map without the name `k`.
abbrev pub forget : CText → (CText → Option ℕ) → CText → Option ℕ
forget k find j = if str_eq k j then none else find j

pub invalidate-Agrees :
    (find : CText → Option ℕ) (k : CText) (entries : List CacheEntry)
    → Agrees find entries
    → Agrees (forget k find) (file_cache_invalidate k entries)
unfolding file_cache_invalidate is_entry_of
invalidate-Agrees find k [] a = tt
invalidate-Agrees find k (e ∷ entries) a = (
  ground (arith, a.0, str_eq_iff k e.filename, str_eq_iff e.filename k),
  invalidate-Agrees find k entries a.1,
)

set-Holds :
    (k : CText) (count : ℕ) (e : CacheEntry) (q : ℕ) (entries : List CacheEntry)
    → is_entry_of k e ≡ true
    → q < length entries
    → Holds k count e.file_array_index (set entries q e)
set-Holds k count e q [] h l = absurd (omega arith)
set-Holds k count e zero (d ∷ entries) h l = inl (h, refl)
set-Holds k count e (suc q) (d ∷ entries) h l = inr (set-Holds k count e q entries h (omega arith))

-- In a cache that agrees with the map, a name that fits its array and is stored at its place among the files is
-- found there by a later lookup, if the cache had an entry to store it in.
pub lookup-store :
    (find : CText → Option ℕ) (k : CText) (i count tick later q : ℕ) (entries : List CacheEntry)
    → Agrees find entries
    → find k ≡ some i
    → i < count
    → length k < max_filename_length
    → place_to_store k entries ≡ some q
    → q < length entries
    → (file_cache_lookup k count later (file_cache_store k i count tick entries).0).hit ≡ some i
unfolding file_cache_store stored_filename is_entry_of
lookup-store find k i count tick later q entries a h l short p inside =
    let room : leb count i ≡ false = ground arith in
    let fits = take_all (max_filename_length - 1) k (omega arith) in
    hit_of_Holds find k count later i (file_cache_store k i count tick entries).0
      (store-Agrees find k i count tick entries a h short) h l
      (rw (room, p, file_cache_store, fits) (set-Holds k count _ q entries (str_eq_refl k) inside))
