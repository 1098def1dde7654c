-- ===== src/NameServer/Registry/Register.antt =====
-- Registering a new file.
use distributed_documentatio.NameServer.Index.{file_index_find, max_filename_length}
use distributed_documentatio.NameServer.Index.Laws.{find-insert, insert-IsIndex}
use distributed_documentatio.NameServer.Cache.{CacheEntry}
use distributed_documentatio.NameServer.Cache.Agrees.{Agrees, store-Agrees}
use distributed_documentatio.NameServer.Registry.{Registry, register_file, CText, FileMetadata}
use distributed_documentatio.NameServer.Registry.Consistent.{IsConsistent, found-inside}
use distributed_documentatio.NameServer.Registry.Names.{file_named}
use distributed_documentatio.Base.{
  CText, Option, ◌≡◌, ℕ, none, List, ◌<◌, some, length, ◌∷◌, Bool-cases, if◌then◌else◌, str_eq, [],
  inr, inl, str_eq_sound, sym, ◌∙◌, arith, get_elem?, str_eq_refl, ◌==◌, ◌+◌, get_elem?-append,
  true, ◌⊎◌, refl, Option-cases, false,
}
use distributed_documentatio.NameServer.Files.{FileMetadata}
use mathlib.Core.Option.{some-injective}

-- A cache that agrees with the map agrees with it with one more name.
Agrees-more :
    (find find' : CText → Option ℕ) (entries : List CacheEntry)
    → ((j : CText) (i : ℕ) → find j ≡ some i → find' j ≡ some i)
    → Agrees find entries
    → Agrees find' entries
Agrees-more find find' [] more a = tt
Agrees-more find find' (e ∷ entries) more a =
    (λ v. more e.filename e.file_array_index (a.0 v), Agrees-more find find' entries more a.1)

module _ (ns : Registry) (inv : IsConsistent ns) (file : FileMetadata)
    (fresh : file_index_find ns.index file.filename ≡ none) (some_name : 0 < length file.filename)
    (short : length file.filename < max_filename_length) where
  find-register :
      (j : CText)
      → file_index_find (register_file ns file).index j
        ≡ (if str_eq file.filename j then some (length ns.files) else file_index_find ns.index j)
  unfolding register_file
  find-register j = find-insert ns.index inv.chains file.filename (length ns.files) j short

  get-register :
      (i : ℕ)
      → get_elem? (register_file ns file).files i
        ≡ (if i == length ns.files then some file else get_elem? ns.files i)
  unfolding register_file
  get-register i = get_elem?-append ns.files file i

  -- In a registry in agreement, a file that is registered under a name that is not empty, fits its array and is
  -- not there yet is found under this name, and every other name stands for what it stood for.
  pub register_exact :
      (j : CText)
      → file_named (register_file ns file) j
        ≡ (if str_eq file.filename j then some file else file_named ns j)
  register_exact j = elim (Bool-cases (str_eq file.filename j)) [
    | inl e ↦
        let last : (length ns.files == length ns.files) ≡ true = ground arith in
        rw (file_named, find-register j, e, get-register (length ns.files), last) refl
    | inr e ↦ elim (Option-cases (file_index_find ns.index j)) [
      | inl f ↦ rw (file_named, find-register j, e, f) refl
      | inr (i, f) ↦
          let inside : (i == length ns.files) ≡ false = ground (arith, found-inside ns j i inv f) in
          rw (file_named, find-register j, e, f, get-register i, inside) refl
    ]
  ]

  grown :
      (j : CText) (i : ℕ)
      → file_index_find ns.index j ≡ some i
      → file_index_find (register_file ns file).index j ≡ some i
  grown j i h = elim (Bool-cases (str_eq file.filename j)) [
    | inr e ↦ rw (find-register j, e) h
    | inl e ↦
        let same : file.filename ≡ j = str_eq_sound file.filename j e in
        let missing : file_index_find ns.index j ≡ none = rw same at fresh in
        let clash : none ≡ some i = sym missing ∙ h in absurd (ground arith)
  ]

  -- A file that is there is the new one or was there.
  new_or_old :
      (i : ℕ) (f : FileMetadata)
      → get_elem? (register_file ns file).files i ≡ some f
      → ((i ≡ length ns.files) × (file ≡ f)) ⊎ (get_elem? ns.files i ≡ some f)
  new_or_old i f h = elim (Bool-cases (i == length ns.files)) [
    | inr e ↦ inr (rw (get-register i, e) at h)
    | inl e ↦
        let both : some file ≡ some f = rw (get-register i, e) at h in
        inl (ground arith, some-injective file f both)
  ]

  new_found : file_index_find (register_file ns file).index file.filename ≡ some (length ns.files)
  new_found = rw (find-register file.filename, str_eq_refl file.filename) refl

  register-found :
      (k : CText) (i : ℕ)
      → file_index_find (register_file ns file).index k ≡ some i
      → (f : FileMetadata) × (get_elem? (register_file ns file).files i ≡ some f) × (f.filename ≡ k)
  register-found k i h = elim (Bool-cases (str_eq file.filename k)) [
    | inl e ↦
        let both : some (length ns.files) ≡ some i = rw (find-register k, e) at h in
        let same : length ns.files ≡ i = some-injective (length ns.files) i both in
        let last : (i == length ns.files) ≡ true = ground arith in
        (file, rw (get-register i, last) refl, str_eq_sound file.filename k e)
    | inr e ↦
        let old : file_index_find ns.index k ≡ some i = rw (find-register k, e) at h in
        let (f, at, named) = inv.found k i old in
        let inside : (i == length ns.files) ≡ false = ground (arith, found-inside ns k i inv old) in
        (f, rw (get-register i, inside) at, named)
  ]

  -- Registering a file under a name that is not empty, fits its array and is not there yet keeps a registry in
  -- agreement.
  pub register-IsConsistent : IsConsistent (register_file ns file)
  unfolding register_file
  register-IsConsistent = record {
    chains = insert-IsIndex ns.index inv.chains file.filename (length ns.files) short;
    found = register-found;
    listed = λ i f h. elim (new_or_old i f h) [
      | inl (place, same) ↦ rw (place, ← same) new_found
      | inr old ↦ grown f.filename i (inv.listed i f old)
    ];
    named = λ i f h. elim (new_or_old i f h) [
      | inl (place, same) ↦ rw (← same) (some_name, short)
      | inr old ↦ inv.named i f old
    ];
    cached =
        store-Agrees (file_index_find (register_file ns file).index) file.filename (length ns.files)
          (length ns.files + 1) ns.cache_tick ns.cache
          (Agrees-more (file_index_find ns.index) _ ns.cache grown inv.cached) new_found short;
  }
