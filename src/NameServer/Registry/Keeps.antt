-- ===== src/NameServer/Registry/Keeps.antt =====
-- Removing a file keeps the files, the index and the cache in agreement.
use distributed_documentatio.NameServer.Index.{file_index_find, FileIndex}
use distributed_documentatio.NameServer.Index.Laws.{IsIndex, remove-IsIndex, set-IsIndex}
use distributed_documentatio.NameServer.Cache.{CacheEntry}
use distributed_documentatio.NameServer.Cache.Agrees.{Agrees}
use distributed_documentatio.NameServer.Registry.{
  Registry, remove_file_metadata_locked, sweep, sweep_entry, replaced, relink, moved_name,
  close_gap, CText, FileMetadata,
}
use distributed_documentatio.NameServer.Registry.Consistent.{IsConsistent, found-inside}
use distributed_documentatio.NameServer.Registry.Remove.{
  get-close_gap, moved_name_last, named_last, other_name,
}
use distributed_documentatio.NameServer.Registry.Names.{
  removed, find-removed, last_file, other_place, remove-removed,
}
use distributed_documentatio.Base.{
  CText, Option, ℕ, some, ◌≡◌, Option-cases, inl, get_elem?, inr, length, none, ◌-◌, str_eq, ap,
  List, false, ◌∷◌, [], if◌then◌else◌, ◌==◌, Bool-cases, arith, str_eq_sound, ltb, sym, ◌∙◌,
  str_eq_sym, true, refl,
}
use distributed_documentatio.NameServer.Files.{FileMetadata}
use mathlib.Core.Option.{some-injective}

relink-IsIndex :
    (index : FileIndex) (moved : Option CText) (p : ℕ)
    → IsIndex index
    → IsIndex (relink index moved p)
unfolding relink
relink-IsIndex index none p inv = inv
relink-IsIndex index (some name) p inv = elim (Option-cases (file_index_find index name)) [
  | inl e ↦ rw (e, relink) inv
  | inr (i, e) ↦ rw (e, relink) (set-IsIndex index inv name p)
]

sweep_entry_kept :
    (k : CText) (moved : Option CText) (p count : ℕ) (e : CacheEntry)
    → (sweep_entry k moved p count e).valid ≡ true
    → (e.valid ≡ true)
      × (str_eq e.filename k ≡ false)
      × (sweep_entry k moved p count e ≡ replaced moved p e)
unfolding sweep_entry
sweep_entry_kept k moved p count e v = (ground arith, ground arith, ground arith)

module _ (ns : Registry) (inv : IsConsistent ns) (k : CText) (p : ℕ)
    (f : file_index_find ns.index k ≡ some p) (last : FileMetadata)
    (at_last : get_elem? ns.files (length ns.files - 1) ≡ some last) where
  elsewhere :
      (i : ℕ) (file : FileMetadata)
      → get_elem? ns.files i ≡ some file
      → (p == i) ≡ false
      → str_eq k file.filename ≡ false
  elsewhere i file was away = elim (Bool-cases (str_eq k file.filename)) [
    | inr h ↦ h
    | inl h ↦
        let same : k ≡ file.filename = str_eq_sound k file.filename h in
        let listed : file_index_find ns.index k ≡ some i = rw same (inv.listed i file was) in
        absurd (ground (arith, some-injective p i (sym f ∙ listed)))
  ]

  -- A file that is there afterwards was there under another name, and is the last one or has not moved.
  was_there :
      (i : ℕ) (file : FileMetadata)
      → get_elem? (close_gap ns.files p) i ≡ some file
      → (old : ℕ) × (get_elem? ns.files old ≡ some file)
        × (str_eq k file.filename ≡ false)
        × ((if old == length ns.files - 1 then p else old) ≡ i)
  was_there i file at = elim (Bool-cases (ltb i (length ns.files - 1))) [
    | inr out ↦
        let nothing : none ≡ some file =
          rw (get-close_gap ns inv k p f last at_last i, out) at at in
        absurd (ground arith)
    | inl inside ↦ elim (Bool-cases (p == i)) [
      | inl here ↦
          let both : some last ≡ some file =
            rw (get-close_gap ns inv k p f last at_last i, inside, here) at at in
          let same : last ≡ file = some-injective last file both in
          let other = other_name ns inv k p f last at_last (ground arith) in
          (length ns.files - 1, rw same at at_last, rw same at other, ground arith)
      | inr away ↦
          let was : get_elem? ns.files i ≡ some file =
            rw (get-close_gap ns inv k p f last at_last i, inside, away) at at in
          (i, was, elsewhere i file was away, ground arith)
    ]
  ]

  removed-listed :
      (i : ℕ) (file : FileMetadata)
      → get_elem? (close_gap ns.files p) i ≡ some file
      → file_index_find (removed ns k p).index file.filename ≡ some i
  removed-listed i file at =
      let (old, was, other, moved) = was_there i file at in
      rw (find-removed ns inv k p f file.filename, other, inv.listed old file was) (ap some moved)

  removed-found :
      (j : CText) (i : ℕ)
      → file_index_find (removed ns k p).index j ≡ some i
      → (file : FileMetadata) × (get_elem? (close_gap ns.files p) i ≡ some file)
        × (file.filename ≡ j)
  removed-found j i g = elim (Option-cases (file_index_find ns.index j)) [
    | inl h ↦
        let nothing : (if str_eq k j then none else none) ≡ some i =
          rw (find-removed ns inv k p f j, h) at g in
        absurd (ground arith)
    | inr (old, h) ↦ elim (Bool-cases (str_eq k j)) [
      | inl e ↦
          let nothing : none ≡ some i = rw (find-removed ns inv k p f j, e) at g in
          absurd (ground arith)
      | inr e ↦
          let (file, at, named) = inv.found j old h in
          let moved : some (if old == length ns.files - 1 then p else old) ≡ some i =
            rw (find-removed ns inv k p f j, e, h) at g in
          let same : (if old == length ns.files - 1 then p else old) ≡ i =
            some-injective _ i moved in
          let other = other_place ns k j p old inv e f h in
          let gap = get-close_gap ns inv k p f last at_last in
          let there : get_elem? (close_gap ns.files p)
                (if old == length ns.files - 1 then p else old)
              ≡ some file =
            ground
              (arith, gap p, gap old, found-inside ns k p inv f, found-inside ns j old inv h) in
          (file, rw same at there, named)
    ]
  ]

  replaced_as :
      (e : CacheEntry)
      → file_index_find ns.index e.filename ≡ some e.file_array_index
      → replaced (moved_name ns.files p (length ns.files - 1)) p e ≡ record e {
        file_array_index =
            if e.file_array_index == length ns.files - 1 then p else e.file_array_index;
      }
  unfolding replaced
  replaced_as e g =
      let name = named_last ns inv k p f last at_last e.filename e.file_array_index g in
      let swapped = str_eq_sym last.filename e.filename in
      rw (moved_name_last ns inv k p f last at_last) (elim (Bool-cases (p == length ns.files - 1)) [
        | inl here ↦
            let place : (if e.file_array_index == length ns.files - 1
                  then p
                  else e.file_array_index)
                ≡ e.file_array_index =
              ground arith in
            rw here (ap (λ n. record e { file_array_index = n }) (sym place))
        | inr away ↦ elim (Bool-cases (e.file_array_index == length ns.files - 1)) [
          | inl last_one ↦ rw (away, last_one) (rw (sym swapped ∙ (sym name ∙ last_one)) refl)
          | inr other ↦ rw (away, other) (rw (sym swapped ∙ (sym name ∙ other)) refl)
        ]
      ])

  sweep_entry-Agrees :
      (e : CacheEntry)
      → (e.valid ≡ true → file_index_find ns.index e.filename ≡ some e.file_array_index)
      → (sweep_entry k
          (moved_name ns.files p (length ns.files - 1))
          p
          (length ns.files - 1)
          e).valid
        ≡ true
      → file_index_find
          (removed ns k p).index
          (sweep_entry k
            (moved_name ns.files p (length ns.files - 1))
            p
            (length ns.files - 1)
            e).filename
        ≡ some
            (sweep_entry k
              (moved_name ns.files p (length ns.files - 1))
              p
              (length ns.files - 1)
              e).file_array_index
  sweep_entry-Agrees e a v =
      let (valid, other, same) =
        sweep_entry_kept k (moved_name ns.files p (length ns.files - 1)) p (length ns.files - 1) e
          v in
      let g = a valid in
      rw
        (
          same,
          replaced_as e g,
          find-removed ns inv k p f e.filename,
          str_eq_sym k e.filename,
          other,
          g,
        )
        refl

  sweep-Agrees :
      (entries : List CacheEntry)
      → Agrees (file_index_find ns.index) entries
      → Agrees
          (file_index_find (removed ns k p).index)
          (sweep k (moved_name ns.files p (length ns.files - 1)) p (length ns.files - 1) entries)
  unfolding sweep
  sweep-Agrees [] a = tt
  sweep-Agrees (e ∷ entries) a = (sweep_entry-Agrees e a.0, sweep-Agrees entries a.1)

-- A removal, of a name that is there or not, keeps a registry in agreement.
pub remove-IsConsistent :
    (ns : Registry) (k : CText)
    → IsConsistent ns
    → IsConsistent (remove_file_metadata_locked ns k).1
unfolding remove_file_metadata_locked
remove-IsConsistent ns k inv = elim (Option-cases (file_index_find ns.index k)) [
  | inl f ↦ rw (f, remove_file_metadata_locked) inv
  | inr (p, f) ↦
      let (last, at_last) = last_file ns k p inv f in
      rw (remove-removed ns k p inv f) (record {
        chains = relink-IsIndex _ _ p (remove-IsIndex ns.index inv.chains k);
        found = removed-found ns inv k p f last at_last;
        listed = removed-listed ns inv k p f last at_last;
        named = λ i file at.
            let (old, was, _, _) = was_there ns inv k p f last at_last i file at in
            inv.named old file was;
        cached = sweep-Agrees ns inv k p f last at_last ns.cache inv.cached;
      })
]
