-- ===== src/NameServer/Registry/Update.antt =====
-- New metadata of a file, under its name.
use distributed_documentatio.NameServer.Registry.{Registry}
use distributed_documentatio.NameServer.Registry.Consistent.{IsConsistent}
use distributed_documentatio.Base.{
  CText, ℕ, ◌≡◌, some, get_elem?, set, sym, ◌∙◌, Bool-cases, if◌then◌else◌, ap, str_eq, ◌==◌,
  get_elem?-set, inr, inl, get_elem?-inside, arith, str_eq_sound, true, refl, Option-cases,
}
use distributed_documentatio.NameServer.Files.{FileMetadata}
use distributed_documentatio.NameServer.Index.{file_index_find}
use distributed_documentatio.NameServer.Registry.Names.{file_named, other_place}
use mathlib.Core.Option.{some-injective}

module _ (ns : Registry) (inv : IsConsistent ns) (k : CText) (place : ℕ) (file new : FileMetadata)
    (here : file_index_find ns.index k ≡ some place) (at : get_elem? ns.files place ≡ some file)
    (same_name : new.filename ≡ file.filename) where
  get-updated :
      (i : ℕ)
      → get_elem? (set ns.files place new) i
        ≡ (if place == i then some new else get_elem? ns.files i)
  get-updated i = get_elem?-set ns.files place new i (get_elem?-inside ns.files place file at)

  -- The name of the file that is updated.
  name_at : file.filename ≡ k
  name_at =
      let (f, at', named) = inv.found k place here in
      let both : some file ≡ some f = sym at ∙ at' in
      ap (λ q. q.filename) (some-injective file f both) ∙ named

  updated-found :
      (j : CText) (i : ℕ)
      → file_index_find ns.index j ≡ some i
      → (f : FileMetadata) × (get_elem? (set ns.files place new) i ≡ some f) × (f.filename ≡ j)
  updated-found j i h = elim (Bool-cases (place == i)) [
    | inr other ↦
        let (f, there, named) = inv.found j i h in (f, rw (get-updated i, other) there, named)
    | inl e ↦
        let same : place ≡ i = ground arith in
        let (f, there, named) = inv.found j i h in
        let both : some file ≡ some f = sym at ∙ rw same there in
        (
          new,
          rw (get-updated i, e) refl,
          same_name ∙ ap (λ q. q.filename) (some-injective file f both) ∙ named,
        )
  ]

  -- A file that is there is the new one, or was there.
  updated-cases :
      (i : ℕ) (f : FileMetadata)
      → get_elem? (set ns.files place new) i ≡ some f
      → (old : FileMetadata) × (get_elem? ns.files i ≡ some old) × (old.filename ≡ f.filename)
  updated-cases i f h = elim (Bool-cases (place == i)) [
    | inr other ↦ (f, rw (get-updated i, other) at h, refl)
    | inl e ↦
        let same : place ≡ i = ground arith in
        let both : some new ≡ some f = rw (get-updated i, e) at h in
        (file, rw (← same) at, sym same_name ∙ ap (λ q. q.filename) (some-injective new f both))
  ]

  pub update-IsConsistent : IsConsistent (record ns { files = set ns.files place new })
  update-IsConsistent = record {
    chains = inv.chains;
    found = updated-found;
    listed = λ i f h.
        let (old, there, name) = updated-cases i f h in rw (← name) (inv.listed i old there);
    named = λ i f h.
        let (old, there, name) = updated-cases i f h in rw (← name) (inv.named i old there);
    cached = inv.cached;
  }

  -- The name has the new metadata, and every other name the file that it had.
  pub update_exact :
      (j : CText)
      → file_named (record ns { files = set ns.files place new }) j
        ≡ (if str_eq k j then some new else file_named ns j)
  update_exact j = elim (Bool-cases (str_eq k j)) [
    | inl e ↦
        let same : k ≡ j = str_eq_sound k j e in
        let found : file_index_find ns.index j ≡ some place = rw (← same) here in
        let last : (place == place) ≡ true = ground arith in
        rw (file_named, found, e, get-updated place, last) refl
    | inr e ↦ elim (Option-cases (file_index_find ns.index j)) [
      | inl f ↦ rw (file_named, e, f) refl
      | inr (i, f) ↦
          rw (file_named, e, f, get-updated i, other_place ns k j place i inv e here f) refl
    ]
  ]
