-- ===== src/NameServer/Registry/Names.antt =====
-- Removing a file takes its name away and leaves the other names their files.
use distributed_documentatio.NameServer.Index.{file_index_find, file_index_remove_entry}
use distributed_documentatio.NameServer.Registry.{
  Registry, remove_file_metadata_locked, sweep, CText, place_to_remove, FileMetadata, moved_name,
  close_gap, relink,
}
use distributed_documentatio.NameServer.Registry.Consistent.{IsConsistent, found-inside}
use distributed_documentatio.NameServer.Registry.Remove.{shifted, find-relink, get-close_gap}
use distributed_documentatio.Base.{
  CText, Option, ℕ, ◌≡◌, some, if◌then◌else◌, get_elem?, str_eq, none, length, Option-cases, inl,
  ◌-◌, inr, true, arith, get_elem?_total, Bool-cases, refl, subst, str_eq_sound, false, ◌==◌, sym,
  ◌∙◌, ap, str_eq_iff,
}
use distributed_documentatio.NameServer.Files.{FileMetadata}
use mathlib.Core.Option.{some-injective}

-- The file that a name stands for: what the registry is for.
abbrev pub file_named : Registry → CText → Option FileMetadata
file_named ns k = elim (file_index_find ns.index k) [ none ↦ none | some i ↦ get_elem? ns.files i ]

-- There is a last file.
pub last_file :
    (ns : Registry) (k : CText) (p : ℕ)
    → IsConsistent ns
    → file_index_find ns.index k ≡ some p
    → (last : FileMetadata) × (get_elem? ns.files (length ns.files - 1) ≡ some last)
last_file ns k p inv f =
    get_elem?_total ns.files (length ns.files - 1) (omega (arith, found-inside ns k p inv f))

-- What a removal leaves when the file is at place `p`.
abbrev pub removed : Registry → CText → ℕ → Registry
removed ns k p =
    let last_index = length ns.files - 1 in
    let moved = moved_name ns.files p last_index in
    record ns {
      files = close_gap ns.files p;
      index = relink (file_index_remove_entry ns.index k).1 moved p;
      cache = sweep k moved p last_index ns.cache;
    }

pub remove-removed :
    (ns : Registry) (k : CText) (p : ℕ)
    → IsConsistent ns
    → file_index_find ns.index k ≡ some p
    → remove_file_metadata_locked ns k ≡ (true, removed ns k p)
unfolding remove_file_metadata_locked
remove-removed ns k p inv f =
    let stays : place_to_remove (length ns.files) p ≡ p =
      unfold place_to_remove in ground (arith, found-inside ns k p inv f) in
    rw (f, remove_file_metadata_locked, stays) refl

-- Two names are at two places.
pub other_place :
    (ns : Registry) (k j : CText) (p i : ℕ)
    → IsConsistent ns
    → str_eq k j ≡ false
    → file_index_find ns.index k ≡ some p
    → file_index_find ns.index j ≡ some i
    → (p == i) ≡ false
other_place ns k j p i inv ne f g = elim (Bool-cases (p == i)) [
  | inr h ↦ h
  | inl h ↦
      let (a, at_a, named_a) = inv.found k p f in
      let (b, at_b, named_b) = inv.found j i g in
      let place : p ≡ i = ground arith in
      let both : some a ≡ some b = sym at_a ∙ rw place at_b in
      let same : k ≡ j = sym named_a ∙ (ap (λ d. d.filename) (some-injective a b both) ∙ named_b) in
      absurd (ground (arith, str_eq_iff k j))
]

module _ (ns : Registry) (inv : IsConsistent ns) (k : CText) (p : ℕ)
    (f : file_index_find ns.index k ≡ some p) where
  pub find-removed :
      (j : CText)
      → file_index_find (removed ns k p).index j ≡ (
          if str_eq k j then none else shifted (length ns.files - 1) p (file_index_find ns.index j))
  find-removed j =
      let (last, at_last) = last_file ns k p inv f in find-relink ns inv k p f last at_last j

  file_named-removed :
      (j : CText) → file_named (removed ns k p) j ≡ (if str_eq k j then none else file_named ns j)
  file_named-removed j = elim (Option-cases (file_index_find ns.index j)) [
    | inl g ↦ rw (file_named, find-removed j, g) (ground arith)
    | inr (i, g) ↦ elim (Bool-cases (str_eq k j)) [
      | inl e ↦ rw (file_named, find-removed j, g, e) refl
      | inr e ↦
          let (last, at_last) = last_file ns k p inv f in
          let other = other_place ns k j p i inv e f g in
          rw (file_named, find-removed j, g, e)
            (ground (
              arith,
              get-close_gap ns inv k p f last at_last p,
              get-close_gap ns inv k p f last at_last i,
              found-inside ns k p inv f,
              found-inside ns j i inv g,
            ))
    ]
  ]

-- In a registry in agreement a removal leaves nothing under the name, and under every other name the file that
-- was there.
pub remove_file_exact :
    (ns : Registry) (k j : CText)
    → IsConsistent ns
    → file_named (remove_file_metadata_locked ns k).1 j
      ≡ (if str_eq k j then none else file_named ns j)
unfolding remove_file_metadata_locked
remove_file_exact ns k j inv = elim (Option-cases (file_index_find ns.index k)) [
  | inl f ↦
      rw (f, remove_file_metadata_locked)
        (elim (Bool-cases (str_eq k j)) [
          | inl e ↦
              rw
                (
                  e,
                  file_named,
                  subst (λ q. file_index_find ns.index q ≡ none) (str_eq_sound k j e) f,
                )
                refl
          | inr e ↦ rw e refl
        ])
  | inr (p, f) ↦ rw (remove-removed ns k p inv f) (file_named-removed ns inv k p f j)
]
