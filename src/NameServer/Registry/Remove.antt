-- ===== src/NameServer/Registry/Remove.antt =====
-- Removing a file, as the names see it.
use distributed_documentatio.NameServer.Index.Laws.{find-remove, find-set, remove-IsIndex}
use distributed_documentatio.NameServer.Index.{
  file_index_find, file_index_remove_entry, set_node_index, FileIndex,
}
use distributed_documentatio.NameServer.Registry.{
  Registry, moved_name, relink, close_gap, ℕ, CText, FileMetadata, unless_empty,
}
use distributed_documentatio.NameServer.Registry.Consistent.{IsConsistent, found-inside}
use distributed_documentatio.Base.{
  ℕ, CText, Option, ◌≡◌, some, if◌then◌else◌, get_elem?, ◌==◌, length, none, ◌-◌, false, str_eq,
  Bool-cases, inr, inl, str_eq_sound, arith, ◌<◌, sym, ◌∷◌, ◌∙◌, refl, subst, [], str_eq_refl, true,
  Option-cases, str_eq_iff, ltb, get_elem?-take, set, get_elem?-set,
}
use distributed_documentatio.NameServer.Files.{FileMetadata}
use mathlib.Core.Option.{some-injective}

-- Where a file is afterwards: the last file, `last`, is at the freed place `p`.
abbrev pub shifted : ℕ → ℕ → Option ℕ → Option ℕ
shifted last p none = none
shifted last p (some i) = some (if i == last then p else i)

unless_empty_lem : (s : CText) → 0 < length s → unless_empty s ≡ some s
unfolding unless_empty
unless_empty_lem [] h = absurd (omega arith)
unless_empty_lem (c ∷ s) h = refl

shifted_same : (last p : ℕ) (o : Option ℕ) → (p == last) ≡ true → shifted last p o ≡ o
shifted_same last p none e = refl
shifted_same last p (some i) e = ground arith

relink-some :
    (index : FileIndex) (name : CText) (old p : ℕ)
    → file_index_find index name ≡ some old
    → relink index (some name) p ≡ set_node_index index name p
unfolding relink
relink-some index name old p h = rw (h, relink) refl

module _ (ns : Registry) (inv : IsConsistent ns) (k : CText) (p : ℕ)
    (at_p : file_index_find ns.index k ≡ some p) (last : FileMetadata)
    (at_last : get_elem? ns.files (length ns.files - 1) ≡ some last) where
  -- Another file is last.
  pub other_name : (p == length ns.files - 1) ≡ false → str_eq k last.filename ≡ false
  other_name ne = elim (Bool-cases (str_eq k last.filename)) [
    | inr h ↦ h
    | inl h ↦
        let same : k ≡ last.filename = str_eq_sound k last.filename h in
        let listed : file_index_find ns.index k ≡ some (length ns.files - 1) =
          rw same (inv.listed (length ns.files - 1) last at_last) in
        absurd (ground (arith, some-injective p (length ns.files - 1) (sym at_p ∙ listed)))
  ]

  pub moved_name_last :
      moved_name ns.files p (length ns.files - 1)
      ≡ (if p == length ns.files - 1 then none else some last.filename)
  unfolding moved_name
  moved_name_last =
      rw (at_last, unless_empty_lem last.filename (inv.named (length ns.files - 1) last at_last).0)
        refl

  pub named_last :
      (j : CText) (i : ℕ)
      → file_index_find ns.index j ≡ some i
      → (i == length ns.files - 1) ≡ str_eq last.filename j
  named_last j i f = elim (Bool-cases (i == length ns.files - 1)) [
    | inl e ↦
        let (file, at, named) = inv.found j i f in
        let place : i ≡ length ns.files - 1 = ground arith in
        let both : some last ≡ some file =
          sym at_last ∙ subst (λ n. get_elem? ns.files n ≡ some file) place at in
        let same : last ≡ file = some-injective last file both in
        rw e (sym (rw (same, named) (str_eq_refl j)))
    | inr e ↦ elim (Bool-cases (str_eq last.filename j)) [
      | inr h ↦ rw (e, h) refl
      | inl h ↦
          let same : last.filename ≡ j = str_eq_sound last.filename j h in
          let listed : file_index_find ns.index j ≡ some (length ns.files - 1) =
            rw same at (inv.listed (length ns.files - 1) last at_last) in
          absurd (ground (arith, some-injective i (length ns.files - 1) (sym f ∙ listed)))
    ]
  ]

  last_found : (j : CText) → file_index_find ns.index j ≡ none → str_eq last.filename j ≡ false
  last_found j f = elim (Bool-cases (str_eq last.filename j)) [
    | inr h ↦ h
    | inl h ↦
        let same : last.filename ≡ j = str_eq_sound last.filename j h in
        let listed : file_index_find ns.index j ≡ some (length ns.files - 1) =
          rw same at (inv.listed (length ns.files - 1) last at_last) in
        let clash : none ≡ some (length ns.files - 1) = sym f ∙ listed in ground arith
  ]

  unlinked-last :
      (p == length ns.files - 1) ≡ false
      → file_index_find (file_index_remove_entry ns.index k).1 last.filename
        ≡ some (length ns.files - 1)
  unlinked-last ne =
      rw (find-remove ns.index inv.chains k last.filename, other_name ne)
        (inv.listed (length ns.files - 1) last at_last)

  pub find-relink :
      (j : CText)
      → file_index_find
          (relink
            (file_index_remove_entry ns.index k).1
            (moved_name ns.files p (length ns.files - 1))
            p)
          j
        ≡ (if str_eq k j
            then none
            else shifted (length ns.files - 1) p (file_index_find ns.index j))
  unfolding relink
  find-relink j =
      let removed = find-remove ns.index inv.chains k in
      elim (Bool-cases (p == length ns.files - 1)) [
        | inl e ↦
            rw
              (
                moved_name_last,
                e,
                relink,
                removed j,
                shifted_same _ p (file_index_find ns.index j) e,
              )
              refl
        | inr e ↦
            rw
              (
                moved_name_last,
                e,
                relink-some _ last.filename _ p (unlinked-last e),
                find-set _ (remove-IsIndex ns.index inv.chains k) last.filename p j _
                    (unlinked-last e),
                removed j,
              )
              (elim (Option-cases (file_index_find ns.index j)) [
                | inl f ↦ rw (f, last_found j f) (ground arith)
                | inr (i, f) ↦ rw (f) (
                    ground (
                      arith,
                      other_name e,
                      named_last j i f,
                      str_eq_iff k j,
                      str_eq_iff last.filename j,
                      str_eq_iff k last.filename,
                    ))
              ])
      ]

  pub get-close_gap :
      (i : ℕ)
      → get_elem? (close_gap ns.files p) i ≡ (
          if ltb i (length ns.files - 1)
          then if p == i then some last else get_elem? ns.files i
          else none)
  unfolding close_gap
  get-close_gap i =
      rw
        (
          at_last,
          get_elem?-take (length ns.files - 1) (set ns.files p last) i,
          get_elem?-set ns.files p last i (found-inside ns k p inv at_p).0,
        )
        refl
