-- ===== src/NameServer/Listing/Children.antt =====
-- Which entries VIEWFOLDER shows.
use distributed_documentatio.NameServer.Listing.{has_slash, is_remainder, lies_in}
use distributed_documentatio.Base.{
  CText, str_eq, ◌≡◌, ◌++◌, all, true, not, ◌∷◌, arith, ◌↔◌, ◌<◌, false, Option-cases, [], length,
  refl, inl, inr, ◌∙◌, ap,
}
use distributed_documentatio.NameServer.State.{is_empty}
use distributed_documentatio.NameServer.Paths.Tree.{
  no_slash, behind_prefix-append, behind_prefix_sound,
}
use distributed_documentatio.NameServer.Paths.{slash, behind_prefix}

slash-no_slash : (s : CText) → has_slash s ≡ not (no_slash s)
unfolding has_slash no_slash all
slash-no_slash [] = refl
slash-no_slash (c ∷ s) = ground (arith, slash-no_slash s)

-- A folder's own entries: the names without a slash for the root, and else the folder's path, a slash and a name that
-- is not empty and has no slash.
abbrev pub Child : CText → CText → CText → Type 0
Child [] filename name = (filename ≡ name) × (no_slash name ≡ true)
Child (f ∷ folder) filename name =
    (filename ≡ (f ∷ folder) ++ slash ∷ name) × (0 < length name) × (no_slash name ≡ true)

remainder_lem :
    (rest : CText)
    → is_remainder rest ≡ true
    → (name : CText) × (rest ≡ slash ∷ name) × (0 < length name) × (no_slash name ≡ true)
unfolding is_remainder is_empty
remainder_lem [] h = absurd (ground arith)
remainder_lem (c ∷ []) h = absurd (ground arith)
remainder_lem (c ∷ d ∷ name) h =
    let same : c ≡ slash = ground arith in
    (d ∷ name, rw same refl, omega arith, ground (arith, slash-no_slash (d ∷ name)))

longer : (folder name : CText) → str_eq (folder ++ slash ∷ name) folder ≡ false
unfolding str_eq
longer [] name = refl
longer (c ∷ folder) name = ground (arith, longer folder name)

Child-lies_in :
    (folder filename name : CText) → Child folder filename name → lies_in folder filename ≡ true
unfolding lies_in is_remainder is_empty
Child-lies_in [] filename name (same, clear) = rw same (ground (arith, slash-no_slash name))
Child-lies_in (f ∷ folder) filename [] (same, some_name, clear) = absurd (omega (arith, some_name))
Child-lies_in (f ∷ folder) filename (d ∷ name) (same, some_name, clear) =
    rw
      (
        same,
        lies_in,
        longer (f ∷ folder) (d ∷ name),
        behind_prefix-append (f ∷ folder) (slash ∷ d ∷ name),
      )
      (ground (arith, clear, slash-no_slash (d ∷ name)))

lies_in-Child :
    (folder filename : CText)
    → lies_in folder filename ≡ true
    → (name : CText) × Child folder filename name
unfolding lies_in
lies_in-Child [] filename h = (filename, (refl, ground (arith, slash-no_slash filename)))
lies_in-Child (f ∷ folder) filename h = elim (Option-cases (behind_prefix filename (f ∷ folder))) [
  | inl e ↦ absurd (ground (arith, e))
  | inr (rest, e) ↦
      let (name, same, some_name, clear) = remainder_lem rest (ground (arith, e)) in
      (
        name,
        (
          behind_prefix_sound filename (f ∷ folder) rest e ∙ ap (λ r. (f ∷ folder) ++ r) same,
          some_name,
          clear,
        ),
      )
]

-- An entry is listed for a folder exactly if its path is the folder's, a slash and one more name, or, for the root, a
-- name without a slash: what lies deeper is not listed, and neither is the folder itself.
pub lies_in_iff :
    (folder filename : CText)
    → (lies_in folder filename ≡ true) ↔ ((name : CText) × Child folder filename name)
lies_in_iff folder filename =
    (lies_in-Child folder filename, λ c. Child-lies_in folder filename c.0 c.1)
