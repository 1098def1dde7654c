-- ===== src/NameServer/Paths/Tree.antt =====
-- Parents and descendants.
use distributed_documentatio.NameServer.Paths.{
  slash, at_last_slash, ns_split_parent_child, behind_prefix, ends_segment, ns_is_descendant_path,
}
use distributed_documentatio.Text.{safe_strcpy}
use distributed_documentatio.Base.{
  CText, all, ◌++◌, ◌≡◌, Bool, some, not, none, ◌∷◌, true, ◌==◌, arith, [], refl, Bool-cases,
  Option-cases, ℕ, ◌↔◌, inl, length, ◌⊎◌, ap, ◌<◌, inr, subst, ◌∙◌, Option, sym, false, ◌+◌,
  length-append, ltb, suc, take_all, zero,
}
use mathlib.Core.Option.{some-injective}
use mathlib.Core.List.{append-nil}

pub behind_prefix-append : (a r : CText) → behind_prefix (a ++ r) a ≡ some r
unfolding behind_prefix
behind_prefix-append [] r = refl
behind_prefix-append (x ∷ a) r = ground (arith, behind_prefix-append a r)

pub behind_prefix_sound : (c a r : CText) → behind_prefix c a ≡ some r → c ≡ a ++ r
unfolding behind_prefix
behind_prefix_sound c [] r h = some-injective c r h
behind_prefix_sound [] (x ∷ a) r h = absurd (ground arith)
behind_prefix_sound (y ∷ c) (x ∷ a) r h = elim (Bool-cases (y == x)) [
  | inl e ↦
      let same : y ≡ x = ground arith in
      let rest : behind_prefix c a ≡ some r = rw e at h in
      rw same (ap (◌∷◌ x) (behind_prefix_sound c a r rest))
  | inr e ↦ let nothing : none ≡ some r = rw e at h in absurd (ground arith)
]

unfoldable pub no_slash : CText → Bool
no_slash s = all (λ c. not (c == slash)) s

at_last_slash-none : (s : CText) → at_last_slash s ≡ none → no_slash s ≡ true
unfolding at_last_slash no_slash all
at_last_slash-none [] h = refl
at_last_slash-none (c ∷ s) h = elim (Option-cases (at_last_slash s)) [
  | inl e ↦ elim (Bool-cases (c == slash)) [
    | inl d ↦
        let split : ◌≡◌ {A = Option (CText × CText)} (some ([], s)) none = rw (e, d) at h in
        absurd (ground arith)
    | inr d ↦ rw d (at_last_slash-none s e)
  ]
  | inr ((p, q), e) ↦
      let split : ◌≡◌ {A = Option (CText × CText)} (some (c ∷ p, q)) none = rw e at h in
      absurd (ground arith)
]

at_last_slash-some :
    (s p q : CText) → at_last_slash s ≡ some (p, q) → (s ≡ p ++ slash ∷ q) × (no_slash q ≡ true)
unfolding at_last_slash
at_last_slash-some [] p q h = absurd (ground arith)
at_last_slash-some (c ∷ s) p q h = elim (Option-cases (at_last_slash s)) [
  | inl e ↦ elim (Bool-cases (c == slash)) [
    | inl d ↦
        let same : c ≡ slash = ground arith in
        let both : some ([], s) ≡ some (p, q) = rw (e, d) at h in
        let pair = some-injective ([], s) (p, q) both in
        (
          rw same (ap (λ u. u.0 ++ slash ∷ u.1) pair),
          subst (λ u. no_slash u.1 ≡ true) pair (at_last_slash-none s e),
        )
    | inr d ↦
        let nothing : ◌≡◌ {A = Option (CText × CText)} none (some (p, q)) = rw (e, d) at h in
        absurd (ground arith)
  ]
  | inr ((p', q'), e) ↦
      let both : some (c ∷ p', q') ≡ some (p, q) = rw e at h in
      let pair = some-injective (c ∷ p', q') (p, q) both in
      let (joined, clear) = at_last_slash-some s p' q' e in
      (
        ap (◌∷◌ c) joined ∙ ap (λ u. u.0 ++ slash ∷ u.1) pair,
        subst (λ u. no_slash u.1 ≡ true) pair clear,
      )
]

safe_strcpy_fits : (n : ℕ) (s : CText) → length s < n → safe_strcpy n s ≡ some s
unfolding safe_strcpy
safe_strcpy_fits zero s h = absurd (omega arith)
safe_strcpy_fits (suc n) s h = ap some (take_all n s (omega arith))

-- A path that fits both buffers is split at its last slash: into a parent and a child that has no slash; a path
-- without a slash is the child of the empty parent.
pub split_exact :
    (parent_size child_size : ℕ) (path parent child : CText)
    → length path < parent_size
    → length path < child_size
    → ns_split_parent_child parent_size child_size path ≡ some (parent, child)
    → (no_slash child ≡ true)
      × (((parent ≡ []) × (child ≡ path)) ⊎ (path ≡ parent ++ slash ∷ child))
unfolding ns_split_parent_child
split_exact parent_size child_size path parent child small short h =
    elim (Option-cases (at_last_slash path)) [
      | inl e ↦
          let both : some ([], path) ≡ some (parent, child) =
            rw
              (
                ns_split_parent_child,
                e,
                safe_strcpy_fits parent_size [] (omega arith),
                safe_strcpy_fits child_size path short,
              )
              at h in
          let pair = some-injective ([], path) (parent, child) both in
          (
            subst (λ u. no_slash u.1 ≡ true) pair (at_last_slash-none path e),
            inl (sym (ap (λ u. u.0) pair), sym (ap (λ u. u.1) pair)),
          )
      | inr ((p, q), e) ↦
          let (joined, clear) = at_last_slash-some path p q e in
          let sizes : length path ≡ length p + length (slash ∷ q) =
            rw joined (length-append p (slash ∷ q)) in
          let room : ltb parent_size (length p + 1) ≡ false = ground arith in
          let both : some (p, q) ≡ some (parent, child) =
            rw (ns_split_parent_child, e, room, safe_strcpy_fits child_size q (omega arith)) at h in
          let pair = some-injective (p, q) (parent, child) both in
          (
            subst (λ u. no_slash u.1 ≡ true) pair clear,
            inr (joined ∙ ap (λ u. u.0 ++ slash ∷ u.1) pair),
          )
    ]

ending :
    (a r : CText) → ends_segment r ≡ true → (a ++ r ≡ a) ⊎ ((q : CText) × (a ++ r ≡ a ++ slash ∷ q))
unfolding ends_segment
ending a [] h = inl (append-nil a)
ending a (c ∷ r) h = let same : c ≡ slash = ground arith in inr (r, ap (λ x. a ++ x ∷ r) same)

descendant_sound :
    (c a : CText)
    → ns_is_descendant_path c a ≡ true
    → (a ≡ []) ⊎ ((c ≡ a) ⊎ ((r : CText) × (c ≡ a ++ slash ∷ r)))
unfolding ns_is_descendant_path
descendant_sound c [] h = inl refl
descendant_sound c (x ∷ a) h = elim (Option-cases (behind_prefix c (x ∷ a))) [
  | inl e ↦ let no : false ≡ true = rw (e, ns_is_descendant_path) at h in absurd (ground arith)
  | inr (r, e) ↦
      let ends : ends_segment r ≡ true = rw (e, ns_is_descendant_path) at h in
      let whole = behind_prefix_sound c (x ∷ a) r e in
      elim (ending (x ∷ a) r ends) [
        | inl d ↦ inr (inl (whole ∙ d))
        | inr (q, d) ↦ inr (inr (q, whole ∙ d))
      ]
]

descends : (a r : CText) → ends_segment r ≡ true → ns_is_descendant_path (a ++ r) a ≡ true
unfolding ns_is_descendant_path
descends [] r h = refl
descends (x ∷ a) r h = rw (ns_is_descendant_path, behind_prefix-append (x ∷ a) r) h

descends_all : (c : CText) → ns_is_descendant_path c [] ≡ true
unfolding ns_is_descendant_path
descends_all c = refl

descendant_complete :
    (c a : CText)
    → (a ≡ []) ⊎ ((c ≡ a) ⊎ ((r : CText) × (c ≡ a ++ slash ∷ r)))
    → ns_is_descendant_path c a ≡ true
unfolding ends_segment
descendant_complete c a (inl e) = rw e (descends_all c)
descendant_complete c a (inr (inl e)) =
    rw e (let whole = descends a [] refl in rw (append-nil a) at whole)
descendant_complete c a (inr (inr (r, e))) = rw e (descends a (slash ∷ r) refl)

-- A path is a descendant of another exactly if that is empty, is the path itself, or is a prefix of it that a slash
-- follows.
pub descendant_iff :
    (c a : CText)
    → ns_is_descendant_path c a ≡ true ↔ (a ≡ []) ⊎ ((c ≡ a) ⊎ ((r : CText) × (c ≡ a ++ slash ∷ r)))
descendant_iff c a = (descendant_sound c a, descendant_complete c a)
