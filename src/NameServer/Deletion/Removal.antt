-- ===== src/NameServer/Deletion/Removal.antt =====
-- The metadata of what was planned is removed, whatever the order.
use distributed_documentatio.Base.{
  List, Option, ◌∷◌, ℕ, ◌≡◌, Option-cases, length, [], inl, ◌≤◌, some, subst, Bool-cases, ◌+◌, ap,
  inr, CText, str_eq, refl, ◌||◌, if◌then◌else◌, ltb, none, arith, suc, sym, ◌∙◌,
}
use distributed_documentatio.NameServer.Deletion.{
  take_longest, remove_entry, remove_entries, DeletePlanEntry,
}
use distributed_documentatio.NameServer.Deletion.Plan.{in_paths}
use distributed_documentatio.NameServer.State.{NameServer}
use distributed_documentatio.NameServer.Registry.{remove_file_metadata_locked}
use distributed_documentatio.NameServer.Registry.Consistent.{IsConsistent}
use distributed_documentatio.NameServer.Registry.Names.{file_named, remove_file_exact}
use distributed_documentatio.NameServer.Registry.Keeps.{remove-IsConsistent}

-- A plan is taken apart into one entry and the others.
abbrev Taken : List DeletePlanEntry → Option (DeletePlanEntry × List DeletePlanEntry) → Type 0
Taken plan none = plan ≡ []
Taken plan (some (entry, rest)) =
    (length plan ≡ length rest + 1)
    × ((j : CText) → in_paths plan j ≡ str_eq entry.path j || in_paths rest j)

take_longest-Taken : (plan : List DeletePlanEntry) → Taken plan (take_longest plan)
unfolding take_longest in_paths
take_longest-Taken [] = refl
take_longest-Taken (entry ∷ plan) =
    let ih = take_longest-Taken plan in
    elim (Option-cases (take_longest plan)) [
      | inl e ↦
          let empty : plan ≡ [] = subst (Taken plan) e ih in
          rw (take_longest, e)
            (
              ap (λ q. suc (length q)) empty,
              λ j. ap (λ q. str_eq entry.path j || in_paths q j) empty,
            )
      | inr ((best, rest), e) ↦
          let (one_less, parts) = subst (Taken plan) e ih in
          elim (Bool-cases (ltb (length best.path) (length entry.path))) [
            | inl longer ↦ rw (take_longest, e, longer) (omega arith, λ j. refl)
            | inr shorter ↦
                rw (take_longest, e, shorter)
                  (omega (arith, one_less), λ j. ground (arith, parts j))
          ]
    ]

remove_entry-registry :
    (entry : DeletePlanEntry) (ns : NameServer)
    → (remove_entry entry ns).registry ≡ (remove_file_metadata_locked ns.registry entry.path).1
unfolding remove_entry
remove_entry-registry entry ns =
    elim (Bool-cases (remove_file_metadata_locked ns.registry entry.path).0) [
      | inl e ↦ rw (remove_entry, e) refl
      | inr e ↦ rw (remove_entry, e) refl
    ]

-- After as many rounds as the plan has entries, exactly what was planned has no file any more.
pub removed_exact :
    (rounds : ℕ) (plan : List DeletePlanEntry) (ns : NameServer)
    → length plan ≤ rounds
    → IsConsistent ns.registry
    → IsConsistent (remove_entries rounds plan ns).registry
      × ((j : CText)
          → file_named (remove_entries rounds plan ns).registry j
            ≡ (if in_paths plan j then none else file_named ns.registry j))
unfolding remove_entries in_paths
removed_exact ℕ.zero [] ns enough inv = (inv, λ j. refl)
removed_exact ℕ.zero (entry ∷ plan) ns enough inv = absurd (omega (arith, enough))
removed_exact (suc rounds) plan ns enough inv =
    let taken = take_longest-Taken plan in
    elim (Option-cases (take_longest plan)) [
      | inl e ↦
          let empty : plan ≡ [] = subst (Taken plan) e taken in
          rw (remove_entries, e)
            (
              inv,
              λ j. ap (λ q. if in_paths q j then none else file_named ns.registry j) (sym empty),
            )
      | inr ((entry, rest), e) ↦
          let (one_less, parts) = subst (Taken plan) e taken in
          let after = remove_entry entry ns in
          let same = remove_entry-registry entry ns in
          let kept : IsConsistent after.registry =
            subst IsConsistent (sym same) (remove-IsConsistent ns.registry entry.path inv) in
          let (inv', names) =
            removed_exact rounds rest after (omega (arith, enough, one_less)) kept in
          rw (remove_entries, e)
            (
              inv',
              λ j.
                  names j
                  ∙ rw same
                      (ground (arith, remove_file_exact ns.registry entry.path j inv, parts j)),
            )
    ]
