-- ===== src/NameServer/Deletion/Exact.antt =====
-- DELETE, from its message to its reply.
use distributed_documentatio.NameServer.Deletion.{
  delete_error, delete_on_servers, deleted_reply, handle_delete, DeletePlanEntry, carry_out,
  after_plan, delete_target, matches, Planned, make_plan, stopped, planned,
}
use distributed_documentatio.Base.{
  CText, ℕ, List, ◌≡◌, ◌∷◌, some, false, true, Bool-cases, arith, ◌⊎◌, get_elem?, [], inl,
  Option-cases, inr, if◌then◌else◌, refl, codes, none, ◌∙◌, Option, subst, length, sym, ap,
}
use distributed_documentatio.NameServer.Registry.{Registry}
use distributed_documentatio.NameServer.State.{NameServer, is_empty}
use distributed_documentatio.NameServer.Files.{FileMetadata}
use distributed_documentatio.NameServer.Sharing.Grants.{is_answered}
use distributed_documentatio.NameServer.Exchange.{Outcome, status, got}
use distributed_documentatio.Protocol.Replies.{Reply}
use distributed_documentatio.NameServer.Registry.Consistent.{IsConsistent}
use distributed_documentatio.NameServer.Registry.Names.{file_named}
use distributed_documentatio.NameServer.Paths.{ns_validate_logical_path}
use distributed_documentatio.NameServer.Deletion.Plan.{IsPlan, in_paths, Plans, make_plan-Plans}
use distributed_documentatio.Acl.{same_user}
use distributed_documentatio.NameServer.Index.{file_index_find}
use distributed_documentatio.NameServer.Deletion.Removal.{removed_exact}
use mathlib.Core.Option.{some-injective}
use distributed_documentatio.NameServer.Location.Found.{with_file-named}

delete_error-fails : (o : Outcome) (e : Reply) → delete_error o ≡ some e → is_answered e ≡ false
unfolding delete_error is_answered
delete_error-fails (status n) e h = ground arith
delete_error-fails (got m) e h = ground arith

delete_on_servers-fails :
    (ask : ℕ → List CText → Outcome) (plan : List DeletePlanEntry) (e : Reply)
    → delete_on_servers ask plan ≡ some e
    → is_answered e ≡ false
unfolding delete_on_servers is_answered
delete_on_servers-fails ask [] e h = absurd (ground arith)
delete_on_servers-fails ask (entry ∷ plan) e h = elim (Bool-cases entry.is_directory) [
  | inl folder ↦ delete_on_servers-fails ask plan e (rw (delete_on_servers, folder) at h)
  | inr plain ↦ elim (Option-cases entry.ss) [
    | inl nowhere ↦ ground (arith, plain, nowhere)
    | inr (s, place) ↦
        let command = codes "DELETE_FILE" ∷ entry.path ∷ [] in
        elim (Option-cases (delete_error (ask s command))) [
          | inl agreed ↦
              delete_on_servers-fails ask plan e (rw (delete_on_servers, plain, place, agreed) at h)
          | inr (error, refused) ↦
              let both : some error ≡ some e = rw (delete_on_servers, plain, place, refused) at h in
              let same : error ≡ e = some-injective error e both in
              rw (← same) (delete_error-fails (ask s command) error refused)
        ]
  ]
]

-- The registry afterwards is in agreement; there is an error and every name has the file that it had, or the reply
-- is a success, the target and all that it contains were the user's, and they have no file any more, while every
-- other name has the file that it had.
abbrev pub Deletes : CText → CText → NameServer → Reply × NameServer → Type 0
Deletes user target ns result =
    IsConsistent result.1.registry
    × (((is_answered result.0 ≡ false)
          × ((j : CText) → file_named result.1.registry j ≡ file_named ns.registry j))
        ⊎ ((is_answered result.0 ≡ true)
            × (meta : FileMetadata) × (file_named ns.registry target ≡ some meta)
            × ((j : CText) (file : FileMetadata)
                → file_named ns.registry j ≡ some file
                → matches meta target j ≡ true
                → same_user file.owner user ≡ true)
            × ((j : CText)
                → file_named result.1.registry j
                  ≡ (if matches meta target j then none else file_named ns.registry j))))

deleted_reply-is_answered :
    (target : CText) (plan : List DeletePlanEntry) → is_answered (deleted_reply target plan) ≡ true
unfolding deleted_reply is_answered
deleted_reply-is_answered target [] = refl
deleted_reply-is_answered target (a ∷ []) = refl
deleted_reply-is_answered target (a ∷ b ∷ plan) = refl

-- A file that a name stands for is in the array under this name.
named_place :
    (ns : Registry) (j : CText) (file : FileMetadata)
    → IsConsistent ns
    → file_named ns j ≡ some file
    → (i : ℕ) × (get_elem? ns.files i ≡ some file) × (file.filename ≡ j)
named_place ns j file inv h = elim (Option-cases (file_index_find ns.index j)) [
  | inl e ↦
      let clash : ◌≡◌ {A = Option FileMetadata} none (some file) = rw (file_named, e) at h in
      absurd (ground arith)
  | inr (i, e) ↦
      let (f, there, name) = inv.found j i e in
      let at : get_elem? ns.files i ≡ some file = rw (file_named, e) at h in
      let same : f ≡ file = some-injective f file (sym there ∙ at) in
      (i, at, sym (ap (λ q. q.filename) same) ∙ name)
]

module _ (ask : ℕ → List CText → Outcome) (user target : CText) (ns : NameServer)
    (registry : Registry) (inv : IsConsistent registry)
    (same : (j : CText) → file_named registry j ≡ file_named ns.registry j) (meta : FileMetadata)
    (named : file_named ns.registry target ≡ some meta) where
  abbrev looked : NameServer
  looked = record ns { registry = registry }

  -- What is planned is what matches and has a file.
  planned_names :
      (plan : List DeletePlanEntry) (j : CText)
      → IsPlan user meta target registry.files plan
      → (if in_paths plan j then none else file_named registry j)
        ≡ (if matches meta target j then none else file_named ns.registry j)
  planned_names plan j p = elim (Option-cases (file_named registry j)) [
    | inl absent ↦ ground (arith, absent, same j)
    | inr (file, there) ↦
        let (i, at, name) = named_place registry j file inv there in
        let match : matches meta target j ≡ true → in_paths plan j ≡ true =
          λ h. subst (λ q. in_paths plan q ≡ true) name (p.complete i file at (rw name h)).0 in
        ground (arith, there, same j, match, p.sound j)
  ]

  planned_own :
      (plan : List DeletePlanEntry) (j : CText) (file : FileMetadata)
      → IsPlan user meta target registry.files plan
      → file_named ns.registry j ≡ some file
      → matches meta target j ≡ true
      → same_user file.owner user ≡ true
  planned_own plan j file p there match =
      let (i, at, name) = named_place registry j file inv (same j ∙ there) in
      (p.complete i file at (rw name match)).1

  carry_out_exact :
      (plan : List DeletePlanEntry)
      → IsPlan user meta target registry.files plan
      → Deletes user target ns (carry_out ask target plan looked)
  unfolding carry_out
  carry_out_exact plan p = elim (Option-cases (delete_on_servers ask plan)) [
    | inr (e, refused) ↦
        rw (carry_out, refused) (inv, inl (delete_on_servers-fails ask plan e refused, same))
    | inl agreed ↦
        let (kept, names) = removed_exact (length plan) plan looked (omega arith) inv in
        rw (carry_out, agreed)
          (
            kept,
            inr (
              deleted_reply-is_answered target plan,
              meta,
              named,
              λ j file there match. planned_own plan j file p there match,
              λ j. names j ∙ planned_names plan j p,
            ),
          )
  ]

  after_plan_exact :
      (result : Planned)
      → Plans user meta target registry.files result
      → Deletes user target ns (after_plan ask target looked result)
  unfolding after_plan is_answered
  after_plan_exact (stopped e) p = (inv, inl (p, same))
  after_plan_exact (planned []) p = (inv, inl (refl, same))
  after_plan_exact (planned (entry ∷ plan)) p = carry_out_exact (entry ∷ plan) p

  delete_target_exact :
      (place : ℕ) → Deletes user target ns (delete_target ask user target looked place meta)
  unfolding delete_target is_answered
  delete_target_exact place = elim (Bool-cases (same_user meta.owner user)) [
    | inr stranger ↦ rw (delete_target, stranger) (inv, inl (refl, same))
    | inl own ↦
        rw (delete_target, own)
          (after_plan_exact (make_plan user meta target ns.storage_servers registry.files)
            (make_plan-Plans user meta target ns.storage_servers registry.files))
  ]

-- On a registry in agreement, a DELETE is answered with an error, on any check or at a storage server, and then
-- every name has the file that it had, or with success, and then the target, which was the user's, has no file any
-- more, nor has, if it was a folder, anything below it, all of which was the user's too, and every other name has
-- the file that it had. In both cases the registry is in agreement afterwards.
pub delete_exact :
    (ask : ℕ → List CText → Outcome) (user command target : CText) (fields : List CText)
    (ns : NameServer)
    → IsConsistent ns.registry
    → Deletes user target ns (handle_delete ask user ns (command ∷ target ∷ fields))
unfolding handle_delete is_answered
delete_exact ask user command target fields ns inv =
    elim (Bool-cases (ns_validate_logical_path target)) [
      | inr invalid ↦ rw (handle_delete, invalid) (inv, inl (refl, λ j. refl))
      | inl valid ↦ elim (Bool-cases (is_empty user)) [
        | inl unknown ↦ rw (handle_delete, valid, unknown) (inv, inl (refl, λ j. refl))
        | inr known ↦
            rw (handle_delete, valid, known)
              (with_file-named (Deletes user target ns) ns target _ (delete_target ask user target)
                inv (λ registry kept same absent. (kept, inl (refl, same)))
                (λ registry place meta kept same named found.
                  delete_target_exact ask user target ns registry kept same meta named place))
      ]
    ]
