-- ===== src/NameServer/Execution/Readers.antt =====
-- Whose EXEC runs a file.
use distributed_documentatio.Base.{
  CText, ◌≡◌, ℕ, some, List, true, Option, ◌⊎◌, ◌∷◌, false, Bool-cases, inr, inl, Option-cases,
  get_elem?, refl,
}
use distributed_documentatio.NameServer.Execution.{handle_exec, exec_file}
use distributed_documentatio.NameServer.Registry.{Registry, file_lookup_locked}
use distributed_documentatio.NameServer.Files.{FileMetadata, file_has_read_access}
use distributed_documentatio.NameServer.Sharing.{with_file}
use distributed_documentatio.NameServer.Registry.Names.{file_named}
use distributed_documentatio.NameServer.Sharing.Grants.{is_answered}
use distributed_documentatio.NameServer.Exchange.{Outcome}
use distributed_documentatio.NameServer.State.{NameServer, is_empty}
use distributed_documentatio.NameServer.Registry.Consistent.{IsConsistent}
use distributed_documentatio.Names.{validate_filename}
use distributed_documentatio.NameServer.Location.Found.{lookup_named}

-- The user may read the file.
abbrev pub MayRead : CText → CText → Registry → Type 0
MayRead user filename registry =
    (file : FileMetadata) × (file_named registry filename ≡ some file)
    × (file_has_read_access file user ≡ true)

-- On a registry in agreement, if the user of an EXEC may not read the file, be it that there is none, then it is
-- answered with an error, and what comes of it is the same whatever the storage servers would answer and whatever
-- the shell would print: neither is asked.
pub exec_permitted :
    (ask ask' : ℕ → List CText → Outcome) (run run' : CText → Option CText) (now : ℕ)
    (user command filename : CText) (fields : List CText) (ns : NameServer)
    → IsConsistent ns.registry
    → (MayRead user filename ns.registry)
      ⊎ ((is_answered (handle_exec ask run now user ns (command ∷ filename ∷ fields)).0 ≡ false)
          × (handle_exec ask run now user ns (command ∷ filename ∷ fields)
              ≡ handle_exec ask' run' now user ns (command ∷ filename ∷ fields)))
unfolding handle_exec exec_file with_file is_answered
exec_permitted ask ask' run run' now user command filename fields ns inv =
    elim (Bool-cases (validate_filename filename)) [
      | inr invalid ↦ inr (rw (handle_exec, invalid) (refl, refl))
      | inl valid ↦ elim (Bool-cases (is_empty user)) [
        | inl unknown ↦ inr (rw (handle_exec, valid, unknown) (refl, refl))
        | inr known ↦ elim (Option-cases (file_lookup_locked ns.registry filename).0) [
          | inl missing ↦ inr (rw (handle_exec, valid, known, with_file, missing) (refl, refl))
          | inr (place, e) ↦
              elim (Option-cases
                (get_elem? (file_lookup_locked ns.registry filename).1.files place)) [
                  | inl gone ↦ inr (rw (handle_exec, valid, known, with_file, e, gone) (refl, refl))
                  | inr (file, there) ↦ elim (Bool-cases (file_has_read_access file user)) [
                    | inl reads ↦
                        inl (file, lookup_named ns.registry filename place file inv e there, reads)
                    | inr refused ↦ inr (
                        rw (handle_exec, valid, known, with_file, e, there, exec_file, refused)
                          (refl, refl))
                  ]
                ]
        ]
      ]
    ]
