-- ===== src/NameServer/Copying/Permitted.antt =====
-- Whose copies reach a storage server.
use distributed_documentatio.NameServer.Copying.{file_at, handle_copy, copy_file, copy_checked}
use distributed_documentatio.NameServer.Registry.{Registry, file_lookup_locked}
use distributed_documentatio.Base.{
  CText, ℕ, Option, List, ◌≡◌, some, get_elem?, ◌⊎◌, arith, true, ◌∷◌, Option-cases, Bool-cases,
  none, inl, inr, ◌&&◌, sym, refl, ◌∙◌,
}
use distributed_documentatio.NameServer.Files.{
  FileMetadata, file_has_read_access, file_has_write_access,
}
use distributed_documentatio.NameServer.Exchange.{Outcome}
use distributed_documentatio.NameServer.Registry.Consistent.{IsConsistent, lookup-IsConsistent}
use distributed_documentatio.NameServer.Registry.Names.{file_named}
use distributed_documentatio.NameServer.State.{NameServer, is_empty}
use distributed_documentatio.NameServer.Location.Found.{lookup_named}
use distributed_documentatio.Names.{validate_filename}
use distributed_documentatio.NameServer.Creation.Files.{lookup_keeps}

file_at_found :
    (registry : Registry) (o : Option ℕ) (i : ℕ) (f : FileMetadata)
    → file_at registry o ≡ some (i, f)
    → (o ≡ some i) × (get_elem? registry.files i ≡ some f)
unfolding file_at
file_at_found registry none i f h = absurd (ground arith)
file_at_found registry (some place) i f h = ground arith

-- A file that is looked up with its place is the file of the name.
file_at_named :
    (registry : Registry) (k : CText) (i : ℕ) (f : FileMetadata)
    → IsConsistent registry
    → file_at (file_lookup_locked registry k).1 (file_lookup_locked registry k).0 ≡ some (i, f)
    → file_named registry k ≡ some f
file_at_named registry k i f inv h =
    let (found, there) = file_at_found (file_lookup_locked registry k).1 _ i f h in
    lookup_named registry k i f inv found there

-- The user may read the one file and write the other.
abbrev pub MayCopy : CText → CText → CText → Registry → Type 0
MayCopy user src_name dest_name registry =
    (src dest : FileMetadata) × (file_named registry src_name ≡ some src)
    × (file_named registry dest_name ≡ some dest)
    × (file_has_read_access src user ≡ true)
    × (file_has_write_access dest user ≡ true)

module _ (ask ask' : ℕ → List CText → Outcome) (now : ℕ) (user src_name dest_name : CText)
    (ns : NameServer) (inv : IsConsistent ns.registry) where
  copy_file_permitted :
      (MayCopy user src_name dest_name ns.registry)
      ⊎ (copy_file ask now user src_name dest_name ns
          ≡ copy_file ask' now user src_name dest_name ns)
  unfolding copy_file copy_checked
  copy_file_permitted =
      let once = (file_lookup_locked ns.registry src_name).1 in
      let twice = (file_lookup_locked once dest_name).1 in
      elim (Option-cases (file_at once (file_lookup_locked ns.registry src_name).0)) [
        | inl no_source ↦ inr (rw (copy_file, no_source) refl)
        | inr ((src_idx, src), source) ↦
            elim (Option-cases (file_at twice (file_lookup_locked once dest_name).0)) [
              | inl no_dest ↦ inr (rw (copy_file, source, no_dest) refl)
              | inr ((dest_idx, dest), destination) ↦
                  elim (Bool-cases (file_has_read_access src user)) [
                    | inr unread ↦
                        inr (rw (copy_file, source, destination, copy_checked, unread) refl)
                    | inl reads ↦ elim (Bool-cases (file_has_write_access dest user)) [
                      | inr unwritten ↦
                          inr (
                            rw (copy_file, source, destination, copy_checked, reads, unwritten)
                              refl)
                      | inl writes ↦
                          let kept = lookup-IsConsistent ns.registry src_name inv in
                          let source_named =
                            file_at_named ns.registry src_name src_idx src inv source in
                          let dest_named =
                            file_at_named once dest_name dest_idx dest kept destination in
                          inl (
                            src,
                            dest,
                            source_named,
                            sym (lookup_keeps ns.registry src_name dest_name) ∙ dest_named,
                            reads,
                            writes,
                          )
                    ]
                  ]
            ]
      ]

-- On a registry in agreement, if the user of a COPY may not both read the source and write the destination, be it
-- that one of them does not exist, then what comes of it is the same whatever the storage servers would answer:
-- they are not asked.
pub copy_permitted :
    (ask ask' : ℕ → List CText → Outcome) (now : ℕ) (user command src_name dest_name : CText)
    (fields : List CText) (ns : NameServer)
    → IsConsistent ns.registry
    → (MayCopy user src_name dest_name ns.registry)
      ⊎ (handle_copy ask now user ns (command ∷ src_name ∷ dest_name ∷ fields)
          ≡ handle_copy ask' now user ns (command ∷ src_name ∷ dest_name ∷ fields))
unfolding handle_copy
copy_permitted ask ask' now user command src_name dest_name fields ns inv =
    elim (Bool-cases (validate_filename src_name && validate_filename dest_name)) [
      | inr invalid ↦ inr (rw (handle_copy, invalid) refl)
      | inl valid ↦ elim (Bool-cases (is_empty user)) [
        | inl unknown ↦ inr (rw (handle_copy, valid, unknown) refl)
        | inr known ↦
            rw (handle_copy, valid, known)
              (copy_file_permitted ask ask' now user src_name dest_name ns inv)
      ]
    ]
