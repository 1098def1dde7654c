-- ===== src/NameServer/Info/Readers.antt =====
-- Who is shown what is known of a file.
use distributed_documentatio.NameServer.Info.{handle_info, show_file, info_lines}
use distributed_documentatio.NameServer.Sharing.Grants.{is_answered}
use distributed_documentatio.Base.{
  ℕ, CText, List, ◌≡◌, true, false, ◌∷◌, some, ◌⊎◌, inl, sym, ◌∙◌, arith, Bool-cases, inr, subst,
  refl,
}
use distributed_documentatio.NameServer.State.{NameServer, is_empty}
use distributed_documentatio.NameServer.Registry.Consistent.{IsConsistent}
use distributed_documentatio.Names.{validate_filename}
use distributed_documentatio.NameServer.Registry.Names.{file_named}
use distributed_documentatio.NameServer.Files.{FileMetadata, file_has_read_access}
use distributed_documentatio.Protocol.Replies.{answered}
use distributed_documentatio.NameServer.Location.Found.{with_file-named}
use mathlib.Core.Option.{some-injective}

-- On a registry in agreement, a client that names itself is shown what is known of a file with a valid name exactly
-- if the file exists and the user may read it; every name has the file that it had.
pub info_exact :
    (format_time : ℕ → CText) (user command filename : CText) (fields : List CText)
    (ns : NameServer)
    → IsConsistent ns.registry
    → validate_filename filename ≡ true
    → is_empty user ≡ false
    → let result = handle_info format_time user ns (command ∷ filename ∷ fields) in
      ((j : CText) → file_named result.1.registry j ≡ file_named ns.registry j)
      × (((is_answered result.0 ≡ false)
            × ((file : FileMetadata)
                → file_named ns.registry filename ≡ some file
                → file_has_read_access file user ≡ false))
          ⊎ ((file : FileMetadata) × (file_named ns.registry filename ≡ some file)
              × (file_has_read_access file user ≡ true)
              × (result.0 ≡ answered (info_lines format_time file))))
unfolding handle_info show_file is_answered
info_exact format_time user command filename fields ns inv valid known =
    rw (handle_info, valid, known)
      (with_file-named
        (λ result.
          ((j : CText) → file_named result.1.registry j ≡ file_named ns.registry j)
          × (((is_answered result.0 ≡ false)
                × ((file : FileMetadata)
                    → file_named ns.registry filename ≡ some file
                    → file_has_read_access file user ≡ false))
              ⊎ ((file : FileMetadata) × (file_named ns.registry filename ≡ some file)
                  × (file_has_read_access file user ≡ true)
                  × (result.0 ≡ answered (info_lines format_time file)))))
        ns filename _ (show_file format_time user) inv
        (λ registry kept same absent.
          (same, inl (refl, λ file h. absurd (let clash = sym absent ∙ h in ground arith))))
        (λ registry place file kept same named found.
          elim (Bool-cases (file_has_read_access file user)) [
            | inl reads ↦ rw (show_file, reads) (same, inr (file, named, reads, refl))
            | inr refused ↦
                rw (show_file, refused)
                  (
                    same,
                    inl (
                      refl,
                      λ q h.
                          subst (λ f. file_has_read_access f user ≡ false)
                            (some-injective file q (sym named ∙ h)) refused,
                    ),
                  )
          ]))
