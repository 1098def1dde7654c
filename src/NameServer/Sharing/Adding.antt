-- ===== src/NameServer/Sharing/Adding.antt =====
-- ADDACCESS, from its message to the rights afterwards.
use distributed_documentatio.Base.{
  ℕ, List, CText, Bool, ◌≡◌, false, some, ◌⊎◌, if◌then◌else◌, true, str_eq, inl, codes, ◌∷◌, ◌||◌,
  [], sym, ◌∙◌, arith, Bool-cases, inr, subst, ap, refl, length, ◌<◌, str_eq_sound,
}
use distributed_documentatio.NameServer.Sharing.{
  put_file, handle_addaccess, tell_server, perm_token, grant_file, with_file,
}
use distributed_documentatio.NameServer.State.{NameServer, is_empty}
use distributed_documentatio.NameServer.Sharing.Grants.{is_answered}
use distributed_documentatio.NameServer.Exchange.{Outcome}
use distributed_documentatio.NameServer.Files.{FileMetadata}
use distributed_documentatio.NameServer.Registry.Consistent.{IsConsistent}
use distributed_documentatio.Protocol.Replies.{Reply, failed, err_file_not_found}
use distributed_documentatio.NameServer.Sync.{indexed_file}
use distributed_documentatio.NameServer.Registry.Names.{file_named}
use distributed_documentatio.Acl.{same_user, max_username_length}
use distributed_documentatio.NameServer.Sharing.Effects.{IsPut, GrantEffect, grant_file_effect}
use distributed_documentatio.NameServer.Files.Access.{IsShared}
use distributed_documentatio.Names.{validate_filename, validate_username}
use distributed_documentatio.NameServer.Permissions.{parse_permission_flags}
use distributed_documentatio.NameServer.Csv.Trip.{valid_name}
use distributed_documentatio.NameServer.Location.Found.{with_file-named}
use mathlib.Core.Option.{some-injective}
use distributed_documentatio.NameServer.Sync.Listed.{indexed_found}
use distributed_documentatio.NameServer.Registry.Update.{update-IsConsistent, update_exact}

-- The registry afterwards is in agreement; there is an error, every name has the file that it had, and the file does
-- not exist or is not the user's; or it exists and is, and the grant has the effect that it has, on it alone.
abbrev pub AddsAccess :
    (ℕ → List CText → Outcome)
    → CText
    → CText
    → CText
    → Bool
    → Bool
    → NameServer
    → Reply × NameServer
    → Type 0
AddsAccess ask user filename target r w ns result =
    IsConsistent result.1.registry
    × (((is_answered result.0 ≡ false)
          × ((j : CText) → file_named result.1.registry j ≡ file_named ns.registry j)
          × ((file : FileMetadata)
              → file_named ns.registry filename ≡ some file
              → same_user file.owner user ≡ false))
        ⊎ ((file : FileMetadata) × (after : FileMetadata) × (file_named ns.registry filename
              ≡ some file)
            × (same_user file.owner user ≡ true)
            × GrantEffect
                (tell_server ask ns file (codes "OK_ACCESS_CHANGED")
                  (codes "SS_ADDACCESS" ∷ filename ∷ target ∷ perm_token r w ∷ []))
                result.0 file after target r w
            × ((j : CText)
                → file_named result.1.registry j
                  ≡ (if str_eq filename j then some after else file_named ns.registry j))))

-- The registry that has the file afterwards.
put_named :
    (ns state : NameServer) (filename : CText) (place : ℕ) (file after : FileMetadata)
    → IsConsistent ns.registry
    → indexed_file ns.registry filename ≡ some (place, file)
    → file_named ns.registry filename ≡ some file
    → IsPut ns state place file after
    → IsConsistent state.registry
      × ((j : CText)
          → file_named state.registry j
            ≡ (if str_eq filename j then some after else file_named ns.registry j))
unfolding put_file
put_named ns state filename place file after inv found named (name, inl put) =
    let (index, there) = indexed_found ns.registry filename place file found in
    rw put (
      update-IsConsistent ns.registry inv filename place file after index there name,
      update_exact ns.registry inv filename place file after index there name,
    )
put_named ns state filename place file after inv found named (name, inr (kept, same)) =
    rw (kept, same)
      (
        inv,
        λ j. elim (Bool-cases (str_eq filename j)) [
          | inr other ↦ rw other refl
          | inl e ↦
              let one : filename ≡ j = str_eq_sound filename j e in
              rw e (ap (file_named ns.registry) (sym one) ∙ named)
        ],
      )

-- Once the checks of the message are passed.
checked :
    (ask : ℕ → List CText → Outcome) (user command filename target permission : CText) (r w : Bool)
    (fields : List CText) (ns : NameServer)
    → validate_filename filename ≡ true
    → validate_username target ≡ true
    → parse_permission_flags permission ≡ some (r, w)
    → (r || w) ≡ true
    → is_empty user ≡ false
    → handle_addaccess ask user ns (command ∷ filename ∷ target ∷ permission ∷ fields)
      ≡ with_file ns filename
          (failed err_file_not_found (codes "File not found for ADDACCESS."))
          (grant_file ask user filename target permission r w)
unfolding handle_addaccess
checked ask user command filename target permission r w fields ns valid target_valid parsed right
      known =
    rw (handle_addaccess, valid, target_valid, parsed, right, known) refl

-- From the lookup of the file on.
looked_up :
    (ask : ℕ → List CText → Outcome) (user filename target permission : CText) (r w : Bool)
    (ns : NameServer)
    → IsConsistent ns.registry
    → ((file : FileMetadata) → file_named ns.registry filename ≡ some file → IsShared file)
    → length target < max_username_length
    → AddsAccess ask user filename target r w ns (
        with_file ns filename
          (failed err_file_not_found (codes "File not found for ADDACCESS."))
          (grant_file ask user filename target permission r w))
unfolding grant_file tell_server is_answered
looked_up ask user filename target permission r w ns inv shared short =
    with_file-named (AddsAccess ask user filename target r w ns) ns filename
      (failed err_file_not_found (codes "File not found for ADDACCESS."))
      (grant_file ask user filename target permission r w) inv
      (λ registry kept same absent.
        (kept, inl (refl, same, λ file h. absurd (let clash = sym absent ∙ h in ground arith))))
      (λ registry place file kept same named found.
        let looked = record ns { registry = registry } in
        elim (Bool-cases (same_user file.owner user)) [
          | inr stranger ↦
              rw (grant_file, stranger)
                (
                  kept,
                  inl (
                    refl,
                    same,
                    λ q h.
                        subst (λ f. same_user f.owner user ≡ false)
                          (some-injective file q (sym named ∙ h)) stranger,
                  ),
                )
          | inl owner ↦
              let (after, put, effect) =
                grant_file_effect ask user filename target permission r w looked place file short
                  (shared file named) owner in
              let (agrees, names) =
                put_named looked _ filename place file after kept found (same filename ∙ named)
                  put in
              (
                agrees,
                inr (
                  file,
                  after,
                  named,
                  owner,
                  effect,
                  λ j.
                      names j
                      ∙ ap (λ before. if str_eq filename j then some after else before) (same j),
                ),
              )
        ])

-- On a registry in agreement, for a client that names itself, a valid name of a file, whose access lists are free
-- of duplicates and fit their arrays, a valid user and some rights: ADDACCESS fails and changes nothing if the file
-- does not exist or is not the client's. Else it changes the rights on this file alone, and in one of three ways.
-- It succeeds, and the user has the rights asked for and everybody those he had; then the storage server has
-- agreed, or the user is the owner. Or it fails because a list is full, and at most the user's right to read is
-- new. Or it fails with the error of the storage server, and the user has lost every right he had before, unless he
-- is the owner.
pub addaccess_exact :
    (ask : ℕ → List CText → Outcome) (user command filename target permission : CText) (r w : Bool)
    (fields : List CText) (ns : NameServer)
    → IsConsistent ns.registry
    → ((file : FileMetadata) → file_named ns.registry filename ≡ some file → IsShared file)
    → validate_filename filename ≡ true
    → validate_username target ≡ true
    → parse_permission_flags permission ≡ some (r, w)
    → (r || w) ≡ true
    → is_empty user ≡ false
    → AddsAccess ask user filename target r w ns
        (handle_addaccess ask user ns (command ∷ filename ∷ target ∷ permission ∷ fields))
addaccess_exact ask user command filename target permission r w fields ns inv shared valid
      target_valid parsed right known =
    subst (AddsAccess ask user filename target r w ns)
      (sym (
        checked ask user command filename target permission r w fields ns valid target_valid parsed
          right known))
      (looked_up ask user filename target permission r w ns inv shared
        (valid_name target target_valid).2)
