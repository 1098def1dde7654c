-- ===== src/NameServer/Sharing/Effects.antt =====
-- What a grant of ADDACCESS does to the rights on the file.
use distributed_documentatio.Base.{
  Option, ℕ, CText, ◌≡◌, List, Bool, refl, length, arith, ◌⊎◌, true, ◌<◌, none, ◌||◌, ◌&&◌, false,
  not, some, Option-cases, codes, inl, ◌∷◌, inr, [], Bool-cases, ◌∙◌,
}
use distributed_documentatio.NameServer.Files.{
  file_add_access, file_has_read_access, FileMetadata, file_remove_access, file_has_write_access,
  add_if,
}
use distributed_documentatio.NameServer.State.{NameServer}
use distributed_documentatio.Protocol.Replies.{Reply}
use distributed_documentatio.NameServer.Sharing.{put_file, grant_file, tell_server, perm_token}
use distributed_documentatio.NameServer.Exchange.{Outcome}
use distributed_documentatio.Acl.{same_user, max_username_length}
use distributed_documentatio.NameServer.Sharing.Grants.{is_answered, owner-add, tell_server-fails}
use distributed_documentatio.NameServer.Files.Access.{
  IsShared, grant_exact, revoke_exact, add_if_exact,
}
use distributed_documentatio.Acl.Laws.{same_user_left}

-- What a grant of rights comes to, with `told` the error of the storage server: everybody has the rights that he
-- had and the user has those that are asked for; or a list is full, the reply is an error, and at most the user's
-- right to read is new; or the storage server failed, and the user has no right any more, unless he owns the file.
abbrev pub GrantEffect :
    Option Reply → Reply → FileMetadata → FileMetadata → CText → Bool → Bool → Type 0
GrantEffect told reply file after target r w =
    ((is_answered reply ≡ true)
      × ((same_user file.owner target ≡ true) ⊎ (told ≡ none))
      × ((v : CText)
          → (file_has_read_access after v
              ≡ file_has_read_access file v || (r || w) && same_user target v)
            × (file_has_write_access after v
                ≡ file_has_write_access file v || w && same_user target v)))
    ⊎ ((is_answered reply ≡ false)
        × ((file_add_access file target r w).0 ≡ false)
        × (partly : Bool) × ((v : CText)
            → (file_has_read_access after v
                ≡ file_has_read_access file v || partly && same_user target v)
              × (file_has_write_access after v ≡ file_has_write_access file v)))
    ⊎ ((is_answered reply ≡ false)
        × (told ≡ some reply)
        × ((v : CText)
            → (file_has_read_access after v
                ≡ same_user file.owner v || file_has_read_access file v && not (same_user target v))
              × (file_has_write_access after v
                  ≡ same_user file.owner v
                    || file_has_write_access file v && not (same_user target v))))

-- A grant that finds a list full.
partly_added :
    (file : FileMetadata) (u v : CText) (r w : Bool)
    → length u < max_username_length
    → IsShared file
    → (file_add_access file u r w).0 ≡ false
    → (partly : Bool) × ((v : CText)
        → (file_has_read_access (file_add_access file u r w).1 v
            ≡ file_has_read_access file v || partly && same_user u v)
          × (file_has_write_access (file_add_access file u r w).1 v ≡ file_has_write_access file v))
unfolding file_add_access file_has_read_access file_has_write_access
partly_added file u v r w short shared failed_so =
    elim (Option-cases (add_if (r || w) file.read_access_users u)) [
      | inl e ↦ rw (file_add_access, e) (false, λ v. (ground arith, refl))
      | inr (readers, e) ↦ elim (Option-cases (add_if w file.write_access_users u)) [
        | inr (writers, f) ↦
            let clash : true ≡ false = rw (file_add_access, e, f) at failed_so in absurd cc
        | inl f ↦
            rw (file_add_access, e, f)
              (
                r || w,
                λ v.
                    let (reads, _, _) =
                      add_if_exact (r || w) file.read_access_users readers u v short
                        shared.readers_once shared.readers_fit e in
                    (ground (arith, reads), refl),
              )
      ]
    ]

-- A grant of the owner to himself changes nothing, and he has every right.
owner_has :
    (file : FileMetadata) (u v : CText) (r w : Bool)
    → same_user file.owner u ≡ true
    → (file_has_read_access file v ≡ file_has_read_access file v || (r || w) && same_user u v)
      × (file_has_write_access file v ≡ file_has_write_access file v || w && same_user u v)
unfolding file_has_read_access file_has_write_access
owner_has file u v r w own = (
  ground (arith, same_user_left file.owner u v own),
  ground (arith, same_user_left file.owner u v own),
)

-- Taking the rights back after a grant.
taken_back :
    (file : FileMetadata) (u v : CText) (r w : Bool)
    → length u < max_username_length
    → IsShared file
    → (file_add_access file u r w).0 ≡ true
    → let back = (file_remove_access (file_add_access file u r w).1 u).1 in
      (file_has_read_access back v
        ≡ same_user file.owner v || file_has_read_access file v && not (same_user u v))
      × (file_has_write_access back v
          ≡ same_user file.owner v || file_has_write_access file v && not (same_user u v))
taken_back file u v r w short shared room =
    let (reads, writes, kept) = grant_exact file u v r w short shared room in
    let (less_reads, less_writes) = revoke_exact (file_add_access file u r w).1 u v kept in
    let owner = owner-add file u r w in
    (ground (arith, less_reads, reads, owner), ground (arith, less_writes, writes, owner))

name-add :
    (file : FileMetadata) (u : CText) (r w : Bool)
    → (file_add_access file u r w).1.filename ≡ file.filename
unfolding file_add_access
name-add file u r w = ground arith

name-remove :
    (file : FileMetadata) (u : CText) → (file_remove_access file u).1.filename ≡ file.filename
unfolding file_remove_access
name-remove file u = refl

-- The file that the registry has afterwards: a new one in its place, or the old one.
abbrev pub IsPut : NameServer → NameServer → ℕ → FileMetadata → FileMetadata → Type 0
IsPut ns state place file after =
    (after.filename ≡ file.filename)
    × ((state ≡ put_file ns place after) ⊎ ((state ≡ ns) × (after ≡ file)))

module _ (ask : ℕ → List CText → Outcome) (user filename target permission : CText) (r w : Bool)
    (ns : NameServer) (place : ℕ) (file : FileMetadata)
    (short : length target < max_username_length) (shared : IsShared file)
    (owner : same_user file.owner user ≡ true) where
  pub grant_file_effect :
      let told =
        tell_server ask ns file
          (codes "OK_ACCESS_CHANGED")
          (codes "SS_ADDACCESS" ∷ filename ∷ target ∷ perm_token r w ∷ []) in
      let result = grant_file ask user filename target permission r w ns place file in
      (after : FileMetadata) × IsPut ns result.1 place file after
      × GrantEffect told result.0 file after target r w
  unfolding grant_file is_answered
  grant_file_effect =
      let command = codes "SS_ADDACCESS" ∷ filename ∷ target ∷ perm_token r w ∷ [] in
      let added = (file_add_access file target r w).1 in
      elim (Bool-cases (same_user file.owner target)) [
        | inl own ↦
            rw (grant_file, owner, own)
              (
                file,
                (refl, inr (refl, refl)),
                inl (refl, inl refl, λ v. owner_has file target v r w own),
              )
        | inr other ↦ elim (Bool-cases (file_add_access file target r w).0) [
          | inr full ↦
              let (partly, rights) = partly_added file target target r w short shared full in
              rw (grant_file, owner, other, full)
                (
                  added,
                  (name-add file target r w, inl refl),
                  inr (inl (refl, refl, partly, rights)),
                )
          | inl room ↦
              elim (Option-cases (tell_server ask ns file (codes "OK_ACCESS_CHANGED") command)) [
                | inl agreed ↦
                    rw (grant_file, owner, other, room, agreed)
                      (
                        added,
                        (name-add file target r w, inl refl),
                        inl (
                          refl,
                          inr refl,
                          λ v.
                              let (reads, writes, _) =
                                grant_exact file target v r w short shared room in
                              (reads, writes),
                        ),
                      )
                | inr (e, refused) ↦
                    let failure =
                      tell_server-fails ask ns file (codes "OK_ACCESS_CHANGED") command e refused in
                    rw (grant_file, owner, other, room, refused)
                      (
                        (file_remove_access added target).1,
                        (name-remove added target ∙ name-add file target r w, inl refl),
                        inr (
                            inr
                              (failure, refl, λ v. taken_back file target v r w short shared room)),
                      )
              ]
        ]
      ]
