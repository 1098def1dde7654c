-- ===== src/NameServer/Creation/Files.antt =====
-- CREATE adds the file that it says, or nothing.
use distributed_documentatio.NameServer.Registry.{
  file_lookup_locked, Registry, register_file, remove_file_metadata_locked,
}
use distributed_documentatio.Names.{validate_filename}
use distributed_documentatio.NameServer.Creation.{new_metadata, create_failure}
use distributed_documentatio.NameServer.State.{NameServer, is_open}
use distributed_documentatio.Base.{
  ℕ, CText, ◌≡◌, Bool, List, none, true, length, ◌<◌, false, some, str_eq, ◌⊎◌, Bool-cases, arith,
  inr, sym, str_eq_sound, take_all, ◌∷◌, if◌then◌else◌, inl, ◌-◌, refl, ◌∙◌, [], codes, ap,
}
use distributed_documentatio.NameServer.Servers.{Servers, StorageServerInfo}
use distributed_documentatio.NameServer.Registry.Consistent.{
  IsConsistent, lookup_exact, lookup_recaches,
}
use distributed_documentatio.NameServer.Sharing.Grants.{is_answered, response_error-fails}
use distributed_documentatio.Protocol.Replies.{Reply}
use distributed_documentatio.NameServer.Files.{FileMetadata}
use distributed_documentatio.NameServer.Registry.Names.{file_named, remove_file_exact}
use distributed_documentatio.NameServer.Index.{file_index_find, max_filename_length}
use distributed_documentatio.NameServer.Exchange.{Outcome}
use distributed_documentatio.NameServer.Registry.Register.{register-IsConsistent, register_exact}
use distributed_documentatio.NameServer.Servers.Selected.{IsLightest}

-- A lookup leaves every name its file.
pub lookup_keeps :
    (ns : Registry) (k j : CText) → file_named (file_lookup_locked ns k).1 j ≡ file_named ns j
lookup_keeps ns k j = ap (λ r. file_named r j) (lookup_recaches ns k)

-- A lookup that finds nothing.
pub lookup_missing :
    (ns : Registry) (k : CText)
    → IsConsistent ns
    → (file_lookup_locked ns k).0 ≡ none
    → file_index_find (file_lookup_locked ns k).1.index k ≡ none
lookup_missing ns k inv h =
    ap (λ r. file_index_find r.index k) (lookup_recaches ns k) ∙ (sym (lookup_exact ns k inv) ∙ h)

pub fresh_named :
    (ns : Registry) (k j : CText)
    → file_index_find ns.index k ≡ none
    → str_eq k j ≡ true
    → file_named ns j ≡ none
fresh_named ns k j fresh e =
    let same : k ≡ j = str_eq_sound k j e in rw (file_named, ← same, fresh) refl

pub valid_filename :
    (filename : CText)
    → validate_filename filename ≡ true
    → (0 < length filename) × (length filename < max_filename_length)
unfolding validate_filename
valid_filename filename h = ground arith

pub new_name :
    (now : ℕ) (filename user ip : CText) (port : ℕ) (d : Bool)
    → length filename < max_filename_length
    → (new_metadata now filename user ip port d).filename ≡ filename
unfolding new_metadata
new_name now filename user ip port d short =
    take_all (max_filename_length - 1) filename (omega (arith, short))

-- A new file in a registry in agreement.
module _ (ns : Registry) (inv : IsConsistent ns) (now : ℕ) (filename user ip : CText) (port : ℕ)
    (d : Bool) (valid : (0 < length filename) × (length filename < max_filename_length))
    (fresh : file_index_find ns.index filename ≡ none) where
  pub added-IsConsistent :
      IsConsistent (register_file ns (new_metadata now filename user ip port d))
  added-IsConsistent =
      let name = new_name now filename user ip port d valid.1 in
      register-IsConsistent ns inv (new_metadata now filename user ip port d) (rw name fresh)
        (rw name valid.0) (rw name valid.1)

  pub added_exact :
      (j : CText)
      → file_named (register_file ns (new_metadata now filename user ip port d)) j ≡ (
          if str_eq filename j
          then some (new_metadata now filename user ip port d)
          else file_named ns j)
  added_exact j =
      let name = new_name now filename user ip port d valid.1 in
      rw
        (
          register_exact ns inv (new_metadata now filename user ip port d) (rw name fresh)
              (rw name valid.0) (rw name valid.1) j,
          name,
        )
        refl

  -- Taking it away again.
  pub removed_again :
      (j : CText)
      → file_named
          (remove_file_metadata_locked
            (register_file ns (new_metadata now filename user ip port d))
            filename).1
          j
        ≡ file_named ns j
  removed_again j =
      rw
        (remove_file_exact (register_file ns (new_metadata now filename user ip port d)) filename j
          added-IsConsistent)
        (ground (arith, added_exact j, fresh_named ns filename j fresh))

-- The registry afterwards is in agreement; the reply is an error and every name has the file that it had, or it is
-- a success, and only the name, which had no file, has a new one.
abbrev pub Adds : NameServer → CText → Reply × NameServer → (FileMetadata → Type 0) → Type 0
Adds ns filename result IsNew =
    IsConsistent result.1.registry
    × (((is_answered result.0 ≡ false)
          × ((j : CText) → file_named result.1.registry j ≡ file_named ns.registry j))
        ⊎ ((is_answered result.0 ≡ true)
            × (file_named ns.registry filename ≡ none)
            × (file : FileMetadata) × IsNew file
            × ((j : CText)
                → file_named result.1.registry j
                  ≡ (if str_eq filename j then some file else file_named ns.registry j))))

-- The metadata of a file that is created on a storage server: one of the array that is alive, has the least load of
-- those that are, and said that it created the file; the file has its address.
abbrev pub OnServer :
    (ℕ → List CText → Outcome) → ℕ → CText → CText → Servers → FileMetadata → Type 0
OnServer ask now user filename servers file =
    (place : ℕ) × (target : StorageServerInfo) × IsLightest servers place target
    × (create_failure ask user filename place target ≡ none)
    × (file ≡ new_metadata now filename user target.client_ip target.client_port false)

pub create_failure-fails :
    (ask : ℕ → List CText → Outcome) (user filename : CText) (place : ℕ)
    (target : StorageServerInfo) (e : Reply)
    → create_failure ask user filename place target ≡ some e
    → is_answered e ≡ false
unfolding create_failure is_answered
create_failure-fails ask user filename place target e h =
    elim (Bool-cases (is_open target.sockfd)) [
      | inr off ↦ ground (arith, off)
      | inl on ↦
          response_error-fails (codes "OK_CREATE")
            (ask place (codes "CREATE_FILE" ∷ filename ∷ user ∷ [])) e
            (rw (create_failure, on) at h)
    ]

-- What holds after a lookup holds before it.
pub Adds-looked :
    (ns looked : NameServer) (filename : CText) (result : Reply × NameServer)
    (IsNew' IsNew : FileMetadata → Type 0)
    → ((j : CText) → file_named looked.registry j ≡ file_named ns.registry j)
    → ((file : FileMetadata) → IsNew' file → IsNew file)
    → Adds looked filename result IsNew'
    → Adds ns filename result IsNew
Adds-looked ns looked filename result IsNew' IsNew same more (inv, inl (failure, kept)) =
    (inv, inl (failure, λ j. kept j ∙ same j))
Adds-looked ns looked filename result IsNew' IsNew same more
      (inv, inr (success, absent, file, new, names)) =
    (
      inv,
      inr (
        success,
        sym (same filename) ∙ absent,
        file,
        more file new,
        λ j. names j ∙ ap (λ before. if str_eq filename j then some file else before) (same j),
      ),
    )
