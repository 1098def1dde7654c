-- ===== src/NameServer/Files/Access.antt =====
-- Granting and revoking access.
use distributed_documentatio.Base.{
  CText, ◌≡◌, Bool, true, length, ◌||◌, ◌≤◌, arith, ◌&&◌, ◌<◌, not, some, Bool-cases, inl, inr,
  Option-cases, false,
}
use distributed_documentatio.Acl.{
  same_user, acl_contains, acl_add, max_username_length, ns_max_clients, Acl, file_acl_add,
}
use distributed_documentatio.Acl.Laws.{is_distinct, add_exact, remove_exact}
use distributed_documentatio.NameServer.Files.{
  FileMetadata, file_add_access, file_remove_access, file_has_read_access, file_has_write_access,
  add_if,
}
use mathlib.Core.Option.{some-injective}

-- The lists of a file hold nobody twice and fit their arrays.
pub record IsShared (file : FileMetadata) : Type 0 where
  pub readers_once : is_distinct file.read_access_users ≡ true
  pub writers_once : is_distinct file.write_access_users ≡ true
  pub readers_fit : length file.read_access_users ≤ ns_max_clients
  pub writers_fit : length file.write_access_users ≤ ns_max_clients

-- Whoever may write a file may read it.
pub write_implies_read :
    (file : FileMetadata) (u : CText)
    → file_has_write_access file u ≡ true
    → file_has_read_access file u ≡ true
unfolding file_has_write_access file_has_read_access
write_implies_read file u h = ground arith

-- On lists without duplicates, revoking takes all rights from the user, unless he owns the file, and changes
-- nobody else's.
pub revoke_exact :
    (file : FileMetadata) (u v : CText)
    → IsShared file
    → (file_has_read_access (file_remove_access file u).1 v
        ≡ same_user file.owner v || file_has_read_access file v && not (same_user u v))
      × (file_has_write_access (file_remove_access file u).1 v
          ≡ same_user file.owner v || file_has_write_access file v && not (same_user u v))
unfolding file_has_write_access file_has_read_access file_remove_access
revoke_exact file u v s =
    let (readers, _, _) = remove_exact file.read_access_users u v s.readers_once in
    let (writers, _, _) = remove_exact file.write_access_users u v s.writers_once in
    (ground arith, ground arith)

module _ (grant : Bool) (es ds : Acl) (u v : CText) where
  pub add_if_exact :
      length u < max_username_length
      → is_distinct es ≡ true
      → length es ≤ ns_max_clients
      → add_if grant es u ≡ some ds
      → (acl_contains ds v ≡ acl_contains es v || grant && same_user u v)
        × (is_distinct ds ≡ true)
        × (length ds ≤ ns_max_clients)
  unfolding add_if file_acl_add
  add_if_exact short once fits e = elim (Bool-cases grant) [
    | inl g ↦
        let added : acl_add ns_max_clients es u ≡ some ds = rw g at e in
        rw g (add_exact ns_max_clients es ds u v short once fits added)
    | inr g ↦
        let start : some es ≡ some ds = rw g at e in
        let same : es ≡ ds = some-injective es ds start in rw (g, ← same) (ground arith, once, fits)
  ]

-- A grant to a user whose name fits an entry, on lists that are free of duplicates and fit their arrays, gives
-- him, if it succeeds, the rights that were asked for, write access with read access, and nobody else any; the
-- lists stay so.
pub grant_exact :
    (file : FileMetadata) (u v : CText) (read write : Bool)
    → length u < max_username_length
    → IsShared file
    → (file_add_access file u read write).0 ≡ true
    → (file_has_read_access (file_add_access file u read write).1 v
        ≡ file_has_read_access file v || (read || write) && same_user u v)
      × (file_has_write_access (file_add_access file u read write).1 v
          ≡ file_has_write_access file v || write && same_user u v)
      × IsShared (file_add_access file u read write).1
unfolding file_has_write_access file_has_read_access file_add_access
grant_exact file u v read write short s h =
    elim (Option-cases (add_if (read || write) file.read_access_users u)) [
      | inl e ↦ (let stop : false ≡ true = rw (e, file_add_access) at h in ground arith)
      | inr (rs, e) ↦ elim (Option-cases (add_if write file.write_access_users u)) [
        | inl f ↦ (let stop : false ≡ true = rw (e, file_add_access, f) at h in ground arith)
        | inr (ws, f) ↦
            let (r, r_once, r_fit) =
              add_if_exact (read || write) file.read_access_users rs u v short s.readers_once
                s.readers_fit e in
            let (w, w_once, w_fit) =
              add_if_exact write file.write_access_users ws u v short s.writers_once s.writers_fit
                f in
            rw (e, file_add_access, f)
              (
                ground arith,
                ground arith,
                record {
                  readers_once = r_once;
                  writers_once = w_once;
                  readers_fit = r_fit;
                  writers_fit = w_fit;
                },
              )
      ]
    ]
