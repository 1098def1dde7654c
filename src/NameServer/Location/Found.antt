-- ===== src/NameServer/Location/Found.antt =====
-- What holds of a handler that looks a file up first, on a registry in agreement.
use distributed_documentatio.NameServer.Registry.{Registry, file_lookup_locked}
use distributed_documentatio.NameServer.Sync.{indexed_file}
use distributed_documentatio.NameServer.Sharing.{with_file}
use distributed_documentatio.Base.{
  CText, ℕ, ◌≡◌, some, none, get_elem?, sym, ap, ◌∙◌, Option-cases, inl, refl, inr, arith,
}
use distributed_documentatio.Protocol.Replies.{Reply}
use distributed_documentatio.NameServer.State.{NameServer}
use distributed_documentatio.NameServer.Files.{FileMetadata}
use distributed_documentatio.NameServer.Registry.Consistent.{
  IsConsistent, lookup-IsConsistent, lookup_exact, lookup_recaches,
}
use distributed_documentatio.NameServer.Registry.Names.{file_named}
use distributed_documentatio.NameServer.Index.{file_index_find}
use distributed_documentatio.NameServer.Creation.Files.{lookup_keeps}

-- The file at the place that a lookup returns is the file of the name.
pub lookup_named :
    (ns : Registry) (k : CText) (place : ℕ) (meta : FileMetadata)
    → IsConsistent ns
    → (file_lookup_locked ns k).0 ≡ some place
    → get_elem? (file_lookup_locked ns k).1.files place ≡ some meta
    → file_named ns k ≡ some meta
lookup_named ns k place meta inv found there =
    let index : file_index_find ns.index k ≡ some place = sym (lookup_exact ns k inv) ∙ found in
    let files : get_elem? ns.files place ≡ get_elem? (file_lookup_locked ns k).1.files place =
      sym (ap (λ r. get_elem? r.files place) (lookup_recaches ns k)) in
    rw (file_named, index) (files ∙ there)

pub lookup_indexed :
    (ns : Registry) (k : CText) (place : ℕ) (meta : FileMetadata)
    → IsConsistent ns
    → (file_lookup_locked ns k).0 ≡ some place
    → get_elem? (file_lookup_locked ns k).1.files place ≡ some meta
    → indexed_file (file_lookup_locked ns k).1 k ≡ some (place, meta)
unfolding indexed_file
lookup_indexed ns k place meta inv found there =
    let index : file_index_find (file_lookup_locked ns k).1.index k ≡ some place =
      ap (λ r. file_index_find r.index k) (lookup_recaches ns k)
      ∙ (sym (lookup_exact ns k inv) ∙ found) in
    rw (indexed_file, index, there) refl

-- The registry that the lookup leaves gives every name its file; either the name has no file, or the file is the one
-- that the registry has for the name.
pub with_file-named {ℓ} :
    (P : Reply × NameServer → Type ℓ) (ns : NameServer) (filename : CText) (missing : Reply)
    (next : NameServer → ℕ → FileMetadata → Reply × NameServer)
    → IsConsistent ns.registry
    → ((registry : Registry)
        → IsConsistent registry
        → ((j : CText) → file_named registry j ≡ file_named ns.registry j)
        → file_named ns.registry filename ≡ none
        → P (missing, record ns { registry = registry }))
    → ((registry : Registry) (place : ℕ) (file : FileMetadata)
        → IsConsistent registry
        → ((j : CText) → file_named registry j ≡ file_named ns.registry j)
        → file_named ns.registry filename ≡ some file
        → indexed_file registry filename ≡ some (place, file)
        → P (next (record ns { registry = registry }) place file))
    → P (with_file ns filename missing next)
unfolding with_file
with_file-named P ns filename missing next inv absent present =
    let result = file_lookup_locked ns.registry filename in
    let kept = lookup-IsConsistent ns.registry filename inv in
    let same = lookup_keeps ns.registry filename in
    let exact = lookup_exact ns.registry filename inv in
    elim (Option-cases result.0) [
      | inl e ↦
          let nothing : file_named ns.registry filename ≡ none =
            rw (file_named, sym exact ∙ e) refl in
          rw (e, with_file) (absent result.1 kept same nothing)
      | inr (place, e) ↦ elim (Option-cases (get_elem? result.1.files place)) [
        | inl gone ↦
            let index = sym exact ∙ e in
            let (file, there, _) = inv.found filename place index in
            let clash : none ≡ some file =
              sym gone
              ∙ ap (λ r. get_elem? r.files place) (lookup_recaches ns.registry filename)
              ∙ there in
            absurd (ground arith)
        | inr (file, there) ↦
            rw (e, with_file, there)
              (present result.1 place file kept same
                (lookup_named ns.registry filename place file inv e there)
                (lookup_indexed ns.registry filename place file inv e there))
      ]
    ]
