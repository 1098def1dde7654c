-- ===== src/NameServer/Sharing/Lookup.antt =====
-- What holds of a handler that looks a file up first.
use distributed_documentatio.NameServer.Sharing.{with_file}
use distributed_documentatio.Protocol.Replies.{Reply}
use distributed_documentatio.NameServer.State.{NameServer}
use distributed_documentatio.Base.{CText, ℕ, get_elem?, ◌≡◌, some, Option-cases, inl, inr}
use distributed_documentatio.NameServer.Files.{FileMetadata}
use distributed_documentatio.NameServer.Registry.{Registry, file_lookup_locked}

-- It is enough to look at the error, and at what is done with a file that the registry has at its place.
pub with_file-induction {ℓ} :
    (P : Reply × NameServer → Type ℓ) (ns : NameServer) (filename : CText) (missing : Reply)
    (next : NameServer → ℕ → FileMetadata → Reply × NameServer)
    → ((registry : Registry) → P (missing, record ns { registry = registry }))
    → ((registry : Registry) (place : ℕ) (file : FileMetadata)
        → get_elem? registry.files place ≡ some file
        → P (next (record ns { registry = registry }) place file))
    → P (with_file ns filename missing next)
unfolding with_file
with_file-induction P ns filename missing next absent present =
    let looked = (file_lookup_locked ns.registry filename).1 in
    elim (Option-cases (file_lookup_locked ns.registry filename).0) [
      | inl e ↦ rw (e, with_file) (absent looked)
      | inr (place, e) ↦ elim (Option-cases (get_elem? looked.files place)) [
        | inl f ↦ rw (e, with_file, f) (absent looked)
        | inr (file, f) ↦ rw (e, with_file, f) (present looked place file f)
      ]
    ]
