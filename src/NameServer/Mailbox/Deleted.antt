-- ===== src/NameServer/Mailbox/Deleted.antt =====
-- What a deletion leaves of the requests.
use distributed_documentatio.NameServer.Deletion.{
  cancel_requests, remove_entry, remove_entries, after_plan, handle_delete, carry_out,
  delete_target, DeletePlanEntry, Planned, stopped, planned, take_longest, delete_on_servers,
  make_plan,
}
use distributed_documentatio.Base.{
  CText, List, ℕ, length, ◌≡◌, ◌∷◌, Bool-cases, suc, ap, arith, Option-cases, inr, [], inl, refl,
  ◌∙◌, zero, ◌+◌, sym,
}
use distributed_documentatio.Base.Int.{ℤ}
use distributed_documentatio.NameServer.State.{AccessRequest, NameServer, is_empty}
use distributed_documentatio.NameServer.Exchange.{Outcome}
use distributed_documentatio.NameServer.Mailbox.Numbers.{Numbered}
use distributed_documentatio.NameServer.Mailbox.Decided.{IsSettled, cancel-IsDecided}
use distributed_documentatio.NameServer.Registry.{remove_file_metadata_locked}
use distributed_documentatio.NameServer.Paths.{ns_validate_logical_path}
use distributed_documentatio.NameServer.Sharing.Lookup.{with_file-induction}
use distributed_documentatio.Acl.{same_user}

length-cancel :
    (path : CText) (requests : List AccessRequest)
    → length (cancel_requests path requests) ≡ length requests
unfolding cancel_requests
length-cancel path [] = refl
length-cancel path (r ∷ requests) = ap suc (length-cancel path requests)

Numbered-cancel :
    (path : CText) (n : ℕ) (requests : List AccessRequest)
    → Numbered n requests
    → Numbered n (cancel_requests path requests)
unfolding cancel_requests
Numbered-cancel path n [] h = tt
Numbered-cancel path n (r ∷ requests) h =
    (ground (arith, h.0), Numbered-cancel path (suc n) requests h.1)

remove_entry-IsSettled :
    (id : ℤ) (entry : DeletePlanEntry) (ns : NameServer)
    → IsSettled id ns
    → IsSettled id (remove_entry entry ns)
unfolding remove_entry
remove_entry-IsSettled id entry ns (v, d) =
    elim (Bool-cases (remove_file_metadata_locked ns.registry entry.path).0) [
      | inr kept ↦ rw (remove_entry, kept) (v, d)
      | inl removed ↦
          let size = length-cancel entry.path ns.access_requests in
          rw (remove_entry, removed)
            (
              record {
                numbered = Numbered-cancel entry.path 1 ns.access_requests v.numbered;
                next = v.next ∙ ap (λ n. n + 1) (sym size);
                fits = omega (arith, size, v.fits);
              },
              cancel-IsDecided id entry.path ns.access_requests d,
            )
    ]

remove_entries-IsSettled :
    (id : ℤ) (rounds : ℕ) (plan : List DeletePlanEntry) (ns : NameServer)
    → IsSettled id ns
    → IsSettled id (remove_entries rounds plan ns)
unfolding remove_entries
remove_entries-IsSettled id zero plan ns s = s
remove_entries-IsSettled id (suc rounds) plan ns s = elim (Option-cases (take_longest plan)) [
  | inl e ↦ rw (remove_entries, e) s
  | inr ((entry, rest), e) ↦
      rw (remove_entries, e)
        (remove_entries-IsSettled id rounds rest (remove_entry entry ns)
          (remove_entry-IsSettled id entry ns s))
]

after_plan-IsSettled :
    (id : ℤ) (ask : ℕ → List CText → Outcome) (target : CText) (ns : NameServer) (plan : Planned)
    → IsSettled id ns
    → IsSettled id (after_plan ask target ns plan).1
unfolding after_plan carry_out
after_plan-IsSettled id ask target ns (stopped e) s = s
after_plan-IsSettled id ask target ns (planned []) s = s
after_plan-IsSettled id ask target ns (planned (entry ∷ plan)) s =
    elim (Option-cases (delete_on_servers ask (entry ∷ plan))) [
      | inr (e, refused) ↦ rw (after_plan, carry_out, refused) s
      | inl agreed ↦
          rw (after_plan, carry_out, agreed)
            (remove_entries-IsSettled id (length (entry ∷ plan)) (entry ∷ plan) ns s)
    ]

pub delete-IsSettled :
    (id : ℤ) (ask : ℕ → List CText → Outcome) (user : CText) (ns : NameServer) (fields : List CText)
    → IsSettled id ns
    → IsSettled id (handle_delete ask user ns fields).1
unfolding handle_delete delete_target
delete-IsSettled id ask user ns [] s = s
delete-IsSettled id ask user ns (_ ∷ []) s = s
delete-IsSettled id ask user ns (_ ∷ target ∷ _) s =
    elim (Bool-cases (ns_validate_logical_path target)) [
      | inr invalid ↦ rw (handle_delete, invalid) s
      | inl valid ↦ elim (Bool-cases (is_empty user)) [
        | inl unknown ↦ rw (handle_delete, valid, unknown) s
        | inr known ↦
            rw (handle_delete, valid, known)
              (with_file-induction (λ result. IsSettled id result.1) ns target _
                (delete_target ask user target) (λ registry. s)
                (λ registry place file h. elim (Bool-cases (same_user file.owner user)) [
                  | inr stranger ↦ rw (delete_target, stranger) s
                  | inl owner ↦
                      rw (delete_target, owner)
                        (after_plan-IsSettled id ask target (record ns { registry = registry })
                          (make_plan user file target ns.storage_servers registry.files) s)
                ]))
      ]
    ]
