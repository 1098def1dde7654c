-- ===== src/NameServer/Mailbox/Decided.antt =====
-- Requests that are decided, and stay so.
use distributed_documentatio.Base.Int.{ℤ}
use distributed_documentatio.Base.{
  List, CText, ℕ, ◌∙◌, ◌++◌, get_elem?, ◌≡◌, ◌∷◌, some, true, [], false, set, Option-cases,
  get_elem?-inside, arith, ◌==◌, get_elem?-set, inl, Bool-cases, get_elem?-append, inr, str_eq, sym,
  suc, not, ap, zero, refl, ◌||◌, codes,
}
use distributed_documentatio.NameServer.Mailbox.{
  approval_error, approve_on_server, approve_request, reject_request, approve_file, put_request,
  find_request, reject_loop, serves_file,
}
use distributed_documentatio.NameServer.Deletion.{cancel_requests}
use distributed_documentatio.NameServer.State.{AccessRequest, NameServer, server_place}
use distributed_documentatio.NameServer.Sharing.Grants.{is_answered}
use distributed_documentatio.NameServer.Exchange.{Outcome, status, got}
use distributed_documentatio.NameServer.Sharing.{put_file}
use distributed_documentatio.Protocol.Replies.{Reply, failed, err_file_not_found}
use distributed_documentatio.NameServer.Files.{FileMetadata}
use distributed_documentatio.NameServer.Mailbox.Numbers.{
  find_request-place, reject_loop-place, MailboxIsNumbered,
}
use distributed_documentatio.NameServer.Sharing.Lookup.{with_file-induction}

-- The request of the number is not pending.
abbrev pub IsDecided : ℤ → List AccessRequest → Type 0
IsDecided id requests =
    (m : ℕ) × (req : AccessRequest) × (get_elem? requests m ≡ some req)
    × (req.id ≡ id)
    × (req.is_pending ≡ false)

-- The requests are numbered in their order, and the one of the number is decided.
abbrev pub IsSettled : ℤ → NameServer → Type 0
IsSettled id ns = MailboxIsNumbered ns × IsDecided id ns.access_requests

written_there :
    (requests : List AccessRequest) (m : ℕ) (old new : AccessRequest)
    → get_elem? requests m ≡ some old
    → get_elem? (set requests m new) m ≡ some new
written_there requests m old new h =
    ground (arith, get_elem?-set requests m new m (get_elem?-inside requests m old h))

approval_error-fails : (o : Outcome) (e : Reply) → approval_error o ≡ some e → is_answered e ≡ false
unfolding approval_error is_answered
approval_error-fails (status n) e h = ground arith
approval_error-fails (got m) e h = ground arith

approve_on_server-fails :
    (ask : ℕ → List CText → Outcome) (ns : NameServer) (file : FileMetadata) (req : AccessRequest)
    (e : Reply)
    → approve_on_server ask ns file req ≡ some e
    → is_answered e ≡ false
unfolding approve_on_server is_answered
approve_on_server-fails ask ns file req e h =
    elim (Option-cases (server_place (serves_file file) 0 ns.storage_servers)) [
      | inl none_found ↦ ground (arith, none_found)
      | inr (s, found) ↦ ground (arith, found, approval_error-fails (ask s _) e)
    ]

pub approve-IsDecided :
    (ask : ℕ → List CText → Outcome) (user : CText) (ns : NameServer) (id : ℤ)
    → is_answered (approve_request ask user ns id).0 ≡ true
    → IsDecided id (approve_request ask user ns id).1.access_requests
unfolding approve_request approve_file put_file put_request is_answered
approve-IsDecided ask user ns id h = elim (Option-cases (find_request id 0 ns.access_requests)) [
  | inl e ↦ (let no_reply : false ≡ true = rw (e, approve_request) at h in absurd cc)
  | inr ((k, req), e) ↦
      let (m, k_is, at, same) = find_request-place id 0 ns.access_requests k req e in
      let k_at : k ≡ m = omega (arith, k_is) in
      let at_k : get_elem? ns.access_requests k ≡ some req = rw k_at at in
      let over = record req { is_pending = false } in
      elim (Bool-cases (not req.is_pending || not (str_eq req.to_user user))) [
        | inl refused ↦
            (let no_reply : false ≡ true = rw (e, approve_request, refused) at h in absurd cc)
        | inr allowed ↦
            let all_cases =
              with_file-induction
                (λ result. is_answered result.0 ≡ true → IsDecided id result.1.access_requests) ns
                req.filename
                (failed err_file_not_found (codes "File for this request no longer exists."))
                (approve_file ask k req) (λ registry no_reply. absurd cc)
                (λ registry place file found.
                  elim (Option-cases
                    (approve_on_server ask (record ns { registry = registry }) file req)) [
                      | inl agreed ↦
                          rw (approve_file, agreed)
                            (λ yes_reply. (
                              k,
                              over,
                              written_there ns.access_requests k req over at_k,
                              same,
                              refl,
                            ))
                      | inr (error, failed_so) ↦
                          let failure =
                            approve_on_server-fails ask (record ns { registry = registry }) file req
                              error failed_so in
                          rw (approve_file, failed_so) (λ yes_reply. absurd cc)
                    ]) in
            rw (e, approve_request, allowed) (all_cases (rw (e, approve_request, allowed) at h))
      ]
]

pub reject-IsDecided :
    (user : CText) (ns : NameServer) (id : ℤ)
    → is_answered (reject_request user ns id).0 ≡ true
    → IsDecided id (reject_request user ns id).1.access_requests
unfolding reject_request is_answered
reject-IsDecided user ns id h = elim (Option-cases (reject_loop user id ns.access_requests)) [
  | inl e ↦ (let no_reply : false ≡ true = rw (e, reject_request) at h in absurd cc)
  | inr (rest, e) ↦
      let (m, req, at, set_it, same, _, _) = reject_loop-place user id ns.access_requests rest e in
      let over = record req { is_pending = false } in
      rw (e, reject_request)
        (m, over, rw set_it (written_there ns.access_requests m req over at), same, refl)
]

-- A request that is pending is not the one that is decided, and may be written.
pub set-IsDecided :
    (id : ℤ) (requests : List AccessRequest) (k : ℕ) (old new : AccessRequest)
    → get_elem? requests k ≡ some old
    → old.is_pending ≡ true
    → IsDecided id requests
    → IsDecided id (set requests k new)
set-IsDecided id requests k old new at pending (m, req, there, same, over) =
    let apart : (k == m) ≡ false = elim (Bool-cases (k == m)) [
      | inr e ↦ e
      | inl e ↦
          let one : k ≡ m = ground arith in
          let both : some old ≡ some req = sym at ∙ ap (get_elem? requests) one ∙ there in
          absurd (ground arith)
    ] in
    let kept = get_elem?-set requests k new m (get_elem?-inside requests k old at) in
    (m, req, ground (arith, kept), same, over)

pub append-IsDecided :
    (id : ℤ) (requests : List AccessRequest) (new : AccessRequest)
    → IsDecided id requests
    → IsDecided id (requests ++ new ∷ [])
append-IsDecided id requests new (m, req, there, same, over) =
    let inside = get_elem?-inside requests m req there in
    (m, req, ground (arith, get_elem?-append requests new m, inside), same, over)

cancelled_at :
    (path : CText) (requests : List AccessRequest) (m : ℕ) (req : AccessRequest)
    → get_elem? requests m ≡ some req
    → req.is_pending ≡ false
    → (after : AccessRequest) × (get_elem? (cancel_requests path requests) m ≡ some after)
      × (after.id ≡ req.id)
      × (after.is_pending ≡ false)
unfolding cancel_requests
cancelled_at path [] m req h over = absurd (ground arith)
cancelled_at path (r ∷ requests) zero req h over = elim (Bool-cases (str_eq r.filename path)) [
  | inl e ↦ rw e (record r { is_pending = false }, refl, ground arith, refl)
  | inr e ↦ rw e (req, h, refl, over)
]
cancelled_at path (r ∷ requests) (suc m) req h over = cancelled_at path requests m req h over

pub cancel-IsDecided :
    (id : ℤ) (path : CText) (requests : List AccessRequest)
    → IsDecided id requests
    → IsDecided id (cancel_requests path requests)
cancel-IsDecided id path requests (m, req, there, same, over) =
    let (after, at, number, done) = cancelled_at path requests m req there over in
    (m, after, at, number ∙ same, done)
