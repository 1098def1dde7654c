-- ===== src/NameServer/Mailbox/Later.antt =====
-- What other requests leave of a decision.
use distributed_documentatio.NameServer.Deletion.{handle_delete}
use distributed_documentatio.Base.Int.{ℤ}
use distributed_documentatio.NameServer.State.{NameServer, ns_max_access_requests}
use distributed_documentatio.NameServer.Mailbox.{
  approve_request, reject_request, handle_request_access, handle_approve_access,
  handle_reject_access, approve_file, submit_request, put_request, find_request, reject_loop,
  approve_on_server,
}
use distributed_documentatio.Base.{
  CText, ℕ, List, Bool-cases, Option-cases, length, ◌≡◌, inr, ◌∷◌, inl, arith, get_elem?, [], some,
  ◌||◌, not, leb, str_eq, true,
}
use distributed_documentatio.NameServer.Mailbox.Numbers.{
  mailbox-IsNumbered, find_request-place, reject_loop-place,
}
use distributed_documentatio.NameServer.Sharing.{put_file}
use distributed_documentatio.NameServer.Exchange.{status, Outcome}
use distributed_documentatio.NameServer.Mailbox.Decided.{
  IsDecided, set-IsDecided, append-IsDecided, IsSettled,
}
use distributed_documentatio.Names.{validate_filename}
use distributed_documentatio.Text.Digits.{read_int}
use distributed_documentatio.NameServer.Permissions.{parse_permission_flags}
use distributed_documentatio.NameServer.Sharing.Lookup.{with_file-induction}
use distributed_documentatio.NameServer.Mailbox.Deleted.{delete-IsSettled}

-- What any client may send later that the requests depend on: a request for access, an approval or a rejection, of
-- the same number or another, and a deletion, which ends the requests for what it deletes; or anything else that
-- leaves the requests as they are.
pub data Event : NameServer → NameServer → Type 0 where
  request_access :
      (ns : NameServer) (user : CText) (fields : List CText)
      → Event ns (handle_request_access user ns fields).1
  approve_access :
      (ns : NameServer) (ask : ℕ → List CText → Outcome) (user : CText) (fields : List CText)
      → Event ns (handle_approve_access ask user ns fields).1
  reject_access :
      (ns : NameServer) (user : CText) (fields : List CText)
      → Event ns (handle_reject_access user ns fields).1
  delete :
      (ns : NameServer) (ask : ℕ → List CText → Outcome) (user : CText) (fields : List CText)
      → Event ns (handle_delete ask user ns fields).1
  other :
      (ns after : NameServer)
      → after.access_requests ≡ ns.access_requests
      → after.next_request_id ≡ ns.next_request_id
      → Event ns after

pub data Later (ns : NameServer) : NameServer → Type 0 where
  now : Later ns ns
  then_event : {s t : NameServer} → Later ns s → Event s t → Later ns t

approve-stays :
    (id : ℤ) (ask : ℕ → List CText → Outcome) (user : CText) (ns : NameServer) (number : ℤ)
    → IsDecided id ns.access_requests
    → IsDecided id (approve_request ask user ns number).1.access_requests
unfolding approve_request approve_file put_file put_request
approve-stays id ask user ns number d =
    elim (Option-cases (find_request number 0 ns.access_requests)) [
      | inl e ↦ rw (e, approve_request) d
      | inr ((k, req), e) ↦
          let (m, k_is, at, _) = find_request-place number 0 ns.access_requests k req e in
          let k_at : k ≡ m = omega (arith, k_is) in
          let at_k : get_elem? ns.access_requests k ≡ some req = rw k_at at in
          elim (Bool-cases (not req.is_pending || not (str_eq req.to_user user))) [
            | inl refused ↦ rw (e, approve_request, refused) d
            | inr allowed ↦
                let pending : req.is_pending ≡ true = ground arith in
                rw (e, approve_request, allowed)
                  (with_file-induction (λ result. IsDecided id result.1.access_requests) ns
                    req.filename _ (approve_file ask k req) (λ registry. d)
                    (λ registry place file h.
                      elim (Option-cases
                        (approve_on_server ask (record ns { registry = registry }) file req)) [
                          | inl agreed ↦
                              rw (approve_file, agreed)
                                (set-IsDecided id ns.access_requests k req _ at_k pending d)
                          | inr (error, failed_so) ↦
                              rw (approve_file, failed_so)
                                (set-IsDecided id ns.access_requests k req _ at_k pending d)
                        ]))
          ]
    ]

reject-stays :
    (id : ℤ) (user : CText) (ns : NameServer) (number : ℤ)
    → IsDecided id ns.access_requests
    → IsDecided id (reject_request user ns number).1.access_requests
unfolding reject_request
reject-stays id user ns number d =
    elim (Option-cases (reject_loop user number ns.access_requests)) [
      | inl e ↦ rw (e, reject_request) d
      | inr (rest, e) ↦
          let (m, req, at, set_it, _, pending, _) =
            reject_loop-place user number ns.access_requests rest e in
          rw (e, reject_request, set_it) (set-IsDecided id ns.access_requests m req _ at pending d)
    ]

submit-stays :
    (id : ℤ) (user : CText) (ns : NameServer) (fields : List CText)
    → IsDecided id ns.access_requests
    → IsDecided id (handle_request_access user ns fields).1.access_requests
unfolding handle_request_access submit_request
submit-stays id user ns [] d = d
submit-stays id user ns (_ ∷ []) d = d
submit-stays id user ns (_ ∷ _ ∷ []) d = d
submit-stays id user ns (command ∷ filename ∷ perm ∷ more) d =
    elim (Bool-cases (validate_filename filename)) [
      | inr invalid ↦ rw (handle_request_access, invalid) d
      | inl valid ↦ elim (Option-cases (parse_permission_flags perm)) [
        | inl unknown ↦ rw (handle_request_access, valid, unknown) d
        | inr ((r, w), known) ↦ elim (Bool-cases (r || w)) [
          | inr nothing ↦ rw (handle_request_access, valid, known, nothing) d
          | inl right ↦
              rw (handle_request_access, valid, known, right)
                (with_file-induction (λ result. IsDecided id result.1.access_requests) ns filename _
                  (submit_request user r w filename) (λ registry. d)
                  (λ registry place file h.
                    elim (Bool-cases (leb ns_max_access_requests (length ns.access_requests))) [
                      | inl full ↦ rw (submit_request, full) d
                      | inr room ↦
                          rw (submit_request, room) (append-IsDecided id ns.access_requests _ d)
                    ]))
        ]
      ]
    ]

approve_access-stays :
    (id : ℤ) (ask : ℕ → List CText → Outcome) (user : CText) (ns : NameServer) (fields : List CText)
    → IsDecided id ns.access_requests
    → IsDecided id (handle_approve_access ask user ns fields).1.access_requests
unfolding handle_approve_access
approve_access-stays id ask user ns [] d = d
approve_access-stays id ask user ns (_ ∷ []) d = d
approve_access-stays id ask user ns (_ ∷ number ∷ _) d =
    approve-stays id ask user ns (read_int number) d

reject_access-stays :
    (id : ℤ) (user : CText) (ns : NameServer) (fields : List CText)
    → IsDecided id ns.access_requests
    → IsDecided id (handle_reject_access user ns fields).1.access_requests
unfolding handle_reject_access
reject_access-stays id user ns [] d = d
reject_access-stays id user ns (_ ∷ []) d = d
reject_access-stays id user ns (_ ∷ number ∷ _) d = reject-stays id user ns (read_int number) d

Event-IsSettled : (id : ℤ) {s t : NameServer} → Event s t → IsSettled id s → IsSettled id t
Event-IsSettled id (request_access ns user fields) (v, d) =
    ((mailbox-IsNumbered (λ _ _. status 5) user ns fields v).0, submit-stays id user ns fields d)
Event-IsSettled id (approve_access ns ask user fields) (v, d) =
    ((mailbox-IsNumbered ask user ns fields v).1, approve_access-stays id ask user ns fields d)
Event-IsSettled id (reject_access ns user fields) (v, d) = (
  (mailbox-IsNumbered (λ _ _. status 5) user ns fields v).2,
  reject_access-stays id user ns fields d,
)
Event-IsSettled id (delete ns ask user fields) s = delete-IsSettled id ask user ns fields s
Event-IsSettled id (other ns after requests next) (v, d) = (
  record {
    numbered = rw requests v.numbered;
    next = rw (requests, next) v.next;
    fits = rw requests v.fits;
  },
  rw requests d,
)

pub Later-IsSettled : (id : ℤ) {s t : NameServer} → Later s t → IsSettled id s → IsSettled id t
Later-IsSettled id now settled = settled
Later-IsSettled id (then_event later event) settled =
    Event-IsSettled id event (Later-IsSettled id later settled)
