-- ===== src/NameServer/Mailbox/Numbers.antt =====
-- The numbers of the access requests.
use distributed_documentatio.Base.{
  arith, ℕ, List, ◌≡◌, CText, length, ◌∷◌, get_elem?, some, ◌+◌, suc, ◌≤◌, set, Bool-cases, [],
  ◌++◌, zero, inl, inr, false, true, str_eq, Option-cases, ◌&&◌, sym, ◌∙◌, ap, refl, Option, Bool,
  length-set, leb, length-append, ◌||◌, not,
}
use distributed_documentatio.NameServer.State.{NameServer, AccessRequest, ns_max_access_requests}
use distributed_documentatio.NameServer.Mailbox.{
  find_request, reject_loop, keep, submit_request, put_request, reject_request, approve_request,
  handle_request_access, approve_file, handle_approve_access, handle_reject_access,
  approve_on_server,
}
use distributed_documentatio.Base.Int.{ℤ, pos, int_eq, int_eq_sound}
use distributed_documentatio.NameServer.Sharing.{put_file}
use distributed_documentatio.NameServer.Files.{FileMetadata}
use mathlib.Core.Option.{some-injective}
use distributed_documentatio.Names.{validate_filename}
use distributed_documentatio.NameServer.Permissions.{parse_permission_flags}
use distributed_documentatio.NameServer.Exchange.{Outcome}
use distributed_documentatio.Text.Digits.{read_int}
use distributed_documentatio.NameServer.Sharing.Lookup.{with_file-induction}

-- The requests are numbered from `n` on.
abbrev pub Numbered : ℕ → List AccessRequest → Type 0
Numbered n [] = Unit {0}
Numbered n (req ∷ requests) = (req.id ≡ pos n) × Numbered (suc n) requests

pub record IsNumbered (requests : List AccessRequest) (next_request_id : ℕ) : Type 0 where
  pub numbered : Numbered 1 requests
  pub next : next_request_id ≡ length requests + 1
  pub fits : length requests ≤ ns_max_access_requests

-- Of the name server's requests.
abbrev pub MailboxIsNumbered : NameServer → Type 0
MailboxIsNumbered ns = IsNumbered ns.access_requests ns.next_request_id

Numbered-append :
    (n : ℕ) (requests : List AccessRequest) (req : AccessRequest)
    → Numbered n requests
    → req.id ≡ pos (length requests + n)
    → Numbered n (requests ++ req ∷ [])
Numbered-append n [] req h e = (ground arith, tt)
Numbered-append n (r ∷ requests) req h e =
    (h.0, Numbered-append (suc n) requests req h.1 (ground arith))

-- Writing a request under its own number keeps the numbers.
Numbered-set :
    (n : ℕ) (requests : List AccessRequest) (m : ℕ) (old new : AccessRequest)
    → Numbered n requests
    → get_elem? requests m ≡ some old
    → new.id ≡ old.id
    → Numbered n (set requests m new)
Numbered-set n [] m old new h g e = tt
Numbered-set n (r ∷ requests) zero old new h g e = (ground arith, h.1)
Numbered-set n (r ∷ requests) (suc m) old new h g e =
    (h.0, Numbered-set (suc n) requests m old new h.1 g e)

-- A request that is found stands at its place under its number.
pub find_request-place :
    (id : ℤ) (i : ℕ) (requests : List AccessRequest) (k : ℕ) (req : AccessRequest)
    → find_request id i requests ≡ some (k, req)
    → (m : ℕ) × (k ≡ i + m) × (get_elem? requests m ≡ some req) × (req.id ≡ id)
unfolding find_request
find_request-place id i [] k req h = absurd (ground arith)
find_request-place id i (r ∷ requests) k req h = elim (Bool-cases (int_eq r.id id)) [
  | inl e ↦
      let here : ◌≡◌ {A = Option (ℕ × AccessRequest)} (some (i, r)) (some (k, req)) = rw e at h in
      (0, ground arith, ground arith, ground (arith, int_eq_sound r.id id e))
  | inr e ↦
      let later : find_request id (i + 1) requests ≡ some (k, req) = rw e at h in
      let (m, at, got_it, same) = find_request-place id (i + 1) requests k req later in
      (suc m, omega (arith, at), got_it, same)
]

-- A rejection writes one request, which has the number, was pending, and is for the user.
pub reject_loop-place :
    (user : CText) (id : ℤ) (requests rest : List AccessRequest)
    → reject_loop user id requests ≡ some rest
    → (m : ℕ) × (req : AccessRequest) × (get_elem? requests m ≡ some req)
      × (rest ≡ set requests m (record req { is_pending = false }))
      × (req.id ≡ id)
      × (req.is_pending ≡ true)
      × (str_eq req.to_user user ≡ true)
unfolding reject_loop
reject_loop-place user id [] rest e = absurd (ground arith)
reject_loop-place user id (r ∷ requests) rest e =
    elim (Bool-cases (int_eq r.id id && r.is_pending && str_eq r.to_user user)) [
      | inl yes_found ↦
          let here : some (record r { is_pending = false } ∷ requests) ≡ some rest =
            rw yes_found at e in
          (
            0,
            r,
            refl,
            sym (some-injective _ _ here),
            int_eq_sound r.id id (ground arith),
            ground arith,
            ground arith,
          )
      | inr passed ↦
          let later : keep r (reject_loop user id requests) ≡ some rest = rw passed at e in
          elim (Option-cases (reject_loop user id requests)) [
            | inl stop ↦ absurd (ground (arith, stop))
            | inr (more, f) ↦
                let (m, req, got_it, set_it, number, pending, addressee) =
                  reject_loop-place user id requests more f in
                let both : some (r ∷ more) ≡ some rest = rw f at later in
                (
                  suc m,
                  req,
                  got_it,
                  sym (some-injective _ _ both) ∙ ap (◌∷◌ r) set_it,
                  number,
                  pending,
                  addressee,
                )
          ]
    ]

submit-IsNumbered :
    (user : CText) (r w : Bool) (filename : CText) (ns : NameServer) (place : ℕ)
    (file : FileMetadata)
    → MailboxIsNumbered ns
    → MailboxIsNumbered (submit_request user r w filename ns place file).1
unfolding submit_request
submit-IsNumbered user r w filename ns place file v =
    elim (Bool-cases (leb ns_max_access_requests (length ns.access_requests))) [
      | inl full ↦ rw (full, submit_request) v
      | inr room ↦
          rw (room, submit_request)
            (record {
              numbered = Numbered-append 1 ns.access_requests _ v.numbered (ground (arith, v.next));
              next = rw (length-append ns.access_requests (_ ∷ [])) (omega (arith, v.next));
              fits = rw (length-append ns.access_requests (_ ∷ [])) (ground (arith, v.fits));
            })
    ]

put_request-IsNumbered :
    (ns : NameServer) (k : ℕ) (old new : AccessRequest)
    → get_elem? ns.access_requests k ≡ some old
    → new.id ≡ old.id
    → MailboxIsNumbered ns
    → MailboxIsNumbered (put_request ns k new)
unfolding put_request
put_request-IsNumbered ns k old new at same v = record {
  numbered = Numbered-set 1 ns.access_requests k old new v.numbered at same;
  next = rw (length-set ns.access_requests k new) v.next;
  fits = rw (length-set ns.access_requests k new) v.fits;
}

pub reject-IsNumbered :
    (user : CText) (ns : NameServer) (id : ℤ)
    → MailboxIsNumbered ns
    → MailboxIsNumbered (reject_request user ns id).1
unfolding reject_request
reject-IsNumbered user ns id v = elim (Option-cases (reject_loop user id ns.access_requests)) [
  | inl e ↦ rw (e, reject_request) v
  | inr (rest, e) ↦
      let (m, req, at, set_it, _, _, _) = reject_loop-place user id ns.access_requests rest e in
      let written = put_request-IsNumbered ns m req (record req { is_pending = false }) at refl v in
      rw (e, reject_request, set_it) (unfold put_request in written)
]

pub approve-IsNumbered :
    (ask : ℕ → List CText → Outcome) (user : CText) (ns : NameServer) (id : ℤ)
    → MailboxIsNumbered ns
    → MailboxIsNumbered (approve_request ask user ns id).1
unfolding approve_request approve_file put_file
approve-IsNumbered ask user ns id v = elim (Option-cases (find_request id 0 ns.access_requests)) [
  | inl e ↦ rw (e, approve_request) v
  | inr ((k, req), e) ↦
      let (m, k_is, at, _) = find_request-place id 0 ns.access_requests k req e in
      let k_at : k ≡ m = omega (arith, k_is) in
      let at_k : get_elem? ns.access_requests k ≡ some req = rw k_at at in
      elim (Bool-cases (not req.is_pending || not (str_eq req.to_user user))) [
        | inl refused ↦ rw (e, approve_request, refused) v
        | inr allowed ↦
            rw (e, approve_request, allowed)
              (with_file-induction (λ result. MailboxIsNumbered result.1) ns req.filename _
                (approve_file ask k req) (λ registry. v)
                (λ registry place file h.
                  elim (Option-cases
                    (approve_on_server ask (record ns { registry = registry }) file req)) [
                      | inl agreed ↦
                          rw (approve_file, agreed)
                            (put_request-IsNumbered _ k req (record req { is_pending = false }) at_k
                              refl v)
                      | inr (error, failed_so) ↦
                          rw (approve_file, failed_so)
                            (put_request-IsNumbered _ k req (record req { is_pending = true }) at_k
                              refl v)
                    ]))
      ]
]

request-IsNumbered :
    (user : CText) (ns : NameServer) (command filename perm : CText) (more : List CText)
    → MailboxIsNumbered ns
    → MailboxIsNumbered (handle_request_access user ns (command ∷ filename ∷ perm ∷ more)).1
unfolding handle_request_access
request-IsNumbered user ns command filename perm more v =
    elim (Bool-cases (validate_filename filename)) [
      | inr invalid ↦ rw (handle_request_access, invalid) v
      | inl valid ↦ elim (Option-cases (parse_permission_flags perm)) [
        | inl unknown ↦ rw (handle_request_access, valid, unknown) v
        | inr ((r, w), known) ↦ elim (Bool-cases (r || w)) [
          | inr nothing ↦ rw (handle_request_access, valid, known, nothing) v
          | inl right ↦
              rw (handle_request_access, valid, known, right)
                (with_file-induction (λ result. MailboxIsNumbered result.1) ns filename _
                  (submit_request user r w filename) (λ registry. v)
                  (λ registry place file h.
                    submit-IsNumbered user r w filename (record ns { registry = registry }) place
                      file v))
        ]
      ]
    ]

-- The access requests are numbered from 1 on in their order, the next number follows the last, and there
-- are never more of them than the array holds: each of the handlers that change them keeps this.
pub mailbox-IsNumbered :
    (ask : ℕ → List CText → Outcome) (user : CText) (ns : NameServer) (fields : List CText)
    → MailboxIsNumbered ns
    → MailboxIsNumbered (handle_request_access user ns fields).1
      × MailboxIsNumbered (handle_approve_access ask user ns fields).1
      × MailboxIsNumbered (handle_reject_access user ns fields).1
unfolding handle_request_access handle_approve_access handle_reject_access
mailbox-IsNumbered ask user ns [] v = (v, v, v)
mailbox-IsNumbered ask user ns (_ ∷ []) v = (v, v, v)
mailbox-IsNumbered ask user ns (_ ∷ id ∷ []) v =
    (v, approve-IsNumbered ask user ns (read_int id) v, reject-IsNumbered user ns (read_int id) v)
mailbox-IsNumbered ask user ns (command ∷ id ∷ perm ∷ more) v = (
  request-IsNumbered user ns command id perm more v,
  approve-IsNumbered ask user ns (read_int id) v,
  reject-IsNumbered user ns (read_int id) v,
)
