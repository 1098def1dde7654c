-- ===== src/NameServer/Mailbox/Decisions.antt =====
-- Who decides on an access request, and how often.
use distributed_documentatio.Base.{
  ℕ, CText, List, Bool, get_elem?, ◌≡◌, some, none, false, true, if◌then◌else◌, Option-cases, ◌+◌,
  refl, arith, inl, ◌∷◌, inr, suc, sym, Bool-cases, [], ◌∙◌, not, zero, ap, ◌||◌, str_eq,
  str_eq_sound,
}
use distributed_documentatio.NameServer.Mailbox.{
  find_request, approve_request, reject_request, reject_loop,
}
use distributed_documentatio.Base.Int.{ℤ, pos, int_eq, int_eq_refl}
use distributed_documentatio.NameServer.Exchange.{Outcome}
use distributed_documentatio.NameServer.State.{AccessRequest, NameServer}
use distributed_documentatio.NameServer.Sharing.Grants.{is_answered}
use distributed_documentatio.NameServer.Mailbox.Numbers.{
  Numbered, MailboxIsNumbered, approve-IsNumbered, reject-IsNumbered, reject_loop-place,
  find_request-place,
}
use distributed_documentatio.NameServer.Mailbox.Decided.{
  IsDecided, approve-IsDecided, reject-IsDecided, IsSettled,
}
use distributed_documentatio.Protocol.Replies.{Reply}
use distributed_documentatio.NameServer.Mailbox.Later.{Later, Later-IsSettled}

-- An approval or a rejection of the request of a number.
abbrev pub decide : (ℕ → List CText → Outcome) → Bool → CText → NameServer → ℤ → Reply × NameServer
decide ask approves user ns id =
    if approves then approve_request ask user ns id else reject_request user ns id

-- The number tells the place.
number_at :
    (n : ℕ) (requests : List AccessRequest) (m : ℕ) (req : AccessRequest)
    → Numbered n requests
    → get_elem? requests m ≡ some req
    → req.id ≡ pos (n + m)
number_at n [] m req h g = absurd (ground arith)
number_at n (r ∷ requests) zero req h g = ground arith
number_at n (r ∷ requests) (suc m) req h g = ground (arith, number_at (suc n) requests m req h.1 g)

-- A request that stands at its place under its number is found there.
found_at :
    (id : ℤ) (i : ℕ) (requests : List AccessRequest) (n m : ℕ) (req : AccessRequest)
    → Numbered n requests
    → get_elem? requests m ≡ some req
    → req.id ≡ id
    → find_request id i requests ≡ some (i + m, req)
unfolding find_request
found_at id i [] n m req h g a = absurd (ground arith)
found_at id i (r ∷ requests) n zero req h g a =
    let here : int_eq r.id id ≡ true = ground (arith, int_eq_refl id) in rw here (ground arith)
found_at id i (r ∷ requests) n (suc m) req h g a =
    let number : req.id ≡ pos (suc n + m) = number_at (suc n) requests m req h.1 g in
    let other : int_eq r.id id ≡ false = unfold int_eq in ground arith in
    rw other (ground (arith, found_at id (i + 1) requests (suc n) m req h.1 g a))

-- Nothing is left to reject.
decided_reject :
    (user : CText) (id : ℤ) (requests : List AccessRequest)
    → Numbered 1 requests
    → IsDecided id requests
    → reject_loop user id requests ≡ none
decided_reject user id requests h (m, req, at, same, over) =
    elim (Option-cases (reject_loop user id requests)) [
      | inl e ↦ e
      | inr (rest, e) ↦
          let (m', req', at', _, same', pending, _) = reject_loop-place user id requests rest e in
          let number = number_at 1 requests m req h at in
          let number' = number_at 1 requests m' req' h at' in
          let one : m ≡ m' = ground arith in
          let both : some req ≡ some req' = sym at ∙ ap (get_elem? requests) one ∙ at' in
          absurd (ground arith)
    ]

decided_fails :
    (ask : ℕ → List CText → Outcome) (approves : Bool) (user : CText) (ns : NameServer) (id : ℤ)
    → IsSettled id ns
    → is_answered (decide ask approves user ns id).0 ≡ false
unfolding approve_request reject_request is_answered
decided_fails ask true user ns id (v, (m, req, at, same, over)) =
    let found = found_at id 0 ns.access_requests 1 m req v.numbered at same in
    rw (approve_request, found, over) refl
decided_fails ask false user ns id (v, d) =
    rw (reject_request, decided_reject user id ns.access_requests v.numbered d) refl

settles :
    (ask : ℕ → List CText → Outcome) (approves : Bool) (user : CText) (ns : NameServer) (id : ℤ)
    → MailboxIsNumbered ns
    → is_answered (decide ask approves user ns id).0 ≡ true
    → IsSettled id (decide ask approves user ns id).1
settles ask true user ns id v h =
    (approve-IsNumbered ask user ns id v, approve-IsDecided ask user ns id h)
settles ask false user ns id v h = (reject-IsNumbered user ns id v, reject-IsDecided user ns id h)

-- Once the request of a number is approved or rejected, by a reply that says so, in a mailbox whose requests are
-- numbered in their order, every later approval or rejection of that number fails, whoever asks for it, whatever
-- requests for access, approvals and rejections, failed ones included, and deletions come in between, and whatever
-- else that leaves the requests as they are.
pub decided_once :
    (ask ask' : ℕ → List CText → Outcome) (approves approves' : Bool) (user user' : CText)
    (ns later : NameServer) (id : ℤ)
    → MailboxIsNumbered ns
    → is_answered (decide ask approves user ns id).0 ≡ true
    → Later (decide ask approves user ns id).1 later
    → is_answered (decide ask' approves' user' later id).0 ≡ false
decided_once ask ask' approves approves' user user' ns later id v h events =
    decided_fails ask' approves' user' later id
      (Later-IsSettled id events (settles ask approves user ns id v h))

-- An approval or a rejection succeeds only for the user that the request is for, and only while it is pending.
pub decides_own :
    (ask : ℕ → List CText → Outcome) (approves : Bool) (user : CText) (ns : NameServer) (id : ℤ)
    → is_answered (decide ask approves user ns id).0 ≡ true
    → (m : ℕ) × (req : AccessRequest) × (get_elem? ns.access_requests m ≡ some req)
      × (req.id ≡ id)
      × (req.is_pending ≡ true)
      × (req.to_user ≡ user)
unfolding approve_request reject_request is_answered
decides_own ask true user ns id h = elim (Option-cases (find_request id 0 ns.access_requests)) [
  | inl e ↦ (let no_reply : false ≡ true = rw (e, approve_request) at h in absurd cc)
  | inr ((k, req), e) ↦
      let (m, k_is, at, same) = find_request-place id 0 ns.access_requests k req e in
      elim (Bool-cases (not req.is_pending || not (str_eq req.to_user user))) [
        | inl refused ↦
            (let no_reply : false ≡ true = rw (e, approve_request, refused) at h in absurd cc)
        | inr allowed ↦
            (m, req, at, same, ground arith, str_eq_sound req.to_user user (ground arith))
      ]
]
decides_own ask false user ns id h = elim (Option-cases (reject_loop user id ns.access_requests)) [
  | inl e ↦ (let no_reply : false ≡ true = rw (e, reject_request) at h in absurd cc)
  | inr (rest, e) ↦
      let (m, req, at, _, same, pending, own) =
        reject_loop-place user id ns.access_requests rest e in
      (m, req, at, same, pending, str_eq_sound req.to_user user own)
]
