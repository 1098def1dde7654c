-- ===== src/NameServer/Clients/Sessions.antt =====
-- One session for each user.
use distributed_documentatio.Base.{
  arith, List, CText, Bool, ◌∷◌, false, true, ◌≡◌, Bool-cases, not, str_eq, if◌then◌else◌, ◌&&◌,
  ◌||◌, inl, [], length, inr, refl, str_eq_sound, ◌≤◌, ◌<◌, ◌++◌, str_eq_iff, str_eq_sym, none, ◌⊎◌,
  some, Option, leb, take, ◌-◌, take_all, length-append,
}
use distributed_documentatio.NameServer.Clients.{
  ns_register_client, disconnect_client, reactivate, Known, reactivated, unknown, connected, behind,
  new_client,
}
use distributed_documentatio.NameServer.State.{ClientInfo}
use distributed_documentatio.Base.Int.{ℤ}
use distributed_documentatio.Acl.{ns_max_clients, max_username_length}

-- The user has a session: the first client of the name is connected.
unfoldable pub has_session : List ClientInfo → CText → Bool
has_session [] username = false
has_session (c ∷ clients) username =
    if str_eq c.username username then c.is_connected else has_session clients username

-- Nobody is entered twice.
unfoldable pub is_entered : List ClientInfo → CText → Bool
is_entered [] username = false
is_entered (c ∷ clients) username =
    if str_eq c.username username then true else is_entered clients username

unfoldable pub are_distinct : List ClientInfo → Bool
unfolding is_entered
are_distinct [] = true
are_distinct (c ∷ clients) = not (is_entered clients c.username) && are_distinct clients

abbrev Reactivated : CText → List ClientInfo → Known → Type 0
Reactivated u clients unknown = is_entered clients u ≡ false
Reactivated u clients connected = has_session clients u ≡ true
Reactivated u clients (reactivated again) =
    (has_session clients u ≡ false)
    × ((v : CText) → has_session again v ≡ str_eq u v || has_session clients v)
    × ((v : CText) → is_entered again v ≡ is_entered clients v)
    × (are_distinct again ≡ are_distinct clients)
    × (length again ≡ length clients)

behind_lem :
    (u : CText) (c : ClientInfo) (clients : List ClientInfo) (k : Known)
    → str_eq c.username u ≡ false
    → Reactivated u clients k
    → Reactivated u (c ∷ clients) (behind c k)
unfolding has_session is_entered are_distinct
behind_lem u c clients unknown other h = ground (arith, h)
behind_lem u c clients connected other h = ground (arith, h)
behind_lem u c clients (reactivated again) other (off, sessions, entered, distinct, long) =
    let different : (v : CText) → (str_eq u v && str_eq c.username v) ≡ false =
      λ v. ground (arith, str_eq_iff u v, str_eq_iff c.username v, str_eq_iff c.username u) in
    (
      ground (arith, off),
      λ v. ground (arith, sessions v, different v),
      λ v. ground (arith, entered v),
      ground (arith, entered c.username, distinct),
      ground (arith, long),
    )

reactivate_lem :
    (u : CText) (fd : ℤ) (clients : List ClientInfo)
    → Reactivated u clients (reactivate u fd clients)
unfolding reactivate has_session is_entered are_distinct
reactivate_lem u fd [] = refl
reactivate_lem u fd (c ∷ clients) = elim (Bool-cases (str_eq c.username u)) [
  | inl same ↦ elim (Bool-cases c.is_connected) [
    | inl on ↦ rw (same, on) (ground (arith, same, on))
    | inr off ↦
        let name = str_eq_sound c.username u same in
        rw (same, off)
          (
            ground (arith, same, off),
            λ v. ground (arith, name),
            λ v. ground arith,
            ground arith,
            refl,
          )
  ]
  | inr other ↦
      rw other
        (behind_lem u c clients (reactivate u fd clients) other (reactivate_lem u fd clients))
]

-- The invariant of the clients: no name twice, and no more than the array holds.
pub record AreClients (clients : List ClientInfo) : Type 0 where
  pub distinct : are_distinct clients ≡ true
  pub fit : length clients ≤ ns_max_clients

has_session-entered :
    (clients : List ClientInfo) (u : CText)
    → is_entered clients u ≡ false
    → has_session clients u ≡ false
unfolding has_session is_entered
has_session-entered [] u h = refl
has_session-entered (c ∷ clients) u h = ground (arith, has_session-entered clients u)

entered-append :
    (clients : List ClientInfo) (c : ClientInfo) (v : CText)
    → is_entered (clients ++ c ∷ []) v ≡ is_entered clients v || str_eq c.username v
unfolding is_entered
entered-append [] c v = ground arith
entered-append (d ∷ clients) c v = ground (arith, entered-append clients c v)

sessions-append :
    (clients : List ClientInfo) (c : ClientInfo) (v : CText)
    → has_session (clients ++ c ∷ []) v
      ≡ has_session clients v
        || not (is_entered clients v) && (str_eq c.username v && c.is_connected)
unfolding is_entered has_session
sessions-append [] c v = ground arith
sessions-append (d ∷ clients) c v = ground (arith, sessions-append clients c v)

distinct-append :
    (clients : List ClientInfo) (c : ClientInfo)
    → are_distinct clients ≡ true
    → is_entered clients c.username ≡ false
    → are_distinct (clients ++ c ∷ []) ≡ true
unfolding are_distinct is_entered
distinct-append [] c h e = refl
distinct-append (d ∷ clients) c h e = ground (
  arith,
  distinct-append clients c,
  entered-append clients c d.username,
  str_eq_sym d.username c.username,
)

-- What registering leads to: it fails for a reason, or the user has a session.
abbrev pub Registered : CText → List ClientInfo → Option (List ClientInfo) → Type 0
Registered u clients none =
    (has_session clients u ≡ true)
    ⊎ (is_entered clients u ≡ false) × (ns_max_clients ≤ length clients)
Registered u clients (some after) =
    (has_session clients u ≡ false)
    × ((v : CText) → has_session after v ≡ str_eq u v || has_session clients v)
    × AreClients after

new_session :
    (u : CText) (fd : ℤ) (clients : List ClientInfo)
    → length u < max_username_length
    → AreClients clients
    → is_entered clients u ≡ false
    → leb ns_max_clients (length clients) ≡ false
    → Registered u clients (some (clients ++ new_client u fd ∷ []))
new_session u fd clients short inv absent room =
    let name : take (max_username_length - 1) u ≡ u =
      take_all (max_username_length - 1) u (omega (arith, short)) in
    (
      has_session-entered clients u absent,
      λ v.
          rw (sessions-append clients (new_client u fd) v, name)
            (ground (arith, str_eq_iff u v, has_session-entered clients v)),
      record {
        distinct = distinct-append clients (new_client u fd) inv.distinct (rw name absent);
        fit = rw (length-append clients (new_client u fd ∷ [])) (ground (arith, room));
      },
    )

reactivate-Registered :
    (u : CText) (fd : ℤ) (clients : List ClientInfo) (k : Known)
    → length u < max_username_length
    → AreClients clients
    → Reactivated u clients k
    → reactivate u fd clients ≡ k
    → Registered u clients (ns_register_client u fd clients)
unfolding ns_register_client
reactivate-Registered u fd clients connected short inv h e = rw (ns_register_client, e) (inl h)
reactivate-Registered u fd clients (reactivated again) short inv (off, sessions, _, distinct, long)
      e =
    rw (ns_register_client, e)
      (
        off,
        sessions,
        record { distinct = ground (arith, inv.distinct); fit = ground (arith, inv.fit) },
      )
reactivate-Registered u fd clients unknown short inv h e =
    elim (Bool-cases (leb ns_max_clients (length clients))) [
      | inl full ↦ rw (ns_register_client, e, full) (inr (h, ground arith))
      | inr room ↦ rw (ns_register_client, e, room) (new_session u fd clients short inv h room)
    ]

-- Registering a user whose name fits its array, when no name is entered twice, fails if he has a session, and else
-- only if he is new and the array is full. If it succeeds he had no session and has one, nobody else's
-- changes, and still no name is entered twice.
pub register_client_exact :
    (u : CText) (fd : ℤ) (clients : List ClientInfo)
    → length u < max_username_length
    → AreClients clients
    → Registered u clients (ns_register_client u fd clients)
register_client_exact u fd clients short inv =
    reactivate-Registered u fd clients (reactivate u fd clients) short inv
      (reactivate_lem u fd clients) refl

entered-disconnect :
    (u : CText) (clients : List ClientInfo) (v : CText)
    → is_entered (disconnect_client u clients) v ≡ is_entered clients v
unfolding disconnect_client is_entered
entered-disconnect u [] v = refl
entered-disconnect u (c ∷ clients) v = ground (arith, entered-disconnect u clients v)

distinct-disconnect :
    (u : CText) (clients : List ClientInfo)
    → are_distinct (disconnect_client u clients) ≡ are_distinct clients
unfolding disconnect_client are_distinct
distinct-disconnect u [] = refl
distinct-disconnect u (c ∷ clients) =
    ground (arith, distinct-disconnect u clients, entered-disconnect u clients c.username)

length-disconnect :
    (u : CText) (clients : List ClientInfo) → length (disconnect_client u clients) ≡ length clients
unfolding disconnect_client
length-disconnect u [] = refl
length-disconnect u (c ∷ clients) = ground (arith, length-disconnect u clients)

sessions-disconnect :
    (u : CText) (clients : List ClientInfo) (v : CText)
    → has_session (disconnect_client u clients) v ≡ has_session clients v && not (str_eq u v)
unfolding disconnect_client has_session
sessions-disconnect u [] v = refl
sessions-disconnect u (c ∷ clients) v = ground (
  arith,
  sessions-disconnect u clients v,
  str_eq_iff u v,
  str_eq_iff c.username v,
  str_eq_iff c.username u,
)

-- The end of a user's connection ends his session and no other, and keeps the names entered once: he can
-- register again.
pub disconnect_exact :
    (u : CText) (clients : List ClientInfo) (v : CText)
    → AreClients clients
    → (has_session (disconnect_client u clients) v ≡ has_session clients v && not (str_eq u v))
      × AreClients (disconnect_client u clients)
disconnect_exact u clients v inv = (
  sessions-disconnect u clients v,
  record {
    distinct = rw (distinct-disconnect u clients) inv.distinct;
    fit = rw (length-disconnect u clients) inv.fit;
  },
)
