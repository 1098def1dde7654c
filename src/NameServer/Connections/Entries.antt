-- ===== src/NameServer/Connections/Entries.antt =====
-- What is left of the entry of a storage server when its connection ends.
use distributed_documentatio.Base.{
  arith, ℕ, Bool, ◌≡◌, true, length, ◌∷◌, none, ◌++◌, some, ◌+◌, not, [], false, refl, ◌&&◌, Option,
  get_elem?, CText, set, get_elem?-append, suc, ◌≤◌, ap, zero, ◌<◌, leb, length-append,
}
use distributed_documentatio.NameServer.Connections.{
  end_connection, find_storage_server_by_sockfd, switch_off, is_registered,
  ns_register_storage_server, deregister, ns_max_storage_servers, new_entry,
}
use distributed_documentatio.Base.Int.{ℤ, int_eq, negsuc, pos, int_eq_sound}
use distributed_documentatio.NameServer.Servers.{Servers, StorageServerInfo}

-- Every entry is one whose connection has ended.
unfoldable pub are_off : Servers → Bool
are_off [] = true
are_off (none ∷ servers) = are_off servers
are_off (some info ∷ servers) =
    not info.is_alive && int_eq info.sockfd (negsuc 0) && are_off servers

find-off :
    (fd i : ℕ) (servers : Servers)
    → are_off servers ≡ true
    → find_storage_server_by_sockfd (pos fd) i servers ≡ none
unfolding are_off find_storage_server_by_sockfd
find-off fd i [] h = refl
find-off fd i (none ∷ servers) h = find-off fd (i + 1) servers h
find-off fd i (some info ∷ servers) h =
    let closed : info.sockfd ≡ negsuc 0 = int_eq_sound info.sockfd (negsuc 0) (ground arith) in
    let other : int_eq info.sockfd (pos fd) ≡ false = rw closed (unfold int_eq in refl) in
    rw other (find-off fd (i + 1) servers (ground arith))

registered-off :
    (ip : CText) (port : ℕ) (servers : Servers)
    → are_off servers ≡ true
    → is_registered ip port servers ≡ false
unfolding are_off is_registered
registered-off ip port [] h = refl
registered-off ip port (none ∷ servers) h = registered-off ip port servers h
registered-off ip port (some info ∷ servers) h = ground (arith, registered-off ip port servers)

off-append :
    (servers : Servers) (info : StorageServerInfo)
    → are_off servers ≡ true
    → are_off (servers ++ some (record info { is_alive = false; sockfd = negsuc 0 }) ∷ []) ≡ true
unfolding are_off int_eq
off-append [] info h = refl
off-append (none ∷ servers) info h = off-append servers info h
off-append (some other ∷ servers) info h = ground (arith, off-append servers info)

set-last :
    (servers : Servers) (a b : Option StorageServerInfo)
    → set (servers ++ a ∷ []) (length servers) b ≡ servers ++ b ∷ []
set-last [] a b = refl
set-last (x ∷ servers) a b = ap (◌∷◌ x) (set-last servers a b)

-- The entry at the end, switched off.
off-last :
    (servers : Servers) (info : StorageServerInfo)
    → switch_off (length servers) (servers ++ some info ∷ [])
      ≡ servers ++ some (record info { is_alive = false; sockfd = negsuc 0 }) ∷ []
unfolding switch_off
off-last servers info =
    let last : get_elem? (servers ++ some info ∷ []) (length servers) ≡ some (some info) =
      ground (arith, get_elem?-append servers (some info) (length servers)) in
    rw (switch_off, last) (set-last servers (some info) _)

-- The storage server of an address connects and disconnects again.
abbrev pub reconnect : ℕ → CText → ℕ → CText → ℕ → ℕ → Servers → Servers
reconnect now ns_ip ns_port ip port fd servers =
    elim (ns_register_storage_server now ns_ip ns_port ip port (pos fd) servers) [
      | none ↦ servers
      | some registered ↦ end_connection (pos fd) (length servers) registered
    ]

unfoldable pub reconnects : ℕ → ℕ → CText → ℕ → CText → ℕ → ℕ → Servers → Servers
reconnects zero now ns_ip ns_port ip port fd servers = servers
reconnects (suc n) now ns_ip ns_port ip port fd servers =
    reconnects n now ns_ip ns_port ip port fd (reconnect now ns_ip ns_port ip port fd servers)

module _ (now : ℕ) (ns_ip : CText) (ns_port : ℕ) (ip : CText) (port fd : ℕ) where
  -- One connection leaves one entry more.
  reconnect_grows :
      (servers : Servers)
      → are_off servers ≡ true
      → length servers < ns_max_storage_servers
      → (are_off (reconnect now ns_ip ns_port ip port fd servers) ≡ true)
        × (length (reconnect now ns_ip ns_port ip port fd servers) ≡ length servers + 1)
  unfolding ns_register_storage_server end_connection deregister
  reconnect_grows servers off room =
      let entry = new_entry now ns_ip ns_port ip port (pos fd) in
      let not_full : leb ns_max_storage_servers (length servers) ≡ false = ground (arith, room) in
      let ended = off-append servers entry off in
      rw
        (
          reconnect,
          ns_register_storage_server,
          not_full,
          registered-off ip port servers off,
          end_connection,
          deregister,
          off-last servers entry,
          find-off fd 0 _ ended,
          off-last servers entry,
        )
        (
          ended,
          length-append servers (some (record entry { is_alive = false; sockfd = negsuc 0 }) ∷ []),
        )

  reconnects_grow :
      (n : ℕ) (servers : Servers)
      → are_off servers ≡ true
      → length servers + n ≤ ns_max_storage_servers
      → (are_off (reconnects n now ns_ip ns_port ip port fd servers) ≡ true)
        × (length (reconnects n now ns_ip ns_port ip port fd servers) ≡ length servers + n)
  unfolding reconnects
  reconnects_grow zero servers off room = (off, omega arith)
  reconnects_grow (suc n) servers off room =
      let (off', long) = reconnect_grows servers off (omega (arith, room)) in
      let (off'', long') =
        reconnects_grow n (reconnect now ns_ip ns_port ip port fd servers) off'
          (omega (arith, room, long)) in
      (off'', omega (arith, long, long'))

  -- Once a storage server has connected and disconnected a hundred times, starting with no entries, no storage server
  -- of whatever address can register, although none is connected: the entries are switched off before they are
  -- looked for by their socket, so that none is ever given up.
  pub hundred_reconnects :
      (ns_ip' : CText) (ns_port' : ℕ) (ip' : CText) (port' : ℕ) (fd' : ℤ)
      → let servers = reconnects ns_max_storage_servers now ns_ip ns_port ip port fd [] in
        (are_off servers ≡ true)
        × (ns_register_storage_server now ns_ip' ns_port' ip' port' fd' servers ≡ none)
  unfolding ns_register_storage_server are_off
  hundred_reconnects ns_ip' ns_port' ip' port' fd' =
      let (off, long) = reconnects_grow ns_max_storage_servers [] refl (omega arith) in
      (off, rw (ns_register_storage_server, long) refl)
