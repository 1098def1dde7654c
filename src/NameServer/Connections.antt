-- ===== src/NameServer/Connections.antt =====
-- name_server/name_server.c: the connections of storage servers: `ns_register_storage_server`,
-- `find_storage_server_by_sockfd`, `ns_recalculate_server_load_locked`, `ns_find_storage_server`, and the end of
-- a connection in `run_ss_loop` and `connection_thread`. The sizes are added up as whole numbers.
pub mod Entries
pub mod Accounts
use distributed_documentatio.NameServer.Servers.{StorageServerInfo, Servers}
use distributed_documentatio.NameServer.Files.{FileMetadata}
use distributed_documentatio.NameServer.State.{max_ip_length, holds_file, NameServer}
use distributed_documentatio.Base.{
  ℕ, CText, List, Bool, take, Option, get_elem?, length, ◌∷◌, none, false, ◌-◌, if◌then◌else◌, ◌+◌,
  some, ◌&&◌, true, leb, set, [], str_eq, ◌++◌, ◌==◌, ◌||◌, ltb, not, codes,
}
use distributed_documentatio.Base.Int.{int_eq, ℤ, pos, pos_part, negsuc}
use distributed_documentatio.Text.Digits.{read_int}
use distributed_documentatio.Protocol.Replies.{
  Reply, failed, err_invalid_request, err_internal_error,
}
use distributed_documentatio.NameServer.Sharing.{ok_reply}

abbrev pub ns_max_storage_servers : ℕ
ns_max_storage_servers = 100

-- An entry that is alive has the address.
unfoldable pub is_registered : CText → ℕ → Servers → Bool
is_registered client_ip client_port [] = false
is_registered client_ip client_port (none ∷ servers) = is_registered client_ip client_port servers
is_registered client_ip client_port (some info ∷ servers) =
    info.is_alive && str_eq info.client_ip client_ip && info.client_port == client_port
    || is_registered client_ip client_port servers

abbrev pub new_entry : ℕ → CText → ℕ → CText → ℕ → ℤ → StorageServerInfo
new_entry now ns_ip ns_port client_ip client_port sockfd = record {
  ns_ip = take (max_ip_length - 1) ns_ip;
  ns_port = ns_port;
  client_ip = take (max_ip_length - 1) client_ip;
  client_port = client_port;
  sockfd = sockfd;
  is_alive = true;
  last_heartbeat = now;
  total_bytes = pos 0;
  total_files = pos 0;
}

-- `none` is the return value -1.
unfoldable pub ns_register_storage_server : ℕ → CText → ℕ → CText → ℕ → ℤ → Servers → Option Servers
unfolding is_registered
ns_register_storage_server now ns_ip ns_port client_ip client_port sockfd servers =
    if leb ns_max_storage_servers (length servers)
    then none
    else if is_registered client_ip client_port servers
    then none
    else some (servers ++ some (new_entry now ns_ip ns_port client_ip client_port sockfd) ∷ [])

-- The place of the first entry with the socket.
unfoldable pub find_storage_server_by_sockfd : ℤ → ℕ → Servers → Option ℕ
unfolding int_eq
find_storage_server_by_sockfd sockfd i [] = none
find_storage_server_by_sockfd sockfd i (none ∷ servers) =
    find_storage_server_by_sockfd sockfd (i + 1) servers
find_storage_server_by_sockfd sockfd i (some info ∷ servers) =
    if int_eq info.sockfd sockfd
    then some i
    else find_storage_server_by_sockfd sockfd (i + 1) servers

-- The entry of a connection that has ended, at the end of `run_ss_loop`.
unfoldable pub switch_off : ℕ → Servers → Servers
switch_off place servers = elim (get_elem? servers place) [
  | none ↦ servers
  | some none ↦ servers
  | some (some info) ↦
      set servers place (some (record info { is_alive = false; sockfd = negsuc 0 }))
]

-- The entry at that place is given up, and the last one moves there.
unfoldable pub drop_entry : ℕ → Servers → Servers
drop_entry place servers =
    let last_index = length servers - 1 in
    take last_index
      (elim (get_elem? servers last_index) [ none ↦ servers | some last ↦ set servers place last ])

-- The loop at the end of `connection_thread`, for the entry that has the socket of the connection.
unfoldable pub deregister : ℤ → Servers → Servers
unfolding drop_entry
deregister conn_fd servers = elim (find_storage_server_by_sockfd conn_fd 0 servers) [
  | none ↦ servers
  | some place ↦ drop_entry place servers
]

-- What happens when the connection of a storage server ends.
unfoldable pub end_connection : ℤ → ℕ → Servers → Servers
end_connection conn_fd place servers = deregister conn_fd (switch_off place servers)

-- The number of files and of bytes that are on the server.
unfoldable pub load_of : StorageServerInfo → List FileMetadata → ℕ × ℕ
load_of ss [] = (0, 0)
load_of ss (meta ∷ files) =
    let (count, bytes) = load_of ss files in
    if meta.is_directory
    then (count, bytes)
    else if holds_file meta ss
    then (count + 1, bytes + pos_part meta.size)
    else (count, bytes)

unfoldable pub ns_recalculate_server_load_locked :
    List FileMetadata → StorageServerInfo → StorageServerInfo
unfolding load_of
ns_recalculate_server_load_locked files ss = record ss {
  total_files = pos (load_of ss files).0;
  total_bytes = pos (load_of ss files).1;
}

-- The first server that is alive and has the address of the file.
unfoldable pub alive_server : FileMetadata → ℕ → Servers → Option ℕ
alive_server file i [] = none
alive_server file i (none ∷ servers) = alive_server file (i + 1) servers
alive_server file i (some ss ∷ servers) =
    if ss.is_alive && holds_file file ss then some i else alive_server file (i + 1) servers

unfoldable pub is_valid_port : ℤ → Bool
is_valid_port (pos port) = ltb 0 port && leb port 65535
is_valid_port (negsuc port) = false

-- HELLO_SS. `is_valid_ip`, which asks `inet_pton`, is a parameter.
unfoldable pub handle_hello_ss :
    (CText → Bool) → ℕ → ℤ → NameServer → List CText → Reply × NameServer
unfolding is_valid_port read_int ns_register_storage_server
handle_hello_ss is_valid_ip now sockfd ns (_ ∷ ns_ip ∷ ns_port ∷ client_ip ∷ client_port ∷ _) =
    if not (
      is_valid_ip ns_ip
      && is_valid_port (read_int ns_port)
      && is_valid_ip client_ip
      && is_valid_port (read_int client_port))
    then (failed err_invalid_request (codes "Invalid storage server address info."), ns)
    else elim (ns_register_storage_server now ns_ip (pos_part (read_int ns_port)) client_ip
        (pos_part (read_int client_port)) sockfd ns.storage_servers) [
          | none ↦ (failed err_internal_error (codes "Failed to register storage server."), ns)
          | some servers ↦ (
            ok_reply (codes "SS registered. Awaiting file list."),
            record ns { storage_servers = servers },
          )
        ]
handle_hello_ss is_valid_ip now sockfd ns _ =
    (failed err_invalid_request (codes "Missing storage server parameters."), ns)
