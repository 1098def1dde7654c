-- ===== src/NameServer/Clients.antt =====
-- name_server/name_server.c: the clients: `ns_register_client`, the greeting of a client and the end of its
-- connection in `connection_thread`, and LIST_USERS. A message with a text that is cut is cut at the end.
pub mod Sessions
use distributed_documentatio.NameServer.State.{NameServer, ClientInfo}
use distributed_documentatio.Acl.{max_username_length, ns_max_clients}
use distributed_documentatio.Names.{validate_username}
use distributed_documentatio.NameServer.Sharing.{ok_reply}
use distributed_documentatio.Protocol.Replies.{
  Reply, failed, answered, err_invalid_request, err_username_invalid, err_internal_error,
}
use distributed_documentatio.Base.{
  List, ◌∷◌, CText, Bool, if◌then◌else◌, take, Option, codes, str_eq, ◌-◌, none, not, ◌++◌, true,
  some, false, [], leb, length,
}
use distributed_documentatio.Base.Int.{ℤ, negsuc}

-- What the loop over the clients finds: nobody of that name, a client who is connected, or one who is not,
-- with the clients once he is connected again.
pub data Known : Type 0 where
  unknown : Known
  connected : Known
  reactivated : List ClientInfo → Known

abbrev pub behind : ClientInfo → Known → Known
behind c unknown = unknown
behind c connected = connected
behind c (reactivated clients) = reactivated (c ∷ clients)

unfoldable pub reactivate : CText → ℤ → List ClientInfo → Known
reactivate username sockfd [] = unknown
reactivate username sockfd (c ∷ clients) =
    let rest = behind c (reactivate username sockfd clients) in
    if str_eq c.username username
    then (if c.is_connected
        then connected
        else reactivated (record c { sockfd = sockfd; is_connected = true } ∷ clients))
    else rest

abbrev pub new_client : CText → ℤ → ClientInfo
new_client username sockfd = record {
  username = take (max_username_length - 1) username;
  sockfd = sockfd;
  is_connected = true;
}

-- `none` is the return value -1.
unfoldable pub ns_register_client : CText → ℤ → List ClientInfo → Option (List ClientInfo)
ns_register_client username sockfd clients = elim (reactivate username sockfd clients) [
  | connected ↦ none
  | reactivated again ↦ some again
  | unknown ↦
      if leb ns_max_clients (length clients)
      then none
      else some (clients ++ new_client username sockfd ∷ [])
]

-- HELLO_CLIENT
unfoldable pub handle_hello_client : ℤ → NameServer → List CText → Reply × NameServer
handle_hello_client sockfd ns (_ ∷ username ∷ _) =
    if not (validate_username username)
    then (failed err_username_invalid (codes "Username invalid or already connected."), ns)
    else elim (ns_register_client username sockfd ns.clients) [
      | none ↦ (failed err_internal_error (codes "Failed to register client."), ns)
      | some clients ↦
          (ok_reply (codes "Welcome, " ++ (username ++ codes ".")), record ns { clients = clients })
    ]
handle_hello_client sockfd ns _ = (failed err_invalid_request (codes "Missing username."), ns)

-- The end of a client's connection.
unfoldable pub disconnect_client : CText → List ClientInfo → List ClientInfo
disconnect_client username [] = []
disconnect_client username (c ∷ clients) =
    let rest = c ∷ disconnect_client username clients in
    if str_eq c.username username
    then record c { is_connected = false; sockfd = negsuc 0 } ∷ clients
    else rest

abbrev pub status_text : Bool → CText
status_text online = if online then codes "Online" else codes "Offline"

unfoldable pub user_lines : List ClientInfo → List (List CText)
user_lines [] = (codes "OK_LIST_END" ∷ []) ∷ []
user_lines (c ∷ clients) =
    (codes "OK_LIST"
      ∷ (c.username ++ (codes " [" ++ (status_text c.is_connected ++ codes "]")))
      ∷ [])
    ∷ user_lines clients

unfoldable pub handle_list_users : NameServer → Reply × NameServer
unfolding user_lines
handle_list_users ns = (answered (user_lines ns.clients), ns)
