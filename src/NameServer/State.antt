-- ===== src/NameServer/State.antt =====
-- name_server/name_server.h: `AccessRequest`, `ClientInfo` and `NameServer`; a client's address is never set.
-- name_server/name_server.c: what the handlers of `run_client_loop` share: finding the storage server of a
-- file, and reading its response to a command. `Registry` has the files with their index and cache.
use distributed_documentatio.Protocol.{
  protocol_parse_message, protocol_is_error, protocol_get_error_code,
}
use distributed_documentatio.Protocol.Replies.{Reply, failed, passed_on, err_internal_error}
use distributed_documentatio.NameServer.Files.{FileMetadata}
use distributed_documentatio.NameServer.Registry.{Registry}
use distributed_documentatio.NameServer.Servers.{StorageServerInfo, Servers}
use distributed_documentatio.NameServer.Exchange.{Outcome, got, status}
use distributed_documentatio.Base.{
  ℕ, CText, Bool, List, strn_eq, Option, if◌then◌else◌, false, ◌&&◌, true, none, ◌==◌, ◌∷◌, some,
  ◌+◌, codes, str_eq, [],
}
use distributed_documentatio.Base.Int.{ℤ, pos, negsuc}

abbrev pub max_ip_length : ℕ
max_ip_length = 64

abbrev pub ns_max_files : ℕ
ns_max_files = 10000

abbrev pub ns_max_access_requests : ℕ
ns_max_access_requests = 1024

pub record AccessRequest : Type 0 where
  pub id : ℤ
  pub filename : CText
  pub from_user : CText
  pub to_user : CText
  pub grant_read : Bool
  pub grant_write : Bool
  pub is_pending : Bool

pub record ClientInfo : Type 0 where
  pub username : CText
  pub sockfd : ℤ
  pub is_connected : Bool

pub record NameServer : Type 0 where
  pub registry : Registry
  pub storage_servers : Servers
  pub ss_round_robin_index : ℕ
  pub clients : List ClientInfo
  pub access_requests : List AccessRequest
  pub next_request_id : ℕ

-- strncmp(candidate->client_ip, file->ss_ip, MAX_IP_LENGTH) == 0 && candidate->client_port == file->ss_port
unfoldable pub holds_file : FileMetadata → StorageServerInfo → Bool
holds_file file candidate =
    strn_eq max_ip_length candidate.client_ip file.ss_ip && candidate.client_port == file.ss_port

-- text[0] == '\0'
unfoldable pub is_empty : CText → Bool
is_empty [] = true
is_empty (_ ∷ _) = false

-- sockfd >= 0
unfoldable pub is_open : ℤ → Bool
is_open (pos n) = true
is_open (negsuc n) = false

-- The loop for a storage server that is alive, has a socket and passes the test; its place.
unfoldable pub server_place : (StorageServerInfo → Bool) → ℕ → Servers → Option ℕ
unfolding is_open
server_place test i [] = none
server_place test i (none ∷ servers) = server_place test (i + 1) servers
server_place test i (some candidate ∷ servers) =
    if candidate.is_alive && is_open candidate.sockfd && test candidate
    then some i
    else server_place test (i + 1) servers

-- What the status of `storage_server_send_and_wait` is reported as.
unfoldable pub status_detail : ℕ → CText
status_detail n =
    if n == 2
    then codes "Storage server unavailable."
    else if n == 3
    then codes "Failed to encode storage server command."
    else if n == 4
    then codes "Failed to send command to storage server."
    else if n == 5
    then codes "Storage server disconnected."
    else if n == 6
    then codes "Incomplete response from storage server."
    else codes "Storage server communication failure."

-- fields[2], or the general text
unfoldable pub error_detail : List CText → CText
error_detail (_ ∷ _ ∷ text ∷ _) = text
error_detail _ = codes "Storage server error."

-- fields[0] is the expected one
unfoldable pub answers_with : CText → List CText → Bool
answers_with expected [] = false
answers_with expected (f ∷ fs) = str_eq f expected

-- The error that a response is reported as, if it is not the expected one. A message has at least one field.
unfoldable pub response_error : CText → Outcome → Option Reply
unfolding status_detail error_detail answers_with protocol_parse_message protocol_is_error
    protocol_get_error_code
response_error expected (status n) = some (failed err_internal_error (status_detail n))
response_error expected (got m) =
    let fields = protocol_parse_message m.text in
    if protocol_is_error fields
    then some (passed_on (protocol_get_error_code fields) (error_detail fields))
    else if answers_with expected fields
    then none
    else some (failed err_internal_error (codes "Unexpected SS response."))
