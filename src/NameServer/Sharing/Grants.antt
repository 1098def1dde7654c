-- ===== src/NameServer/Sharing/Grants.antt =====
-- The steps of a change of rights: its reply, and where the file is put.
use distributed_documentatio.NameServer.Sharing.{Bool, tell_server, put_file}
use distributed_documentatio.Protocol.Replies.{Reply, failed, passed_on, answered}
use distributed_documentatio.Base.{
  Bool, false, true, ℕ, CText, List, get_elem?, ◌≡◌, some, arith, get_elem?-set, get_elem?-inside,
  inl, inr, Option-cases,
}
use distributed_documentatio.NameServer.Files.{FileMetadata, file_add_access}
use distributed_documentatio.NameServer.State.{response_error, NameServer, server_place, holds_file}
use distributed_documentatio.NameServer.Exchange.{Outcome, status, got}

-- The reply that a request was carried out.
unfoldable pub is_answered : Reply → Bool
is_answered (failed code text) = false
is_answered (passed_on code text) = false
is_answered (answered messages) = true

pub response_error-fails :
    (expected : CText) (o : Outcome) (e : Reply)
    → response_error expected o ≡ some e
    → is_answered e ≡ false
unfolding response_error is_answered
response_error-fails expected (status n) e h = ground arith
response_error-fails expected (got m) e h = ground arith

-- What stands for a failure of the storage server is no success.
pub tell_server-fails :
    (ask : ℕ → List CText → Outcome) (ns : NameServer) (file : FileMetadata) (expected : CText)
    (fields : List CText) (e : Reply)
    → tell_server ask ns file expected fields ≡ some e
    → is_answered e ≡ false
unfolding tell_server is_answered
tell_server-fails ask ns file expected fields e h =
    elim (Option-cases (server_place (holds_file file) 0 ns.storage_servers)) [
      | inl none_found ↦ ground (arith, none_found)
      | inr (s, found) ↦ ground (arith, found, response_error-fails expected (ask s fields) e)
    ]

pub owner-add :
    (file : FileMetadata) (u : CText) (r w : Bool)
    → (file_add_access file u r w).1.owner ≡ file.owner
unfolding file_add_access
owner-add file u r w = ground arith

pub get-put_file :
    (ns : NameServer) (place : ℕ) (old new : FileMetadata)
    → get_elem? ns.registry.files place ≡ some old
    → get_elem? (put_file ns place new).registry.files place ≡ some new
unfolding put_file
get-put_file ns place old new h = ground (
  arith,
  get_elem?-set ns.registry.files place new place (get_elem?-inside ns.registry.files place old h),
)
