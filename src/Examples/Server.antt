-- ===== src/Examples/Server.antt =====
-- A name server with one file, for the runs of its requests.
use distributed_documentatio.Base.{
  CText, ℕ, codes, [], List, false, true, ◌∷◌, arith, none, refl, some,
}
use distributed_documentatio.NameServer.Servers.{StorageServerInfo}
use distributed_documentatio.NameServer.Files.{FileMetadata}
use distributed_documentatio.NameServer.Cache.{CacheEntry}
use distributed_documentatio.NameServer.Registry.{Registry, register_file}
use distributed_documentatio.NameServer.Index.Chains.{is_chain}
use distributed_documentatio.NameServer.Index.{file_index_find, find_node}
use distributed_documentatio.Acl.Laws.{is_distinct}
use distributed_documentatio.NameServer.Exchange.{Outcome, status, got}
use distributed_documentatio.NameServer.Registry.Consistent.{IsConsistent}
use distributed_documentatio.Acl.{acl_contains}
use distributed_documentatio.Base.Int.{pos}
use distributed_documentatio.NameServer.Registry.Register.{register-IsConsistent}
use distributed_documentatio.NameServer.Files.Access.{IsShared}
use distributed_documentatio.NameServer.State.{AccessRequest, NameServer}

-- A storage server that is alive, and a file on it.
abbrev pub server : StorageServerInfo
server = record {
  ns_ip = codes "10.0.0.1";
  ns_port = 8000;
  client_ip = codes "10.0.0.1";
  client_port = 9000;
  sockfd = pos 5;
  is_alive = true;
  last_heartbeat = 1;
  total_files = pos 1;
  total_bytes = pos 20;
}

abbrev pub file : FileMetadata
file = record {
  filename = codes "a";
  owner = codes "ann";
  ss_ip = codes "10.0.0.1";
  ss_port = 9000;
  size = pos 20;
  word_count = pos 4;
  char_count = pos 20;
  is_directory = false;
  created = 1;
  modified = 1;
  last_access = 1;
  last_access_user = codes "ann";
  last_modified_user = codes "ann";
  read_access_users = codes "bob" ∷ [];
  write_access_users = codes "bob" ∷ [];
}

abbrev pub no_entry : CacheEntry
no_entry = record { filename = []; file_array_index = 0; valid = false; last_used = 0 }

abbrev pub empty : Registry
empty = record { files = []; index = λ _. []; cache = no_entry ∷ []; cache_tick = 0 }

empty-IsConsistent : IsConsistent empty
unfolding is_chain
empty-IsConsistent = record {
  chains = record { distinct = λ _. refl };
  found = λ k i h. absurd (unfold file_index_find find_node in ground arith);
  listed = λ i f h. absurd (ground arith);
  named = λ i f h. absurd (ground arith);
  cached = (λ v. absurd (ground arith), tt);
}

abbrev pub one_file : Registry
one_file = register_file empty file

pub one_file-IsConsistent : IsConsistent one_file
unfolding file_index_find find_node
one_file-IsConsistent =
    register-IsConsistent empty empty-IsConsistent file refl (omega arith) (omega arith)

pub file-IsShared : IsShared file
unfolding is_distinct acl_contains
file-IsShared = record {
  readers_once = refl;
  writers_once = refl;
  readers_fit = omega arith;
  writers_fit = omega arith;
}

-- A name server with these files and the requests.
abbrev pub name_server : Registry → List AccessRequest → NameServer
name_server registry requests = record {
  registry = registry;
  storage_servers = some server ∷ [];
  ss_round_robin_index = 0;
  clients = [];
  access_requests = requests;
  next_request_id = 2;
}

-- A storage server that does not answer, and one that gives an answer to every command.
abbrev pub silent : ℕ → List CText → Outcome
silent place fields = status 5

abbrev pub says : CText → ℕ → List CText → Outcome
says text place fields = got (record { origin = none; text = text })
