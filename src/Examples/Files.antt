-- ===== src/Examples/Files.antt =====
-- name_server/: the files and who may use them.
use distributed_documentatio.Base.{
  codes, ◌∷◌, String, arith, ◌≡◌, true, [], CText, Bool, some, ℕ, refl, false, str_eq, take,
}
use distributed_documentatio.Base.Int.{pos}
use distributed_documentatio.Acl.{acl_contains}
use distributed_documentatio.Acl.Laws.{is_distinct}
use distributed_documentatio.NameServer.Index.{
  find_node, file_index_find, find_node, file_index_insert, bucket_of, stored_filename,
}
use distributed_documentatio.NameServer.Cache.{CacheEntry}
use distributed_documentatio.NameServer.Files.{FileMetadata}
use distributed_documentatio.NameServer.Files.Access.{IsShared}
use distributed_documentatio.NameServer.Registry.{
  Registry, file_lookup_locked, remove_file_metadata_locked, register_file,
}
use distributed_documentatio.NameServer.Registry.Consistent.{IsConsistent, lookup_exact}
use distributed_documentatio.NameServer.Registry.Names.{file_named, remove_file_exact}
use distributed_documentatio.NameServer.Registry.Keeps.{remove-IsConsistent}
use distributed_documentatio.NameServer.Registry.Register.{register_exact, register-IsConsistent}
use distributed_documentatio.NameServer.Servers.{
  StorageServerInfo, Servers, ns_select_storage_server_balanced, alive_at, better, lighter,
  clamp_totals,
}
use distributed_documentatio.NameServer.Servers.Loads.{load, less}
use distributed_documentatio.NameServer.Servers.Balanced.{balanced}
use distributed_documentatio.NameServer.Index.Chains.{is_chain}

abbrev file_of : String → FileMetadata
file_of name = record {
  filename = codes name;
  owner = codes "ann";
  ss_ip = codes "10.0.0.1";
  ss_port = 9000;
  size = pos 0;
  word_count = pos 0;
  char_count = pos 0;
  is_directory = false;
  created = 1;
  modified = 1;
  last_access = 1;
  last_access_user = codes "ann";
  last_modified_user = codes "ann";
  read_access_users = codes "bob" ∷ [];
  write_access_users = codes "bob" ∷ [];
}

file-IsShared : IsShared (file_of "a")
unfolding is_distinct acl_contains
file-IsShared = record {
  readers_once = refl;
  writers_once = refl;
  readers_fit = omega arith;
  writers_fit = omega arith;
}

abbrev no_entry : CacheEntry
no_entry = record { filename = []; file_array_index = 0; valid = false; last_used = 0 }

abbrev empty : Registry
empty = record { files = []; index = λ _. []; cache = no_entry ∷ no_entry ∷ []; cache_tick = 0 }

empty-IsConsistent : IsConsistent empty
unfolding is_chain
empty-IsConsistent = record {
  chains = record { distinct = λ _. refl };
  found = λ k i h. absurd (unfold file_index_find find_node in ground arith);
  listed = λ i f h. absurd (ground arith);
  named = λ i f h. absurd (ground arith);
  cached = (λ v. absurd (ground arith), (λ v. absurd (ground arith), tt));
}

abbrev one : Registry
one = register_file empty (file_of "a")

one-IsConsistent : IsConsistent one
unfolding file_index_find find_node
one-IsConsistent =
    register-IsConsistent empty empty-IsConsistent (file_of "a") refl (omega arith) (omega arith)

abbrev two : Registry
two = register_file one (file_of "b")

register-IsConsistent_example : IsConsistent two
unfolding file_index_find find_node register_file file_index_insert bucket_of
register-IsConsistent_example =
    register-IsConsistent one one-IsConsistent (file_of "b") refl (omega arith) (omega arith)

two-IsConsistent : IsConsistent two
unfolding file_index_find find_node register_file file_index_insert bucket_of
two-IsConsistent =
    register-IsConsistent one one-IsConsistent (file_of "b") refl (omega arith) (omega arith)

register_exact_example : file_named two (codes "b") ≡ some (file_of "b")
unfolding file_index_find find_node register_file file_index_insert bucket_of str_eq
register_exact_example =
    register_exact one one-IsConsistent (file_of "b") refl (omega arith) (omega arith) (codes "b")

lookup_exact_example : (file_lookup_locked two (codes "b")).0 ≡ some 1
unfolding file_index_find find_node register_file file_index_insert bucket_of str_eq stored_filename
    take
lookup_exact_example = lookup_exact two (codes "b") two-IsConsistent

remove_file_exact_example :
    file_named (remove_file_metadata_locked two (codes "a")).1 (codes "b")
    ≡ file_named two (codes "b")
unfolding file_index_find str_eq
remove_file_exact_example = remove_file_exact two (codes "a") (codes "b") two-IsConsistent

remove-IsConsistent_example : IsConsistent (remove_file_metadata_locked two (codes "a")).1
remove-IsConsistent_example = remove-IsConsistent two (codes "a") two-IsConsistent

abbrev cached : CText → ℕ → ℕ → CacheEntry
cached name place used = record {
  filename = name;
  file_array_index = place;
  valid = true;
  last_used = used;
}

-- A server that holds so many bytes.
abbrev server_of : Bool → ℕ → StorageServerInfo
server_of alive bytes = record {
  ns_ip = codes "10.0.0.1";
  ns_port = 8000;
  client_ip = codes "10.0.0.1";
  client_port = 9000;
  sockfd = pos 5;
  is_alive = alive;
  last_heartbeat = 1;
  total_files = pos 1;
  total_bytes = pos bytes;
}

abbrev three : Servers
three = some (server_of true 50) ∷ some (server_of false 0) ∷ some (server_of true 20) ∷ []

balanced_example :
    (k : ℕ × ℕ) × (load three 2 ≡ some k)
    × ((j : ℕ) (other : ℕ × ℕ) → load three j ≡ some other → less other k ≡ false)
unfolding ns_select_storage_server_balanced alive_at better lighter clamp_totals
balanced_example = balanced three 1 2 refl
