-- ===== src/NameServer/Servers.antt =====
-- name_server/name_server.h: `StorageServerInfo` without the fields for a command that is under way;
-- name_server/name_server.c: `ns_select_storage_server_balanced`. The array of pointers is a list, with `none` for
-- NULL.
pub mod Loads
pub mod Balanced
pub mod Selected
use distributed_documentatio.Base.{
  CText, List, ℕ, Bool, Option, get_elem?, ltb, some, suc, if◌then◌else◌, ◌||◌, ◌+◌, length, none,
  ◌==◌, ◌%◌, ◌&&◌, set, zero,
}
use distributed_documentatio.Base.Int.{pos, ℤ, pos_part}

pub record StorageServerInfo : Type 0 where
  pub ns_ip : CText
  pub ns_port : ℕ
  pub client_ip : CText
  pub client_port : ℕ
  pub sockfd : ℤ
  pub is_alive : Bool
  pub last_heartbeat : ℕ
  pub total_bytes : ℤ
  pub total_files : ℤ

abbrev pub Servers : Type 0
Servers = List (Option StorageServerInfo)

-- The candidate at that place, if there is one and it is alive.
unfoldable pub alive_at : Servers → ℕ → Option StorageServerInfo
alive_at servers idx = elim (get_elem? servers idx) [
  | none ↦ none
  | some none ↦ none
  | some (some candidate) ↦ if candidate.is_alive then some candidate else none
]

-- Negative totals are made 0.
unfoldable pub clamp_totals : StorageServerInfo → StorageServerInfo
clamp_totals s = record s {
  total_files = pos (pos_part s.total_files);
  total_bytes = pos (pos_part s.total_bytes);
}

-- The totals are not negative here.
unfoldable pub lighter : StorageServerInfo → StorageServerInfo → Bool
lighter candidate best =
    ltb (pos_part candidate.total_bytes) (pos_part best.total_bytes)
    || pos_part candidate.total_bytes == pos_part best.total_bytes
      && ltb (pos_part candidate.total_files) (pos_part best.total_files)

-- The best of the candidates so far, with its place.
unfoldable pub better :
    Option (ℕ × StorageServerInfo) → ℕ → StorageServerInfo → Option (ℕ × StorageServerInfo)
better none idx candidate = some (idx, candidate)
better (some (i, best)) idx candidate =
    if lighter candidate best then some (idx, candidate) else some (i, best)

-- The loop from `offset` on, with so many rounds to go.
unfoldable pub select_loop :
    ℕ → ℕ → ℕ → Servers → Option (ℕ × StorageServerInfo) → Servers × Option (ℕ × StorageServerInfo)
select_loop zero start offset servers best = (servers, best)
select_loop (suc rounds) start offset servers best =
    let idx = (start + offset) % length servers in
    elim (alive_at servers idx) [
      | none ↦ select_loop rounds start (offset + 1) servers best
      | some candidate ↦
          select_loop rounds start (offset + 1) (set servers idx (some (clamp_totals candidate)))
            (better best idx (clamp_totals candidate))
    ]

-- The place of the server that is returned, the servers, and the round-robin index.
unfoldable pub ns_select_storage_server_balanced : Servers → ℕ → Option ℕ × Servers × ℕ
unfolding select_loop
ns_select_storage_server_balanced servers ss_round_robin_index =
    if length servers == 0
    then (none, servers, ss_round_robin_index)
    else (let (cleaned, best) = select_loop (length servers) ss_round_robin_index 0 servers none in
        elim best [
          | none ↦ (none, cleaned, ss_round_robin_index)
          | some (i, _) ↦ (some i, cleaned, (i + 1) % length servers)
        ])
