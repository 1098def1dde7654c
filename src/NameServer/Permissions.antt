-- ===== src/NameServer/Permissions.antt =====
-- name_server/name_server.c: `parse_permission_flags`, which reads the permission of a request.
pub mod Grants
use distributed_documentatio.Base.{
  ℕ, CText, Bool, Option, some, none, true, false, map, str_eq, codes, leb, ◌&&◌, ◌||◌, ◌+◌,
  if◌then◌else◌,
}

-- tolower
unfoldable pub to_lower : ℕ → ℕ
to_lower c = if leb b'A' c && leb c b'Z' then c + 32 else c

-- strcasecmp(a, b) == 0
unfoldable pub equals_ignoring_case : CText → CText → Bool
equals_ignoring_case a b = str_eq (map to_lower a) (map to_lower b)

-- The flags to read and to write; `none` is the return value -1.
unfoldable pub parse_permission_flags : CText → Option (Bool × Bool)
unfolding equals_ignoring_case
parse_permission_flags perm =
    if equals_ignoring_case perm (codes "R") || equals_ignoring_case perm (codes "READ")
    then some (true, false)
    else if equals_ignoring_case perm (codes "W") || equals_ignoring_case perm (codes "WRITE")
    then some (false, true)
    else if equals_ignoring_case perm (codes "RW")
        || equals_ignoring_case perm (codes "WR")
        || equals_ignoring_case perm (codes "READWRITE")
        || equals_ignoring_case perm (codes "WRITEREAD")
    then some (true, true)
    else none
