-- ===== src/Acl.antt =====
-- Access lists: name_server/name_server.c (`file_acl_contains`, `file_acl_add`, `file_acl_remove`) and
-- storage_server/storage_server.c (`ss_acl_contains`, `ss_acl_add`, `ss_acl_remove`), which differ in the
-- capacity and in what they return. An array of names with its count is the list of the first `count`.
pub mod Laws
use distributed_documentatio.Base.{
  ℕ, CText, List, Bool, take, Option, ◌∷◌, strn_eq, false, ◌-◌, if◌then◌else◌, [], none, true, some,
  leb, not, length, ◌++◌,
}
use distributed_documentatio.Text.{safe_strcpy}

abbrev pub max_username_length : ℕ
max_username_length = 256

abbrev pub ns_max_clients : ℕ
ns_max_clients = 1000

abbrev pub ss_max_users_per_file : ℕ
ss_max_users_per_file = 128

abbrev pub Acl : Type 0
Acl = List CText

-- strncmp(entry, username, MAX_USERNAME_LENGTH) == 0
unfoldable pub same_user : CText → CText → Bool
same_user entry username = strn_eq max_username_length entry username

unfoldable pub acl_contains : Acl → CText → Bool
acl_contains [] username = false
acl_contains (e ∷ entries) username =
    if same_user e username then true else acl_contains entries username

-- What `safe_strcpy` stores in an entry.
unfoldable pub stored_name : CText → CText
stored_name username = take (max_username_length - 1) username

-- `none` is the return value -1.
unfoldable pub acl_add : ℕ → Acl → CText → Option Acl
unfolding stored_name acl_contains
acl_add capacity entries username =
    if acl_contains entries username
    then some entries
    else if leb capacity (length entries)
    then none
    else some (entries ++ stored_name username ∷ [])

last_entry : CText → Acl → CText
last_entry e [] = e
last_entry e (d ∷ entries) = last_entry d entries

but_last : CText → Acl → Acl
but_last e [] = []
but_last e (d ∷ entries) = e ∷ but_last d entries

-- The entries behind a removed one: the last of them moves to its place.
unfoldable pub fill_gap : Acl → Acl
unfolding last_entry but_last
fill_gap [] = []
fill_gap (e ∷ entries) = last_entry e entries ∷ but_last e entries

-- The entries after the removal of the first that matches; the flag is the return value.
unfoldable pub acl_remove : Acl → CText → Bool × Acl
acl_remove [] username = (false, [])
acl_remove (e ∷ entries) username =
    let (removed, rest) = acl_remove entries username in
    if same_user e username then (true, fill_gap entries) else (removed, e ∷ rest)

unfoldable pub file_acl_contains : Acl → CText → Bool
file_acl_contains = acl_contains

unfoldable pub file_acl_add : Acl → CText → Option Acl
file_acl_add = acl_add ns_max_clients

unfoldable pub file_acl_remove : Acl → CText → Bool × Acl
file_acl_remove = acl_remove

unfoldable pub ss_acl_contains : Acl → CText → Bool
ss_acl_contains = acl_contains

-- The flag is the return value 1 for a new entry, 0 for one that was there.
unfoldable pub ss_acl_add : Acl → CText → Option (Bool × Acl)
ss_acl_add entries username = elim (acl_add ss_max_users_per_file entries username) [
  | none ↦ none
  | some added ↦ some (not (acl_contains entries username), added)
]

unfoldable pub ss_acl_remove : Acl → CText → Bool × Acl
ss_acl_remove = acl_remove
