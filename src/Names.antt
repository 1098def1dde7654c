-- ===== src/Names.antt =====
-- common/utils.c: the checks of user names, file names and permissions, and `flatten_logical_path`.
pub mod Flatten
use distributed_documentatio.Text.{is_alnum}
use distributed_documentatio.Acl.{max_username_length}
use distributed_documentatio.NameServer.Index.{max_filename_length}
use distributed_documentatio.Base.{
  CText, ℕ, Bool, if◌then◌else◌, Option, all, length, ◌==◌, str_eq, leb, ◌||◌, codes, none, false,
  some, not, ◌∷◌, ◌+◌, [],
}

-- isalnum(c) || c == '_', for all of them.
unfoldable pub is_user_text : CText → Bool
is_user_text s = all (λ c. is_alnum c || c == b'_') s

unfoldable pub validate_username : CText → Bool
unfolding is_user_text
validate_username username =
    if length username == 0 || leb max_username_length (length username)
    then false
    else is_user_text username

-- strchr("<>:\"|?*", c)
unfoldable pub is_invalid : ℕ → Bool
is_invalid c =
    c == b'<' || c == b'>' || c == b':' || c == b'"' || c == b'|' || c == b'?' || c == b'*'

unfoldable pub validate_filename : CText → Bool
unfolding is_invalid
validate_filename filename =
    if length filename == 0 || leb max_filename_length (length filename)
    then false
    else all (λ c. not (is_invalid c)) filename

unfoldable pub validate_permission : CText → Bool
validate_permission permission = str_eq permission (codes "R") || str_eq permission (codes "W")

abbrev pub flat_byte : ℕ → ℕ
flat_byte ch = if ch == b'/' then b'_' else ch

-- The loop; `out_idx` bytes are written.
unfoldable pub flatten_loop : ℕ → ℕ → CText → Option CText
flatten_loop size out_idx [] = if leb size out_idx then none else some []
flatten_loop size out_idx (ch ∷ s) =
    let rest = flatten_loop size (out_idx + 1) s in
    if leb size (out_idx + 1)
    then none
    else elim rest [ none ↦ none | some t ↦ some (flat_byte ch ∷ t) ]

-- `none` is the return value -1.
unfoldable pub flatten_logical_path : ℕ → CText → Option CText
unfolding flatten_loop
flatten_logical_path size logical = if size == 0 then none else flatten_loop size 0 logical
