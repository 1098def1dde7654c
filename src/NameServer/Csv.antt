-- ===== src/NameServer/Csv.antt =====
-- name_server/name_server.c: an access list as text: `file_acl_parse_csv`, and the loops of `ns_save_metadata`
-- that print a list.
pub mod Trip
use distributed_documentatio.Acl.{Acl, file_acl_add}
use distributed_documentatio.Names.{validate_username}
use distributed_documentatio.Text.{trim_string}
use distributed_documentatio.NameServer.Sharing.{max_field_size}
use distributed_documentatio.Base.{
  ℕ, CText, List, ◌∷◌, [], if◌then◌else◌, not, take, ◌++◌, ◌==◌, ◌-◌, ◌&&◌, false, none, some, true,
}
use distributed_documentatio.NameServer.State.{is_empty}

abbrev pub put_front : ℕ → List CText → List CText
put_front c [] = (c ∷ []) ∷ []
put_front c (piece ∷ pieces) = (c ∷ piece) ∷ pieces

-- The text between the commas.
unfoldable pub split_commas : CText → List CText
split_commas [] = [] ∷ []
split_commas (c ∷ s) =
    let rest = split_commas s in if c == b',' then [] ∷ rest else put_front c rest

-- The loop over the tokens; `strtok` has no empty ones.
unfoldable pub add_tokens : Acl → List CText → Acl
add_tokens entries [] = entries
add_tokens entries (token ∷ tokens) =
    let name = trim_string token in
    elim (not (is_empty name) && validate_username name) [
      | false ↦ add_tokens entries tokens
      | true ↦ elim (file_acl_add entries name) [
        | none ↦ entries
        | some more ↦ add_tokens more tokens
      ]
    ]

unfoldable pub file_acl_parse_csv : CText → Acl
unfolding split_commas add_tokens
file_acl_parse_csv csv = add_tokens [] (split_commas (take (max_field_size - 1) csv))

-- The names with commas between them.
unfoldable pub join_commas : Acl → CText
join_commas [] = []
join_commas (u ∷ []) = u
join_commas (u ∷ v ∷ us) = u ++ b',' ∷ join_commas (v ∷ us)
