-- ===== src/NameServer/Paths.antt =====
-- name_server/name_server.c: logical paths.
pub mod Tree
use distributed_documentatio.Text.{safe_strcpy}
use distributed_documentatio.Names.{validate_filename}
use distributed_documentatio.Base.{
  ℕ, CText, Option, Bool, List, ◌∷◌, none, some, true, false, if◌then◌else◌, str_eq, [], ◌==◌, ltb,
  codes, not, length, ◌&&◌, ◌||◌, ◌+◌, all,
}

abbrev pub slash : ℕ
slash = 47

-- What is before the last slash and what is behind it.
unfoldable pub at_last_slash : CText → Option (CText × CText)
at_last_slash [] = none
at_last_slash (c ∷ s) = elim (at_last_slash s) [
  | some (parent, child) ↦ some (c ∷ parent, child)
  | none ↦ if c == slash then some ([], s) else none
]

unfoldable pub ns_split_parent_child : ℕ → ℕ → CText → Option (CText × CText)
unfolding at_last_slash
ns_split_parent_child parent_size child_size path = elim (at_last_slash path) [
  | none ↦ elim (safe_strcpy parent_size []) [
    | none ↦ none
    | some parent ↦ elim (safe_strcpy child_size path) [
      | none ↦ none
      | some child ↦ some (parent, child)
    ]
  ]
  | some (parent, behind) ↦
      if ltb parent_size (length parent + 1)
      then none
      else elim (safe_strcpy child_size behind) [ none ↦ none | some child ↦ some (parent, child) ]
]

-- What is left of the candidate behind the ancestor, if it starts with it.
unfoldable pub behind_prefix : CText → CText → Option CText
behind_prefix candidate [] = some candidate
behind_prefix [] (a ∷ ancestor) = none
behind_prefix (c ∷ candidate) (a ∷ ancestor) =
    if c == a then behind_prefix candidate ancestor else none

-- candidate[prefix_len]: the end of the text, or a slash.
unfoldable pub ends_segment : CText → Bool
ends_segment [] = true
ends_segment (c ∷ s) = c == slash

unfoldable pub ns_is_descendant_path : CText → CText → Bool
unfolding behind_prefix ends_segment
ns_is_descendant_path candidate [] = true
ns_is_descendant_path candidate (a ∷ ancestor) = elim (behind_prefix candidate (a ∷ ancestor)) [
  | none ↦ false
  | some rest ↦ ends_segment rest
]

-- strstr(path, "//")
unfoldable pub has_empty_segment : CText → Bool
has_empty_segment [] = false
has_empty_segment (c ∷ []) = false
has_empty_segment (c ∷ d ∷ s) = c == slash && d == slash || has_empty_segment (d ∷ s)

-- The first segment with another byte in front.
unfoldable pub onto_segment : ℕ → List CText → List CText
onto_segment c [] = (c ∷ []) ∷ []
onto_segment c (w ∷ ws) = (c ∷ w) ∷ ws

-- The segments that `strtok_r` gives, and the empty ones, which it passes over.
unfoldable pub segments : CText → List CText
unfolding onto_segment
segments [] = [] ∷ []
segments (c ∷ s) = if c == slash then [] ∷ segments s else onto_segment c (segments s)

unfoldable pub is_dots : CText → Bool
is_dots segment = str_eq segment (codes ".") || str_eq segment (codes "..")

abbrev pub first_byte : CText → ℕ
first_byte [] = 0
first_byte (c ∷ s) = c

abbrev final_byte : CText → ℕ
final_byte [] = 0
final_byte (c ∷ []) = c
final_byte (c ∷ d ∷ s) = final_byte (d ∷ s)

unfoldable pub ns_validate_logical_path : CText → Bool
unfolding has_empty_segment segments is_dots
ns_validate_logical_path path =
    if not (validate_filename path)
    then false
    else if first_byte path == slash || final_byte path == slash
    then false
    else if has_empty_segment path
    then false
    else all (λ segment. not (is_dots segment)) (segments path)

unfoldable pub ns_normalize_destination : ℕ → CText → Option CText
ns_normalize_destination size input =
    if str_eq input (codes ".") || str_eq input (codes "/")
    then if ltb 0 size then some [] else none
    else if ns_validate_logical_path input
    then safe_strcpy size input
    else none
