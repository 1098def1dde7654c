-- ===== src/Protocol.antt =====
-- common/protocol.c: messages as texts of fields. An allocation always succeeds; the parsed message is
-- the list of its fields.
pub mod Fields
pub mod Stream
pub mod Replies
use distributed_documentatio.Text.Digits.{read_int}
use distributed_documentatio.Base.Int.{ℤ, negsuc}
use distributed_documentatio.Base.{
  ℕ, zero, suc, CText, Option, List, ◌∷◌, if◌then◌else◌, decimal, Bool, str_eq, none, [], ◌==◌,
  take, ◌++◌, codes, false, leb, some, ◌-◌, length, ltb,
}

abbrev pub max_message_size : ℕ
max_message_size = 65536

abbrev pub max_fields : ℕ
max_fields = 32

-- `strstr(current, "|")`: the text before the first '|', and the text after it if there is one.
unfoldable pub cut_field : CText → CText × Option CText
cut_field [] = ([], none)
cut_field (c ∷ s) =
    let (field, rest) = cut_field s in if c == b'|' then ([], some s) else (c ∷ field, rest)

-- The loop of `protocol_parse_message`, with `slots` fields still free.
unfoldable pub parse_fields : ℕ → CText → List CText
unfolding cut_field
parse_fields zero current = []
parse_fields (suc slots) current = elim (cut_field current).1 [
  | none ↦ (cut_field current).0 ∷ []
  | some [] ↦ (cut_field current).0 ∷ (if ltb 0 slots then [] ∷ [] else [])
  | some (c ∷ s) ↦ (cut_field current).0 ∷ parse_fields slots (c ∷ s)
]

-- The text without one '\n' at its end.
unfoldable pub strip_terminator : CText → CText
strip_terminator [] = []
strip_terminator (c ∷ []) = if c == 10 then [] else c ∷ []
strip_terminator (c ∷ d ∷ s) = c ∷ strip_terminator (d ∷ s)

unfoldable pub protocol_parse_message : CText → List CText
unfolding parse_fields strip_terminator
protocol_parse_message raw =
    parse_fields max_fields (strip_terminator (take (max_message_size - 1) raw))

-- The loop of `protocol_build_message`.
unfoldable pub join_fields : List CText → CText
join_fields [] = []
join_fields (f ∷ []) = f
join_fields (f ∷ g ∷ fs) = f ++ b'|' ∷ join_fields (g ∷ fs)

-- `none` is NULL.
unfoldable pub protocol_build_message : List CText → Option CText
unfolding join_fields
protocol_build_message [] = none
protocol_build_message (f ∷ fs) = some (join_fields (f ∷ fs) ++ 10 ∷ [])

-- The table `error_messages`, with the fallback of `protocol_get_error_message`.
unfoldable pub protocol_get_error_message : ℕ → CText
protocol_get_error_message code =
    if code == 101
    then codes "Username invalid or already connected."
    else if code == 102
    then codes "User not found."
    else if code == 400
    then codes "Invalid index or arguments."
    else if code == 403
    then codes "Permission denied."
    else if code == 404
    then codes "File not found."
    else if code == 409
    then codes "File already exists."
    else if code == 423
    then codes "Sentence is locked by another user."
    else if code == 500
    then codes "Internal server error."
    else if code == 501
    then codes "Disk error."
    else if code == 502
    then codes "No undo history available for this file."
    else if code == 503
    then codes "Failed to delete file from disk."
    else if code == 504
    then codes "Command execution failed on server."
    else codes "Unknown error."

-- The fields of an error; `none` for the text stands for NULL.
unfoldable pub error_fields : ℕ → Option CText → List CText
unfolding protocol_get_error_message decimal
error_fields code none = codes "ERR" ∷ decimal code ∷ protocol_get_error_message code ∷ []
error_fields code (some text) = codes "ERR" ∷ decimal code ∷ text ∷ []

unfoldable pub protocol_build_error : ℕ → Option CText → Option CText
unfolding error_fields protocol_build_message
protocol_build_error code text = protocol_build_message (error_fields code text)

unfoldable pub protocol_build_ok : Option CText → Option CText
unfolding protocol_build_message
protocol_build_ok none = protocol_build_message (codes "OK" ∷ [])
protocol_build_ok (some message) = protocol_build_message (codes "OK" ∷ message ∷ [])

last_is_newline : CText → Bool
last_is_newline [] = false
last_is_newline (c ∷ []) = c == 10
last_is_newline (c ∷ d ∷ s) = last_is_newline (d ∷ s)

unfoldable pub protocol_validate_message : CText → Bool
unfolding last_is_newline
protocol_validate_message message =
    if last_is_newline message then leb (length message) max_message_size else false

unfoldable pub protocol_is_error : List CText → Bool
unfolding str_eq
protocol_is_error [] = false
protocol_is_error (f ∷ fs) = str_eq f (codes "ERR")

-- The value of `atoi` is taken as it is; -1 stands for no code.
unfoldable pub protocol_get_error_code : List CText → ℤ
unfolding protocol_is_error
protocol_get_error_code [] = negsuc 0
protocol_get_error_code (f ∷ []) = negsuc 0
protocol_get_error_code (f ∷ code ∷ fs) =
    if protocol_is_error (f ∷ code ∷ fs) then read_int code else negsuc 0
