-- ===== src/NameServer/Metadata/Entry.antt =====
-- The line of a file is read as its metadata.
use distributed_documentatio.Base.{
  CText, ◌≡◌, all, str_eq, [], true, Bool, ◌⊎◌, ◌∷◌, not, arith, inl, codes, length, take_all, inr,
  false, ◌<◌, refl, Bool-cases, ◌-◌, str_eq_sound,
}
use distributed_documentatio.Names.{is_user_text, validate_username, validate_filename, is_invalid}
use distributed_documentatio.Protocol.Fields.{is_plain, parse-join_fields}
use distributed_documentatio.NameServer.Metadata.{
  loaded_user, entry_fields, load_entry, legacy_entry, part, flag_text,
}
use distributed_documentatio.NameServer.Files.{FileMetadata}
use distributed_documentatio.Text.Digits.{read_int, read_digits, read_sign, is_digit, signed}
use distributed_documentatio.Text.{is_alnum, skip_spaces, is_space}
use distributed_documentatio.NameServer.Info.{or_none}
use distributed_documentatio.Protocol.{parse_fields, join_fields}
use distributed_documentatio.NameServer.Index.{max_filename_length}
use distributed_documentatio.Acl.{max_username_length}
use distributed_documentatio.NameServer.Csv.Trip.{valid_name}
use distributed_documentatio.NameServer.Metadata.Numbers.{
  decimal-is_plain, int_text-is_plain, read_int-decimal, read_int-int_text,
}
use distributed_documentatio.NameServer.State.{max_ip_length}
use distributed_documentatio.NameServer.Creation.Files.{valid_filename}
use distributed_documentatio.Base.Int.{int_eq, pos}

-- The user of an access: a valid name, or nobody.
abbrev pub IsUser : CText → Type 0
IsUser u = (u ≡ []) ⊎ (validate_username u ≡ true)

user_text-is_plain : (u : CText) → is_user_text u ≡ true → is_plain u ≡ true
unfolding is_user_text is_plain all is_alnum
user_text-is_plain [] h = refl
user_text-is_plain (c ∷ u) h = ground (arith, user_text-is_plain u)

filename-is_plain : (s : CText) → all (λ c. not (is_invalid c)) s ≡ true → is_plain s ≡ true
unfolding is_plain all is_invalid
filename-is_plain [] h = refl
filename-is_plain (c ∷ s) h = ground (arith, filename-is_plain s)

pub or_none-valid : (u : CText) → validate_username u ≡ true → or_none u ≡ u
unfolding validate_username
or_none-valid [] h = absurd (ground arith)
or_none-valid (c ∷ u) h = refl

or_none-is_plain : (u : CText) → IsUser u → is_plain (or_none u) ≡ true
unfolding is_plain all
or_none-is_plain u (inl nobody) = rw nobody refl
or_none-is_plain u (inr valid) =
    rw (or_none-valid u valid) (user_text-is_plain u (valid_name u valid).0)

not_none : (u : CText) → validate_username u ≡ true → str_eq u (codes "N/A") ≡ false
unfolding validate_username is_user_text is_alnum all
not_none u valid = elim (Bool-cases (str_eq u (codes "N/A"))) [
  | inr other ↦ other
  | inl e ↦
      let same : u ≡ codes "N/A" = str_eq_sound u (codes "N/A") e in
      let clash : false ≡ true = rw same at valid in absurd (ground arith)
]

loaded_user-or_none : (u : CText) → IsUser u → loaded_user (or_none u) ≡ u
unfolding loaded_user str_eq
loaded_user-or_none u (inl nobody) = rw nobody refl
loaded_user-or_none u (inr valid) =
    let (_, _, short) = valid_name u valid in
    rw (or_none-valid u valid, loaded_user, not_none u valid)
      (take_all (max_username_length - 1) u (omega (arith, short)))

-- Metadata that fits its arrays and its line.
pub record IsSaved (f : FileMetadata) : Type 0 where
  pub name : validate_filename f.filename ≡ true
  pub owner : (is_plain f.owner ≡ true) × (length f.owner < max_username_length)
  pub ip : (is_plain f.ss_ip ≡ true) × (length f.ss_ip < max_ip_length)
  pub accessed : IsUser f.last_access_user
  pub modified : IsUser f.last_modified_user

flag-back : (b : Bool) → not (int_eq (read_int (flag_text b)) (pos 0)) ≡ b
unfolding read_int read_digits read_sign skip_spaces is_space is_digit signed int_eq
flag-back true = refl
flag-back false = refl

flag-is_plain : (b : Bool) → is_plain (flag_text b) ≡ true
unfolding is_plain all
flag-is_plain true = refl
flag-is_plain false = refl

valid-is_plain : (s : CText) → validate_filename s ≡ true → is_plain s ≡ true
unfolding validate_filename
valid-is_plain s h = filename-is_plain s (ground arith)

-- What the line is parsed into.
pub parse-entry_fields :
    (f : FileMetadata) → IsSaved f → parse_fields 13 (join_fields (entry_fields f)) ≡ entry_fields f
unfolding entry_fields all
parse-entry_fields f v =
    parse-join_fields 13 f.filename _
      (ground (
        arith,
        valid-is_plain f.filename v.name,
        v.owner.0,
        v.ip.0,
        decimal-is_plain f.ss_port,
        int_text-is_plain f.size,
        int_text-is_plain f.word_count,
        int_text-is_plain f.char_count,
        decimal-is_plain f.created,
        decimal-is_plain f.modified,
        decimal-is_plain f.last_access,
        flag-is_plain f.is_directory,
        or_none-is_plain f.last_access_user v.accessed,
        or_none-is_plain f.last_modified_user v.modified,
      ))
      (omega arith)

-- The fields that a file is saved as are read as its metadata, with the lists still to come.
pub load-entry_fields :
    (f : FileMetadata)
    → IsSaved f
    → load_entry (entry_fields f) ≡ record f { read_access_users = []; write_access_users = [] }
unfolding load_entry legacy_entry entry_fields part
load-entry_fields f v =
    rw
      (
        take_all (max_filename_length - 1) f.filename
            (omega (arith, (valid_filename f.filename v.name).1)),
        take_all (max_username_length - 1) f.owner (omega (arith, v.owner.1)),
        take_all (max_ip_length - 1) f.ss_ip (omega (arith, v.ip.1)),
        read_int-decimal f.ss_port,
        read_int-int_text f.size,
        read_int-int_text f.word_count,
        read_int-int_text f.char_count,
        read_int-decimal f.created,
        read_int-decimal f.modified,
        read_int-decimal f.last_access,
        flag-back f.is_directory,
        loaded_user-or_none f.last_access_user v.accessed,
        loaded_user-or_none f.last_modified_user v.modified,
      )
      refl
