-- ===== src/NameServer/Metadata/Trip.antt =====
-- Metadata that is saved is loaded again.
use distributed_documentatio.Acl.{Acl, ns_max_clients}
use distributed_documentatio.NameServer.Files.{FileMetadata}
use distributed_documentatio.Names.{is_user_text, validate_filename}
use distributed_documentatio.Protocol.Stream.Framing.{no_newline}
use distributed_documentatio.NameServer.Csv.{join_commas, file_acl_parse_csv}
use distributed_documentatio.Text.{is_space, is_alnum, trim_string}
use distributed_documentatio.NameServer.Metadata.{
  entry_fields, load_line, load_file, load_access, Loading, line_size, part, flag_text,
}
use distributed_documentatio.Base.{
  all, CText, [], ℕ, ◌≡◌, true, ◌<◌, false, length, ◌∷◌, List, ◌++◌, ◌≤◌, ◌+◌, arith, inl, codes,
  inr, refl, decimal, ◌∙◌, ap, none, subst, sym,
}
use distributed_documentatio.NameServer.Csv.Trip.{
  AreNames, valid_name, parse-join_commas, ends-name,
}
use distributed_documentatio.NameServer.Metadata.Entry.{
  IsSaved, IsUser, parse-entry_fields, load-entry_fields, or_none-valid,
}
use distributed_documentatio.Protocol.{join_fields}
use distributed_documentatio.NameServer.Paths.{behind_prefix}
use distributed_documentatio.Acl.Laws.{is_distinct}
use distributed_documentatio.Text.Trim.{EndsInk, trim-ink}
use distributed_documentatio.NameServer.Info.{or_none}
use distributed_documentatio.NameServer.State.{is_empty}
use distributed_documentatio.NameServer.Index.{FileIndex, file_index_insert}
use distributed_documentatio.NameServer.Metadata.Lines.{
  join_fields-EndsInk, with_last, list-EndsInk, EndsInk-append, change-with_last,
}
use distributed_documentatio.NameServer.Sharing.{max_field_size}
use distributed_documentatio.Text.Digits.{int_text}

-- An access list that is read again from its line.
pub record IsListed (us : Acl) : Type 0 where
  pub names : AreNames us
  pub once : is_distinct us ≡ true
  pub fit : length us ≤ ns_max_clients
  pub short : length (join_commas us) < max_field_size

-- Metadata that is read again from its three lines: they fit the buffer, and have no newline.
pub record IsStored (f : FileMetadata) : Type 0 where
  pub saved : IsSaved f
  pub one_line : no_newline (join_fields (entry_fields f)) ≡ true
  pub fits : length (join_fields (entry_fields f)) + 6 < line_size
  pub readers : IsListed f.read_access_users
  pub writers : IsListed f.write_access_users

name-no_newline : (u : CText) → is_user_text u ≡ true → no_newline u ≡ true
unfolding is_user_text no_newline all is_alnum
name-no_newline [] h = refl
name-no_newline (c ∷ u) h = ground (arith, name-no_newline u)

pub append-no_newline :
    (s t : CText) → no_newline s ≡ true → no_newline t ≡ true → no_newline (s ++ t) ≡ true
unfolding no_newline all
append-no_newline [] t h g = g
append-no_newline (c ∷ s) t h g = ground (arith, append-no_newline s t, h, g)

pub list-no_newline : (us : Acl) → AreNames us → no_newline (join_commas us) ≡ true
unfolding join_commas no_newline all
list-no_newline [] h = refl
list-no_newline (u ∷ []) h = name-no_newline u (valid_name u h.0).0
list-no_newline (u ∷ v ∷ us) h =
    append-no_newline u (b',' ∷ join_commas (v ∷ us)) (name-no_newline u (valid_name u h.0).0)
      (list-no_newline (v ∷ us) h.1)

or_none-EndsInk : (u : CText) → IsUser u → EndsInk (or_none u) × (0 < length (or_none u))
unfolding is_space
or_none-EndsInk u (inl nobody) = rw nobody (refl, omega arith)
or_none-EndsInk u (inr valid) =
    let (letters, some_text, _) = valid_name u valid in
    rw (or_none-valid u valid) (ends-name u letters, some_text)

-- The metadata while its lists are still to come.
abbrev pub bare : FileMetadata → FileMetadata
bare f = record f { read_access_users = []; write_access_users = [] }

abbrev first_fields : FileMetadata → List CText
first_fields f =
    f.filename
    ∷ f.owner
    ∷ f.ss_ip
    ∷ decimal f.ss_port
    ∷ int_text f.size
    ∷ int_text f.word_count
    ∷ int_text f.char_count
    ∷ decimal f.created
    ∷ decimal f.modified
    ∷ decimal f.last_access
    ∷ flag_text f.is_directory
    ∷ or_none f.last_access_user
    ∷ []

entry-EndsInk :
    (f : FileMetadata)
    → IsSaved f
    → EndsInk (join_fields (entry_fields f)) × (0 < length (join_fields (entry_fields f)))
unfolding entry_fields
entry-EndsInk f v =
    let (ends, some_text) = or_none-EndsInk f.last_modified_user v.modified in
    join_fields-EndsInk (first_fields f) (or_none f.last_modified_user) ends some_text

-- Nothing but the newline is trimmed off a line.
trim-line :
    (c : ℕ) (line : CText)
    → is_space c ≡ false
    → EndsInk (c ∷ line)
    → trim_string ((c ∷ line) ++ 10 ∷ []) ≡ c ∷ line
unfolding all is_space
trim-line c line starts ends = trim-ink (c ∷ line) (10 ∷ []) starts ends (omega arith) refl

pub load-file_line :
    (st : Loading) (f : FileMetadata)
    → IsSaved f
    → load_line st ((codes "FILE|" ++ join_fields (entry_fields f)) ++ 10 ∷ [])
      ≡ with_last st.files (bare f) (file_index_insert st.index f.filename (length st.files))
unfolding load_line load_file behind_prefix is_empty is_space
load-file_line st f v =
    let (ends, some_text) = entry-EndsInk f v in
    let trimmed =
      trim-line b'F' (codes "ILE|" ++ join_fields (entry_fields f)) refl
        (EndsInk-append (codes "FILE|") (join_fields (entry_fields f)) ends some_text) in
    let name : validate_filename (part (entry_fields f) 0) ≡ true =
      unfold part entry_fields in v.name in
    rw (load_line, trimmed, parse-entry_fields f v, name, load-entry_fields f v) refl

-- A line with an access list is left to `load_access`.
access-line :
    (st : Loading) (raw line : CText)
    → trim_string raw ≡ line
    → is_empty line ≡ false
    → behind_prefix line (codes "FILE|") ≡ none
    → load_line st raw ≡ load_access st line
unfolding load_line
access-line st raw line trimmed some_text other =
    subst (λ l. load_line st raw ≡ load_access st l) trimmed
      (let some_text' : is_empty (trim_string raw) ≡ false =
          subst (λ l. is_empty l ≡ false) (sym trimmed) some_text in
        let other' : behind_prefix (trim_string raw) (codes "FILE|") ≡ none =
          subst (λ l. behind_prefix l (codes "FILE|") ≡ none) (sym trimmed) other in
        rw (load_line, some_text', other') refl)

pub load-read_line :
    (files : List FileMetadata) (g : FileMetadata) (index : FileIndex) (us : Acl)
    → IsListed us
    → load_line (with_last files g index) ((codes "READ|" ++ join_commas us) ++ 10 ∷ [])
      ≡ with_last files (record g { read_access_users = us }) index
unfolding load_access behind_prefix is_empty is_space
load-read_line files g index us v =
    let trimmed =
      trim-line b'R' (codes "EAD|" ++ join_commas us) refl
        (list-EndsInk (codes "READ|") us refl (omega arith) v.names) in
    access-line (with_last files g index) ((codes "READ|" ++ join_commas us) ++ 10 ∷ [])
      (codes "READ|" ++ join_commas us) trimmed refl refl
    ∙ change-with_last (λ f. record f { read_access_users = file_acl_parse_csv (join_commas us) })
        files g index
    ∙ ap (λ l. with_last files (record g { read_access_users = l }) index)
        (parse-join_commas us v.names v.once v.fit v.short)

pub load-write_line :
    (files : List FileMetadata) (g : FileMetadata) (index : FileIndex) (us : Acl)
    → IsListed us
    → load_line (with_last files g index) ((codes "WRITE|" ++ join_commas us) ++ 10 ∷ [])
      ≡ with_last files (record g { write_access_users = us }) index
unfolding load_access behind_prefix is_empty is_space
load-write_line files g index us v =
    let trimmed =
      trim-line b'W' (codes "RITE|" ++ join_commas us) refl
        (list-EndsInk (codes "WRITE|") us refl (omega arith) v.names) in
    access-line (with_last files g index) ((codes "WRITE|" ++ join_commas us) ++ 10 ∷ [])
      (codes "WRITE|" ++ join_commas us) trimmed refl refl
    ∙ change-with_last (λ f. record f { write_access_users = file_acl_parse_csv (join_commas us) })
        files g index
    ∙ ap (λ l. with_last files (record g { write_access_users = l }) index)
        (parse-join_commas us v.names v.once v.fit v.short)
