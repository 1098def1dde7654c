-- ===== src/NameServer/Metadata.antt =====
-- name_server/name_server.c: the metadata file: `ns_save_metadata` and `ns_load_metadata`, from and to the text of
-- the file. A port or a time that is negative in the file is read as 0 here. The cache, which loading empties, is
-- left out.
pub mod Numbers
pub mod Entry
pub mod Lines
pub mod Trip
pub mod Saved
use distributed_documentatio.Base.{
  Bool, decimal, List, ℕ, CText, if◌then◌else◌, ◌∷◌, length, get_elem?, take, [], codes, none, ◌++◌,
  ◌*◌, ◌-◌, str_eq, leb, not, false, ◌==◌, some, ◌||◌, true, set,
}
use distributed_documentatio.Protocol.{join_fields, parse_fields}
use distributed_documentatio.Text.Digits.{read_int, int_text}
use distributed_documentatio.NameServer.Files.{FileMetadata}
use distributed_documentatio.NameServer.Csv.{file_acl_parse_csv, join_commas, put_front}
use distributed_documentatio.NameServer.Sharing.{max_field_size}
use distributed_documentatio.NameServer.Index.{FileIndex, max_filename_length, file_index_insert}
use distributed_documentatio.NameServer.Paths.{behind_prefix}
use distributed_documentatio.NameServer.Info.{or_none}
use distributed_documentatio.Names.{validate_filename}
use distributed_documentatio.Text.{trim_string}
use distributed_documentatio.Acl.{max_username_length}
use distributed_documentatio.Base.Int.{pos_part, int_eq, pos}
use distributed_documentatio.NameServer.State.{is_empty, ns_max_files, max_ip_length}

-- `%d` of `is_directory ? 1 : 0`
abbrev pub flag_text : Bool → CText
flag_text b = if b then codes "1" else codes "0"

unfoldable pub entry_fields : FileMetadata → List CText
unfolding decimal int_text
entry_fields f =
    f.filename
    ∷ f.owner
    ∷ f.ss_ip
    ∷ decimal f.ss_port
    ∷ int_text f.size
    ∷ int_text f.word_count
    ∷ int_text f.char_count
    ∷ decimal f.created
    ∷ decimal f.modified
    ∷ decimal f.last_access
    ∷ flag_text f.is_directory
    ∷ or_none f.last_access_user
    ∷ or_none f.last_modified_user
    ∷ []

-- The three lines of a file.
unfoldable pub entry_text : FileMetadata → CText
unfolding entry_fields join_fields join_commas
entry_text f =
    codes "FILE|"
    ++ (join_fields (entry_fields f)
        ++ 10
          ∷ (codes "READ|"
              ++ (join_commas f.read_access_users
                  ++ 10 ∷ (codes "WRITE|" ++ (join_commas f.write_access_users ++ 10 ∷ [])))))

unfoldable pub entries_text : List FileMetadata → CText
unfolding entry_text
entries_text [] = []
entries_text (f ∷ files) = entry_text f ++ entries_text files

unfoldable pub ns_save_metadata : List FileMetadata → CText
unfolding entries_text decimal
ns_save_metadata files = decimal (length files) ++ 10 ∷ entries_text files

abbrev pub line_size : ℕ
line_size = max_field_size * 2

-- What `fgets` returns in turn for a buffer of that size, with so much room left for the line that has begun.
unfoldable pub get_lines : ℕ → ℕ → CText → List CText
get_lines size room [] = []
get_lines size room (c ∷ s) =
    let fresh = get_lines size (size - 1) s in
    let same = get_lines size (room - 1) s in
    if c == 10 || leb room 1 then (c ∷ []) ∷ fresh else put_front c same

-- parts[n], or the empty text
unfoldable pub part : List CText → ℕ → CText
part parts n = elim (get_elem? parts n) [ none ↦ [] | some p ↦ p ]

unfoldable pub loaded_user : CText → CText
loaded_user p = if str_eq p (codes "N/A") then [] else take (max_username_length - 1) p

-- The metadata without the counts, and with its times where an older version put them.
unfoldable pub legacy_entry : List CText → FileMetadata
unfolding part read_int
legacy_entry parts = record {
  filename = take (max_filename_length - 1) (part parts 0);
  owner = take (max_username_length - 1) (part parts 1);
  ss_ip = take (max_ip_length - 1) (part parts 2);
  ss_port = pos_part (read_int (part parts 3));
  size = read_int (part parts 4);
  word_count = pos 0;
  char_count = pos 0;
  is_directory = false;
  created = pos_part (read_int (part parts 5));
  modified = pos_part (read_int (part parts 6));
  last_access = pos_part (read_int (part parts 7));
  last_access_user = [];
  last_modified_user = [];
  read_access_users = [];
  write_access_users = [];
}

-- The metadata that the parts of a line stand for.
unfoldable pub load_entry : List CText → FileMetadata
unfolding legacy_entry loaded_user
load_entry parts =
    if leb 11 (length parts)
    then record (legacy_entry parts) {
      word_count = read_int (part parts 5);
      char_count = read_int (part parts 6);
      created = pos_part (read_int (part parts 7));
      modified = pos_part (read_int (part parts 8));
      last_access = pos_part (read_int (part parts 9));
      is_directory = not (int_eq (read_int (part parts 10)) (pos 0));
      last_access_user = loaded_user (part parts 11);
      last_modified_user = loaded_user (part parts 12);
    }
    else legacy_entry parts

-- The files so far, and whether `current` points to the last of them.
pub record Loading : Type 0 where
  pub files : List FileMetadata
  pub index : FileIndex
  pub has_current : Bool

unfoldable pub load_file : Loading → List CText → Loading
unfolding load_entry part
load_file st parts =
    if validate_filename (part parts 0)
    then (let file = load_entry parts in
        record {
          files = st.files ++ file ∷ [];
          index = file_index_insert st.index file.filename (length st.files);
          has_current = true;
        })
    else record st { has_current = false }

-- The metadata of the last file is changed through `current`.
unfoldable pub change_current : (FileMetadata → FileMetadata) → Loading → Loading
change_current change st =
    let last_index = length st.files - 1 in
    elim (get_elem? st.files last_index) [
      | none ↦ st
      | some file ↦ record st { files = set st.files last_index (change file) }
    ]

-- A line that is not for a new file.
unfoldable pub load_access : Loading → CText → Loading
unfolding change_current file_acl_parse_csv behind_prefix
load_access st line = if not st.has_current then st else elim (behind_prefix line (codes "READ|")) [
  | some csv ↦ change_current (λ f. record f { read_access_users = file_acl_parse_csv csv }) st
  | none ↦ elim (behind_prefix line (codes "WRITE|")) [
    | some csv ↦ change_current (λ f. record f { write_access_users = file_acl_parse_csv csv }) st
    | none ↦ st
  ]
]

unfoldable pub load_line : Loading → CText → Loading
unfolding load_file load_access parse_fields behind_prefix
load_line st raw =
    let line = trim_string raw in
    if is_empty line then st else elim (behind_prefix line (codes "FILE|")) [
      | some payload ↦ load_file st (parse_fields 13 payload)
      | none ↦ load_access st line
    ]

unfoldable pub load_lines : Loading → List CText → Loading
unfolding load_line
load_lines st [] = st
load_lines st (line ∷ lines) =
    let more = load_lines (load_line st line) lines in
    if leb ns_max_files (length st.files) then st else more

-- The first line, with the number of files, is skipped.
unfoldable pub ns_load_metadata : CText → Loading
unfolding load_lines get_lines
ns_load_metadata text =
    let start : Loading = record { files = []; index = λ _. []; has_current = false } in
    elim (get_lines line_size (line_size - 1) text) [
      | [] ↦ start
      | _ ∷ lines ↦ load_lines start lines
    ]
