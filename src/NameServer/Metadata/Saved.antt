-- ===== src/NameServer/Metadata/Saved.antt =====
-- The metadata of all files that is saved is loaded again.
use distributed_documentatio.Base.{
  List, CText, digits_before, ◌≡◌, all, ℕ, ◌∷◌, true, length, decimal, ◌++◌, ◌<◌, codes, ◌+◌, ◌≤◌,
  suc, [], ◌/◌, ◌%◌, arith, ◌-◌, ap, sym, zero, leb, length-append, false, ◌∙◌, refl,
}
use distributed_documentatio.NameServer.Metadata.{
  Loading, load_lines, entry_text, entries_text, ns_load_metadata, get_lines, ns_save_metadata,
  line_size, entry_fields, load_line,
}
use distributed_documentatio.Protocol.Stream.Framing.{no_newline}
use distributed_documentatio.NameServer.Files.{FileMetadata}
use distributed_documentatio.Acl.{Acl}
use distributed_documentatio.NameServer.Metadata.Lines.{with_last, get_lines-line}
use distributed_documentatio.NameServer.Metadata.Trip.{
  IsStored, IsListed, append-no_newline, bare, list-no_newline, load-file_line, load-read_line,
  load-write_line,
}
use distributed_documentatio.NameServer.Index.{file_index_insert}
use distributed_documentatio.Protocol.{join_fields}
use distributed_documentatio.NameServer.State.{ns_max_files}
use distributed_documentatio.NameServer.Csv.{join_commas}
use mathlib.Core.List.{append_assoc, append-nil}

unfoldable pub AreStored : List FileMetadata → Type 0
AreStored [] = Unit
AreStored (f ∷ fs) = IsStored f × AreStored fs

-- The state with the next file behind the others.
abbrev loaded : Loading → FileMetadata → Loading
loaded st f = with_last st.files f (file_index_insert st.index f.filename (length st.files))

-- A line at the front of the text is the next that is loaded.
load-next_line :
    (st : Loading) (line rest : CText)
    → no_newline line ≡ true
    → length line < line_size - 1
    → length st.files < ns_max_files
    → load_lines st (get_lines line_size (line_size - 1) (line ++ 10 ∷ rest))
      ≡ load_lines (load_line st (line ++ 10 ∷ [])) (get_lines line_size (line_size - 1) rest)
unfolding load_lines
load-next_line st line rest one fits room =
    let more : leb ns_max_files (length st.files) ≡ false = ground (arith, room) in
    rw (get_lines-line line_size (line_size - 1) line rest one fits, more) refl

entry_text-append :
    (f : FileMetadata) (rest : CText)
    → entry_text f ++ rest
      ≡ (codes "FILE|" ++ join_fields (entry_fields f))
        ++ 10
          ∷ ((codes "READ|" ++ join_commas f.read_access_users)
              ++ 10 ∷ ((codes "WRITE|" ++ join_commas f.write_access_users) ++ 10 ∷ rest))
unfolding entry_text
entry_text-append f rest =
    ap (λ t. codes "FILE|" ++ t)
      (append_assoc (join_fields (entry_fields f)) _ rest
        ∙ ap (λ t. join_fields (entry_fields f) ++ 10 ∷ (codes "READ|" ++ t))
            (append_assoc (join_commas f.read_access_users) _ rest
              ∙ ap (λ t. join_commas f.read_access_users ++ 10 ∷ (codes "WRITE|" ++ t))
                  (append_assoc (join_commas f.write_access_users) (10 ∷ []) rest)))

load-list_line :
    (label : CText) (us : Acl)
    → no_newline label ≡ true
    → length label < 7
    → IsListed us
    → (no_newline (label ++ join_commas us) ≡ true)
      × (length (label ++ join_commas us) < line_size - 1)
load-list_line label us one small v = (
  append-no_newline label (join_commas us) one (list-no_newline us v.names),
  omega (arith, length-append label (join_commas us), small, v.short),
)

-- The three lines of a file.
load-entry_text :
    (st : Loading) (f : FileMetadata) (rest : CText)
    → IsStored f
    → length st.files + 1 < ns_max_files
    → load_lines st (get_lines line_size (line_size - 1) (entry_text f ++ rest))
      ≡ load_lines (loaded st f) (get_lines line_size (line_size - 1) rest)
unfolding no_newline all
load-entry_text st f rest v room =
    let index = file_index_insert st.index f.filename (length st.files) in
    let g = record (bare f) { read_access_users = f.read_access_users } in
    let first = codes "FILE|" ++ join_fields (entry_fields f) in
    let second = codes "READ|" ++ join_commas f.read_access_users in
    let third = codes "WRITE|" ++ join_commas f.write_access_users in
    let one = append-no_newline (codes "FILE|") (join_fields (entry_fields f)) refl v.one_line in
    let fits : length first < line_size - 1 = omega (arith, v.fits) in
    let readers = load-list_line (codes "READ|") f.read_access_users refl (omega arith) v.readers in
    let writers =
      load-list_line (codes "WRITE|") f.write_access_users refl (omega arith) v.writers in
    let behind : length (st.files ++ bare f ∷ []) < ns_max_files =
      omega (arith, length-append st.files (bare f ∷ []), room) in
    let behind' : length (st.files ++ g ∷ []) < ns_max_files =
      omega (arith, length-append st.files (g ∷ []), room) in
    ap (λ t. load_lines st (get_lines line_size (line_size - 1) t)) (entry_text-append f rest)
    ∙ load-next_line st first (second ++ 10 ∷ (third ++ 10 ∷ rest)) one fits (omega (arith, room))
    ∙ ap
        (λ s.
          load_lines s (get_lines line_size (line_size - 1) (second ++ 10 ∷ (third ++ 10 ∷ rest))))
        (load-file_line st f v.saved)
    ∙ load-next_line (with_last st.files (bare f) index) second (third ++ 10 ∷ rest) readers.0
        readers.1 behind
    ∙ ap (λ s. load_lines s (get_lines line_size (line_size - 1) (third ++ 10 ∷ rest)))
        (load-read_line st.files (bare f) index f.read_access_users v.readers)
    ∙ load-next_line (with_last st.files g index) third rest writers.0 writers.1 behind'
    ∙ ap (λ s. load_lines s (get_lines line_size (line_size - 1) rest))
        (load-write_line st.files g index f.write_access_users v.writers)

load-entries_text :
    (st : Loading) (fs : List FileMetadata)
    → AreStored fs
    → length st.files + length fs < ns_max_files
    → (load_lines st (get_lines line_size (line_size - 1) (entries_text fs))).files ≡ st.files ++ fs
unfolding entries_text get_lines load_lines AreStored
load-entries_text st [] v room = sym (append-nil st.files)
load-entries_text st (f ∷ fs) v room =
    let behind : length (st.files ++ f ∷ []) + length fs < ns_max_files =
      omega (arith, length-append st.files (f ∷ []), room) in
    ap (λ s. s.files) (load-entry_text st f (entries_text fs) v.0 (omega (arith, room)))
    ∙ load-entries_text (loaded st f) fs v.1 behind
    ∙ append_assoc st.files (f ∷ []) fs

length-digits_before :
    (fuel n : ℕ) (rest : CText) → length (digits_before fuel n rest) ≤ length rest + n / 2 + 1
unfolding digits_before
length-digits_before zero n rest = omega arith
length-digits_before (suc fuel) n rest =
    ground (arith, length-digits_before fuel (n / 10) ((n % 10 + 48) ∷ rest))

digits-no_newline :
    (fuel n : ℕ) (rest : CText)
    → no_newline rest ≡ true
    → no_newline (digits_before fuel n rest) ≡ true
unfolding digits_before no_newline all
digits-no_newline zero n rest h = h
digits-no_newline (suc fuel) n rest h =
    let digit : no_newline ((n % 10 + 48) ∷ rest) ≡ true = ground (arith, h) in
    ground (arith, digits-no_newline fuel (n / 10) ((n % 10 + 48) ∷ rest) digit, h)

-- The files that are loaded are the ones that were saved, in their order and with their access lists, if there are
-- fewer of them than the server can keep, each has a valid name and fields without the separator, and its three lines
-- fit the buffer.
pub files_returned :
    (fs : List FileMetadata)
    → AreStored fs
    → length fs < ns_max_files
    → (ns_load_metadata (ns_save_metadata fs)).files ≡ fs
unfolding ns_load_metadata ns_save_metadata decimal no_newline all
files_returned fs v room =
    let n = length fs in
    let one : no_newline (decimal n) ≡ true = digits-no_newline (suc n) n [] refl in
    let fits : length (decimal n) < line_size - 1 =
      omega (arith, length-digits_before (suc n) n [], room) in
    rw
      (
        ns_load_metadata,
        ns_save_metadata,
        get_lines-line line_size (line_size - 1) (decimal n) (entries_text fs) one fits,
      )
      (load-entries_text (record { files = []; index = λ _. []; has_current = false }) fs v
        (omega (arith, room)))
