-- ===== src/NameServer/Metadata/Lines.antt =====
-- The lines of the file, one by one.
use distributed_documentatio.NameServer.Metadata.{get_lines, change_current, Loading}
use distributed_documentatio.Base.{
  CText, List, all, ◌<◌, set, ℕ, length, ◌≡◌, ◌∷◌, ◌++◌, true, [], subst, arith, sym, ap, ◌-◌,
  length-append, ◌==◌, refl, get_elem?, ◌||◌, leb, some, false, get_elem?-append,
}
use distributed_documentatio.Protocol.{join_fields}
use distributed_documentatio.NameServer.Csv.{join_commas}
use distributed_documentatio.NameServer.Files.{FileMetadata}
use distributed_documentatio.Protocol.Stream.Framing.{no_newline}
use distributed_documentatio.Text.Trim.{EndsInk}
use distributed_documentatio.Acl.{Acl}
use distributed_documentatio.NameServer.Index.{FileIndex}
use distributed_documentatio.NameServer.Csv.Trip.{AreNames, ends-name, valid_name}
use mathlib.Core.List.{append-nil}

-- A line that fits the buffer is read whole.
pub get_lines-line :
    (size room : ℕ) (line rest : CText)
    → no_newline line ≡ true
    → length line < room
    → get_lines size room (line ++ 10 ∷ rest) ≡ (line ++ 10 ∷ []) ∷ get_lines size (size - 1) rest
unfolding get_lines no_newline all
get_lines-line size room [] rest h fits = refl
get_lines-line size room (c ∷ line) rest h fits =
    let other : (c == 10 || leb room 1) ≡ false = ground (arith, h, fits) in
    rw (other, get_lines-line size (room - 1) line rest (ground (arith, h)) (omega (arith, fits)))
      refl

pub EndsInk-append : (pre s : CText) → EndsInk s → 0 < length s → EndsInk (pre ++ s)
EndsInk-append [] s h l = h
EndsInk-append (c ∷ []) [] h l = absurd (omega arith)
EndsInk-append (c ∷ []) (d ∷ s) h l = h
EndsInk-append (c ∷ d ∷ pre) s h l = EndsInk-append (d ∷ pre) s h l

-- The last of the fields ends the text.
pub join_fields-EndsInk :
    (fs : List CText) (last : CText)
    → EndsInk last
    → 0 < length last
    → EndsInk (join_fields (fs ++ last ∷ [])) × (0 < length (join_fields (fs ++ last ∷ [])))
unfolding join_fields
join_fields-EndsInk [] last h l = (h, l)
join_fields-EndsInk (f ∷ []) last h l = (
  EndsInk-append f (b'|' ∷ last) (EndsInk-append (b'|' ∷ []) last h l) (omega arith),
  omega (arith, length-append f (b'|' ∷ last)),
)
join_fields-EndsInk (f ∷ g ∷ fs) last h l =
    let (ends, some_text) = join_fields-EndsInk (g ∷ fs) last h l in
    let behind = join_fields (g ∷ fs ++ last ∷ []) in
    (
      EndsInk-append f (b'|' ∷ behind) (EndsInk-append (b'|' ∷ []) behind ends some_text)
          (omega arith),
      omega (arith, length-append f (b'|' ∷ behind)),
    )

-- The last of the names ends the list.
pub join_commas-EndsInk :
    (u : CText) (us : Acl)
    → AreNames (u ∷ us)
    → EndsInk (join_commas (u ∷ us)) × (0 < length (join_commas (u ∷ us)))
unfolding join_commas
join_commas-EndsInk u [] h = (ends-name u (valid_name u h.0).0, (valid_name u h.0).1)
join_commas-EndsInk u (v ∷ us) h =
    let (ends, some_text) = join_commas-EndsInk v us h.1 in
    let behind = join_commas (v ∷ us) in
    (
      EndsInk-append u (b',' ∷ behind) (EndsInk-append (b',' ∷ []) behind ends some_text)
          (omega arith),
      omega (arith, length-append u (b',' ∷ behind)),
    )

-- A list behind its label ends with no space.
pub list-EndsInk :
    (label : CText) (us : Acl)
    → EndsInk label
    → 0 < length label
    → AreNames us
    → EndsInk (label ++ join_commas us)
unfolding join_commas
list-EndsInk label [] h l names = subst EndsInk (sym (append-nil label)) h
list-EndsInk label (u ∷ us) h l names =
    let (ends, some_text) = join_commas-EndsInk u us names in
    EndsInk-append label (join_commas (u ∷ us)) ends some_text

set-end :
    (files : List FileMetadata) (a b : FileMetadata)
    → set (files ++ a ∷ []) (length files) b ≡ files ++ b ∷ []
set-end [] a b = refl
set-end (x ∷ files) a b = ap (◌∷◌ x) (set-end files a b)

-- A state with a last file.
abbrev pub with_last : List FileMetadata → FileMetadata → FileIndex → Loading
with_last files last index = record {
  files = files ++ last ∷ [];
  index = index;
  has_current = true;
}

pub change-with_last :
    (change : FileMetadata → FileMetadata) (files : List FileMetadata) (last : FileMetadata)
    (index : FileIndex)
    → change_current change (with_last files last index) ≡ with_last files (change last) index
unfolding change_current
change-with_last change files last index =
    let size : length (files ++ last ∷ []) - 1 ≡ length files =
      omega (arith, length-append files (last ∷ [])) in
    let there : get_elem? (files ++ last ∷ []) (length files) ≡ some last =
      ground (arith, get_elem?-append files last (length files)) in
    rw (change_current, size, there, size, set-end files last (change last)) refl
