-- ===== src/NameServer/Listing/Visible.antt =====
-- Which files VIEW shows.
use distributed_documentatio.Base.{
  CText, List, ◌∷◌, codes, false, ℕ, [], ◌≡◌, true, if◌then◌else◌, arith, refl, ap,
}
use distributed_documentatio.NameServer.Listing.{
  has_access, view_lines, handle_view, view_fields, read_flags, view_flags,
}
use distributed_documentatio.NameServer.Files.{FileMetadata, file_has_read_access}
use distributed_documentatio.NameServer.State.{NameServer, is_empty}
use distributed_documentatio.Protocol.Replies.{answered}

-- The files that the user may read.
unfoldable pub readable : CText → List FileMetadata → List FileMetadata
readable user [] = []
readable user (file ∷ files) =
    let rest = readable user files in if file_has_read_access file user then file ∷ rest else rest

abbrev pub short_lines : List FileMetadata → List (List CText)
short_lines [] = (codes "OK_VIEW_END" ∷ []) ∷ []
short_lines (file ∷ files) = (codes "OK_VIEW_L" ∷ file.filename ∷ []) ∷ short_lines files

-- The right to see a file is the right to read it.
sees-reads :
    (user : CText) (file : FileMetadata)
    → has_access false user file ≡ file_has_read_access file user
unfolding has_access file_has_read_access
sees-reads user file = refl

visible_lines :
    (format_time : ℕ → CText) (user : CText) (files : List FileMetadata)
    → view_lines format_time false false user files ≡ short_lines (readable user files)
unfolding view_lines readable view_fields
visible_lines format_time user [] = refl
visible_lines format_time user (file ∷ files) =
    ground (arith, visible_lines format_time user files, sees-reads user file)

all_lines :
    (format_time : ℕ → CText) (user : CText) (files : List FileMetadata)
    → view_lines format_time true false user files ≡ short_lines files
unfolding view_lines view_fields has_access
all_lines format_time user [] = refl
all_lines format_time user (file ∷ files) = ground (arith, all_lines format_time user files)

-- To a user who names himself, VIEW without flags lists exactly the files that he may read, in their order, and
-- VIEW with the flag -a every file.
pub view_exact :
    (format_time : ℕ → CText) (user command : CText) (ns : NameServer)
    → is_empty user ≡ false
    → (handle_view format_time user ns (command ∷ [])
        ≡ answered (short_lines (readable user ns.registry.files)))
      × (handle_view format_time user ns (command ∷ codes "-a" ∷ [])
          ≡ answered (short_lines ns.registry.files))
unfolding handle_view read_flags view_flags
view_exact format_time user command ns known = (
  rw (handle_view, known) (ap answered (visible_lines format_time user ns.registry.files)),
  rw (handle_view, known) (ap answered (all_lines format_time user ns.registry.files)),
)
