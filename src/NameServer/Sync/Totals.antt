-- ===== src/NameServer/Sync/Totals.antt =====
-- The totals of a storage server while its files are written.
use distributed_documentatio.NameServer.State.{NameServer, holds_file, max_ip_length}
use distributed_documentatio.NameServer.Connections.{load_of, ns_recalculate_server_load_locked}
use distributed_documentatio.Base.{
  ◌∷◌, strn_eq, ℕ, CText, get_elem?, List, ◌≡◌, some, ◌∷◌, arith, get_elem?-inside, [],
  get_elem?-set, refl, ap, sym, str_eq_sym, true, take, false, set, Bool-cases, inl, ◌∙◌, inr, ◌+◌,
  Option-cases,
}
use distributed_documentatio.NameServer.Sync.{
  is_on_server, handle_ss_files_done, number_at, completed_metadata, shift_bytes,
  handle_write_complete, complete_write, update_file, indexed_file,
}
use distributed_documentatio.NameServer.Servers.{StorageServerInfo}
use distributed_documentatio.NameServer.Files.{FileMetadata}
use distributed_documentatio.Base.Int.{◌+ℤ◌, pos, pos_part, ℤ, negated}
use distributed_documentatio.NameServer.Connections.Accounts.{load_of-set_other, load_of-set}
use distributed_documentatio.Text.Digits.{read_int}
use distributed_documentatio.NameServer.Sync.Listed.{indexed_found}

-- The totals of the entry at the place are those that are counted from its files.
abbrev pub AreCounted : NameServer → ℕ → StorageServerInfo → Type 0
AreCounted ns place ss =
    (get_elem? ns.storage_servers place ≡ some (some ss))
    × (ss.total_files ≡ pos (load_of ss ns.registry.files).0)
    × (ss.total_bytes ≡ pos (load_of ss ns.registry.files).1)

-- The counts of two entries with one address are the same.
load_congr :
    (a b : StorageServerInfo) (files : List FileMetadata)
    → a.client_ip ≡ b.client_ip
    → a.client_port ≡ b.client_port
    → load_of a files ≡ load_of b files
unfolding load_of holds_file
load_congr a b [] ip port = refl
load_congr a b (meta ∷ files) ip port = ground (arith, load_congr a b files ip port)

strn_eq_sym : (n : ℕ) (a b : CText) → strn_eq n a b ≡ strn_eq n b a
unfolding strn_eq
strn_eq_sym n a b = str_eq_sym (take n a) (take n b)

-- Both tests of the address are the same.
on_server-holds :
    (file : FileMetadata) (ss : StorageServerInfo) → is_on_server file ss ≡ holds_file file ss
unfolding is_on_server holds_file
on_server-holds file ss = ground (arith, strn_eq_sym max_ip_length file.ss_ip ss.client_ip)

-- The totals of SS_FILES_DONE.
pub files_done-AreCounted :
    (ns : NameServer) (place : ℕ) (ss : StorageServerInfo)
    → get_elem? ns.storage_servers place ≡ some (some ss)
    → AreCounted
        (handle_ss_files_done place ns)
        place
        (ns_recalculate_server_load_locked ns.registry.files ss)
unfolding handle_ss_files_done ns_recalculate_server_load_locked
files_done-AreCounted ns place ss here =
    let files = ns.registry.files in
    let new = ns_recalculate_server_load_locked files ss in
    let inside = get_elem?-inside ns.storage_servers place (some ss) here in
    let same = load_congr new ss files refl refl in
    rw (handle_ss_files_done, here)
      (
        ground (arith, get_elem?-set ns.storage_servers place (some new) place inside),
        ap (λ l. pos l.0) (sym same),
        ap (λ l. pos l.1) (sym same),
      )

-- The difference is added, also if it is negative.
shifted_total :
    (total was is : ℤ) (before old new after : ℕ)
    → total ≡ pos before
    → was ≡ pos old
    → is ≡ pos new
    → after + old ≡ before + new
    → pos_part (total +ℤ (is +ℤ negated was)) ≡ after
shifted_total total was is before old new after t w i h = rw (t, w, i) (ground arith)

-- A file counts: its size is not negative, and it is no folder if it is on the server.
abbrev pub IsCountable : StorageServerInfo → FileMetadata → Type 0
IsCountable ss file =
    ((old : ℕ) × (file.size ≡ pos old)) × (holds_file file ss ≡ true → file.is_directory ≡ false)

module _ (now place : ℕ) (ns : NameServer) (ss : StorageServerInfo) (filename : CText)
    (fields : List CText) (new : ℕ) (size : number_at 2 fields ≡ pos new)
    (counted : AreCounted ns place ss) where
  -- The totals of the server once one of its files has its new size.
  written_here :
      (i : ℕ) (file : FileMetadata)
      → get_elem? ns.registry.files i ≡ some file
      → IsCountable ss file
      → let files = set ns.registry.files i (completed_metadata now fields file) in
        let after = shift_bytes file (number_at 2 fields) ss in
        (after.total_files ≡ pos (load_of after files).0)
        × (after.total_bytes ≡ pos (load_of after files).1)
  unfolding completed_metadata shift_bytes holds_file
  written_here i file at ((old, sized), plain) =
      let done = completed_metadata now fields file in
      let (_, count, bytes) = counted in
      elim (Bool-cases (holds_file file ss)) [
        | inl on ↦
            let (count', bytes') =
              load_of-set ss ns.registry.files i file done at refl refl (plain on) on in
            let test : is_on_server file ss ≡ true = on_server-holds file ss ∙ on in
            let same =
              load_congr (shift_bytes file (number_at 2 fields) ss) ss
                (set ns.registry.files i done) (ground (arith, test)) (ground (arith, test)) in
            let total =
              shifted_total ss.total_bytes file.size (number_at 2 fields)
                (load_of ss ns.registry.files).1 old new
                (load_of ss (set ns.registry.files i done)).1 bytes sized size
                (omega (arith, bytes', ap pos_part sized, ap pos_part size)) in
            rw (same, shift_bytes, test) (count ∙ ap pos (sym count'), ap pos total)
        | inr off ↦
            let test : is_on_server file ss ≡ false = on_server-holds file ss ∙ off in
            let same : load_of ss (set ns.registry.files i done) ≡ load_of ss ns.registry.files =
              load_of-set_other ss ns.registry.files i file done at off off in
            rw (shift_bytes, test, same) (count, bytes)
      ]

-- If the totals of a storage server are those that are counted from its files, a WRITE_COMPLETE of it with a size
-- that is not negative, for a file that has no negative size and is no folder of the server, or that is not known,
-- keeps them so: SS_FILES_DONE would count the same.
pub write_complete-AreCounted :
    (now place : ℕ) (ns : NameServer) (ss : StorageServerInfo)
    (command filename size words chars : CText) (rest : List CText) (new : ℕ)
    → read_int size ≡ pos new
    → AreCounted ns place ss
    → ((i : ℕ) (file : FileMetadata)
        → indexed_file ns.registry filename ≡ some (i, file)
        → IsCountable ss file)
    → (after : StorageServerInfo) × AreCounted
        (handle_write_complete now place ns (command ∷ filename ∷ size ∷ words ∷ chars ∷ rest))
        place
        after
unfolding handle_write_complete complete_write update_file number_at
write_complete-AreCounted now place ns ss command filename size words chars rest new sized counted
      countable =
    let fields = command ∷ filename ∷ size ∷ words ∷ chars ∷ rest in
    elim (Option-cases (indexed_file ns.registry filename)) [
      | inl unknown ↦ rw (complete_write, unknown) (ss, counted)
      | inr ((i, file), found) ↦
          let (here, _, _) = counted in
          let after = shift_bytes file (number_at 2 fields) ss in
          let (count, bytes) =
            written_here now place ns ss filename fields new sized counted i file
              (indexed_found ns.registry filename i file found).1 (countable i file found) in
          let inside = get_elem?-inside ns.storage_servers place (some ss) here in
          rw (complete_write, found, here)
            (
              after,
              (
                ground (arith, get_elem?-set ns.storage_servers place (some after) place inside),
                count,
                bytes,
              ),
            )
    ]
