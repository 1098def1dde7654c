-- ===== src/Storage/Commit/Undo.antt =====
-- What a commit writes, and that an undo takes it back.
use distributed_documentatio.Storage.State.{
  StorageServer, FileRecord, WriteSession, Disk, ss_read_file_content, ss_write_file_content,
  record_at, put_record, put_content, ss_touch_file_metadata, find_record,
}
use distributed_documentatio.Storage.Sessions.{ss_find_session}
use distributed_documentatio.Protocol.Replies.{answered}
use distributed_documentatio.Storage.Commit.{
  bad_bounds, new_content, sessions_after, write_commit, commit_session, handle_client_etirw, CText,
  ℕ, restore, file_exists,
}
use distributed_documentatio.Base.{
  CText, ℕ, ◌≡◌, true, length, leb, some, ◌≤◌, arith, false, codes, take_all, ◌∷◌, [], refl, ap,
  List, strn_eq, Bool-cases, inl, inr, ◌==◌,
}
use distributed_documentatio.NameServer.Index.{max_filename_length}
use mathlib.Core.Option.{some-injective}

-- A text that the disk takes whole.
pub record IsWritable (disk : Disk) (path text : CText) : Type 0 where
  pub opens : disk.writable path ≡ true
  pub fits : length text ≤ disk.limit

unfoldable pub put : Disk → CText → CText → Disk
put disk path text = record disk { content = put_content disk.content path text }

write_whole :
    (disk : Disk) (path text : CText)
    → IsWritable disk path text
    → ss_write_file_content disk path text ≡ (true, put disk path text)
unfolding ss_write_file_content put
write_whole disk path text w =
    let fits : leb (length text) disk.limit ≡ true = ground (arith, w.fits) in
    rw (w.opens, fits, take_all disk.limit text w.fits) refl

-- The record of the file once the commit is done.
abbrev pub committed : ℕ → FileRecord → WriteSession → FileRecord
committed now rec session =
    ss_touch_file_metadata now (record rec { undo_available = true }) session.username true

-- The server once the commit is done.
abbrev pub server_after : ℕ → StorageServer → ℕ → FileRecord → WriteSession → CText → StorageServer
server_after now ss fd rec session current = record ss {
  files = put_record (committed now rec session) ss.files;
  sessions = sessions_after fd session current ss.sessions;
  disk = put (put ss.disk rec.undopath current) rec.filepath (new_content current session);
}

-- A session whose file can be read and written and whose bounds are in the file.
pub record IsReady (ss : StorageServer) (fd : ℕ) (rec : FileRecord) (session : WriteSession)
    (current : CText) : Type 0 where
  pub found : ss_find_session fd ss.sessions ≡ some session
  pub owned : record_at session.file ss.files ≡ some rec
  pub read : ss_read_file_content ss.disk rec.filepath ≡ some current
  pub bounds : bad_bounds (length current) session ≡ false
  pub undo_whole : IsWritable ss.disk rec.undopath current
  pub file_whole : IsWritable ss.disk rec.filepath (new_content current session)

pub put-IsWritable :
    (disk : Disk) (p q a b : CText) → IsWritable disk q b → IsWritable (put disk p a) q b
unfolding put
put-IsWritable disk p q a b w = record { opens = w.opens; fits = w.fits }

module _ (now : ℕ) (ss : StorageServer) (fd : ℕ) (rec : FileRecord) (session : WriteSession)
    (current : CText) (r : IsReady ss fd rec session current) where
  write_commit-server_after :
      write_commit now ss fd rec session current
      ≡ (answered ((codes "OK_WRITE_DONE" ∷ []) ∷ []), server_after now ss fd rec session current)
  unfolding write_commit
  write_commit-server_after =
      rw
        (
          write_commit,
          write_whole ss.disk rec.undopath current r.undo_whole,
          write_whole _ rec.filepath (new_content current session) (
              put-IsWritable ss.disk rec.undopath rec.filepath current (new_content current session)
                r.file_whole),
        )
        refl

  commit_session-server_after :
      commit_session now ss fd rec session
      ≡ (answered ((codes "OK_WRITE_DONE" ∷ []) ∷ []), server_after now ss fd rec session current)
  unfolding commit_session
  commit_session-server_after = rw (r.read, commit_session, r.bounds) write_commit-server_after

  pub etirw-server_after :
      handle_client_etirw now ss fd
      ≡ some
          (answered ((codes "OK_WRITE_DONE" ∷ []) ∷ []), server_after now ss fd rec session current)
  unfolding handle_client_etirw
  etirw-server_after =
      rw (r.found, handle_client_etirw, r.owned) (ap some commit_session-server_after)

find_record-name :
    (filename : CText) (files : List FileRecord) (rec : FileRecord)
    → find_record filename files ≡ some rec
    → strn_eq max_filename_length rec.filename filename ≡ true
unfolding find_record
find_record-name filename [] rec h = absurd (ground arith)
find_record-name filename (r ∷ files) rec h =
    elim (Bool-cases (strn_eq max_filename_length r.filename filename)) [
      | inl e ↦
          let both : some r ≡ some rec = rw e at h in
          let same : r ≡ rec = some-injective r rec both in rw same at e
      | inr e ↦ find_record-name filename files rec (rw e at h)
    ]

pub find_record-put_record :
    (filename : CText) (files : List FileRecord) (rec new : FileRecord)
    → find_record filename files ≡ some rec
    → record_at rec.address files ≡ some rec
    → new.address ≡ rec.address
    → new.filename ≡ rec.filename
    → find_record filename (put_record new files) ≡ some new
unfolding find_record record_at put_record
find_record-put_record filename [] rec new h point address name = absurd (ground arith)
find_record-put_record filename (r ∷ files) rec new h point address name =
    elim (Bool-cases (strn_eq max_filename_length r.filename filename)) [
      | inl e ↦
          let both : some r ≡ some rec = rw e at h in
          let same : r ≡ rec = some-injective r rec both in
          let here : (r.address == new.address) ≡ true = rw (same, address) (ground arith) in
          let named : strn_eq max_filename_length new.filename filename ≡ true =
            rw name (rw same at e) in
          rw (here, named) refl
      | inr e ↦
          let rest : find_record filename files ≡ some rec = rw e at h in
          elim (Bool-cases (r.address == rec.address)) [
            | inl d ↦
                let both : some r ≡ some rec = rw d at point in
                let same : r ≡ rec = some-injective r rec both in
                let other : strn_eq max_filename_length rec.filename filename ≡ false =
                  rw same at e in
                absurd (ground (arith, find_record-name filename files rec rest))
            | inr d ↦
                let away : (r.address == new.address) ≡ false = rw address d in
                let later : record_at rec.address files ≡ some rec = rw d at point in
                rw (away, e) (find_record-put_record filename files rec new rest later address name)
          ]
    ]

pub restored :
    (now : ℕ) (ss : StorageServer) (rec : FileRecord) (username current : CText)
    → rec.undo_available ≡ true
    → file_exists ss.disk rec.undopath ≡ true
    → ss_read_file_content ss.disk rec.undopath ≡ some current
    → IsWritable ss.disk rec.filepath current
    → restore now ss rec username ≡ (
      answered ((codes "OK_UNDO" ∷ []) ∷ []),
      record ss {
        files =
            put_record
              (ss_touch_file_metadata now (record rec { undo_available = false }) username true)
              ss.files;
        disk = put ss.disk rec.filepath current;
      },
    )
unfolding restore
restored now ss rec username current available there read w =
    rw (available, restore, there, read, write_whole ss.disk rec.filepath current w) refl
