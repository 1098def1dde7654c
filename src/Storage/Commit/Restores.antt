-- ===== src/Storage/Commit/Restores.antt =====
-- An undo right after a commit gives back the text that was there before it.
use distributed_documentatio.Storage.State.{
  StorageServer, FileRecord, WriteSession, ss_read_file_content, file_exists, ss_check_write_access,
  ss_find_file, record_at, put_record, ss_touch_file_metadata,
}
use distributed_documentatio.Storage.Sessions.{ss_file_has_active_writers}
use distributed_documentatio.Protocol.Replies.{answered}
use distributed_documentatio.Storage.Commit.{
  new_content, sessions_after, handle_client_etirw, undo_file, handle_client_undo, ℕ,
}
use distributed_documentatio.Storage.Commit.Undo.{
  IsWritable, IsReady, put, committed, server_after, etirw-server_after, find_record-put_record,
  restored,
}
use distributed_documentatio.Base.{
  ℕ, CText, ◌≡◌, str_eq, some, false, str_eq_refl, true, codes, refl, ◌∷◌, [], arith,
}

module _ (now : ℕ) (ss : StorageServer) (fd : ℕ) (rec : FileRecord) (session : WriteSession)
    (current : CText) (ready : IsReady ss fd rec session current) where
  after_text :
      ss_read_file_content (server_after now ss fd rec session current).disk rec.filepath
      ≡ some (new_content current session)
  unfolding ss_read_file_content put
  after_text = rw (str_eq_refl rec.filepath) refl

  after_undo :
      str_eq rec.filepath rec.undopath ≡ false
      → ss_read_file_content (server_after now ss fd rec session current).disk rec.undopath
        ≡ some current
  unfolding ss_read_file_content put
  after_undo apart = rw (apart, str_eq_refl rec.undopath) refl

  after_named :
      (filename : CText)
      → ss_find_file ss filename ≡ some rec
      → record_at rec.address ss.files ≡ some rec
      → ss_find_file (server_after now ss fd rec session current) filename
        ≡ some (committed now rec session)
  unfolding ss_find_file ss_touch_file_metadata
  after_named filename named point =
      find_record-put_record filename ss.files rec (committed now rec session) named point refl refl

  after-IsWritable :
      IsWritable (server_after now ss fd rec session current).disk rec.filepath current
  unfolding put
  after-IsWritable = record { opens = ready.file_whole.opens; fits = ready.undo_whole.fits }

there :
    (ss : StorageServer) (rec : FileRecord) (text : CText)
    → ss_read_file_content ss.disk rec.undopath ≡ some text
    → file_exists ss.disk rec.undopath ≡ true
unfolding file_exists ss_read_file_content
there ss rec text h = ground arith

may_after :
    (now : ℕ) (rec : FileRecord) (session : WriteSession) (username : CText)
    → ss_check_write_access rec username ≡ true
    → ss_check_write_access (committed now rec session) username ≡ true
unfolding ss_check_write_access ss_touch_file_metadata
may_after now rec session username h = h

undo-answer :
    (now : ℕ) (ss : StorageServer) (filename username : CText) (rec : FileRecord) (text : CText)
    → ss_find_file ss filename ≡ some rec
    → ss_check_write_access rec username ≡ true
    → ss_file_has_active_writers rec.address ss.sessions ≡ false
    → rec.undo_available ≡ true
    → file_exists ss.disk rec.undopath ≡ true
    → ss_read_file_content ss.disk rec.undopath ≡ some text
    → IsWritable ss.disk rec.filepath text
    → handle_client_undo now ss (codes "REQ_UNDO" ∷ username ∷ filename ∷ []) ≡ (
      answered ((codes "OK_UNDO" ∷ []) ∷ []),
      record ss {
        files =
            put_record
              (ss_touch_file_metadata now (record rec { undo_available = false }) username true)
              ss.files;
        disk = put ss.disk rec.filepath text;
      },
    )
unfolding handle_client_undo undo_file
undo-answer now ss filename username rec text named may alone available exists read w =
    rw (handle_client_undo, named, undo_file, may, alone)
      (restored now ss rec username text available exists read w)

restored_text :
    (ss : StorageServer) (rec : FileRecord) (text : CText)
    → ss_read_file_content (put ss.disk rec.filepath text) rec.filepath ≡ some text
unfolding ss_read_file_content put
restored_text ss rec text = rw (str_eq_refl rec.filepath) refl

-- A commit whose session, file and disk are in order puts the working sentence in the place of the locked
-- span; if nobody else has a sentence of the file locked, an undo by a user with write access succeeds after it
-- and the file has its former text again.
pub undo_restores :
    (now later : ℕ) (ss : StorageServer) (fd : ℕ) (rec : FileRecord) (session : WriteSession)
    (current filename username : CText)
    → IsReady ss fd rec session current
    → ss_find_file ss filename ≡ some rec
    → record_at rec.address ss.files ≡ some rec
    → str_eq rec.filepath rec.undopath ≡ false
    → ss_check_write_access rec username ≡ true
    → ss_file_has_active_writers rec.address (sessions_after fd session current ss.sessions) ≡ false
    → (done : StorageServer) × (handle_client_etirw now ss fd
        ≡ some (answered ((codes "OK_WRITE_DONE" ∷ []) ∷ []), done))
      × (ss_read_file_content done.disk rec.filepath ≡ some (new_content current session))
      × (let undone = handle_client_undo later done (codes "REQ_UNDO" ∷ username ∷ filename ∷ []) in
          (undone.0 ≡ answered ((codes "OK_UNDO" ∷ []) ∷ []))
          × (ss_read_file_content undone.1.disk rec.filepath ≡ some current))
unfolding ss_touch_file_metadata
undo_restores now later ss fd rec session current filename username ready named point apart may
      alone =
    let done = server_after now ss fd rec session current in
    let read = after_undo now ss fd rec session current ready apart in
    (
      done,
      etirw-server_after now ss fd rec session current ready,
      after_text now ss fd rec session current ready,
      rw
          (undo-answer later done filename username (committed now rec session) current
            (after_named now ss fd rec session current ready filename named point)
            (may_after now rec session username may) (alone) (refl)
            (there done (committed now rec session) current (read)) (read)
            (after-IsWritable now ss fd rec session current ready))
          (refl, restored_text done (committed now rec session) current),
    )
