-- ===== src/Examples/Documents.antt =====
-- storage_server/: sentences, words, locks and commits.
use distributed_documentatio.Base.{
  codes, CText, ◌≡◌, ◌∷◌, ◌≤◌, [], ℕ, none, arith, some, false, true, refl, take, drop, str_eq,
  strn_eq, decimal,
}
use distributed_documentatio.Text.{trim_string, is_alnum}
use distributed_documentatio.Storage.Sentence.{ss_get_sentence_bounds}
use distributed_documentatio.Storage.Sentence.Bounds.{bounds_disjoint}
use distributed_documentatio.Storage.State.{
  StorageServer, FileRecord, WriteSession, Disk, put_content, ss_read_file_content, record_at,
  ss_find_file, ss_check_write_access,
}
use distributed_documentatio.Storage.Sessions.{
  shift_session, ss_find_session, ss_find_session_by_sentence, ss_file_has_active_writers,
  ss_detach_session, ss_update_active_sessions,
}
use distributed_documentatio.Storage.Writing.{handle_client_write_lock}
use distributed_documentatio.Protocol.Replies.{answered}
use distributed_documentatio.Storage.Writing.Locks.{is_exclusive, lock-is_exclusive}
use distributed_documentatio.Storage.Commit.{
  new_content, handle_client_etirw, handle_client_undo, bad_bounds, sessions_after,
}
use distributed_documentatio.Storage.Commit.Undo.{IsReady, put}
use distributed_documentatio.Storage.Commit.Restores.{undo_restores}
use distributed_documentatio.Acl.{same_user}
use distributed_documentatio.Storage.Checkpoints.{
  tag_copy, handle_client_checkpoint, ss_find_checkpoint, find_tag, checkpoint_path, tag_byte,
  build_path,
}
use distributed_documentatio.Storage.Revert.{handle_client_revert}
use distributed_documentatio.Storage.Revert.Steps.{IsFresh, created}
use distributed_documentatio.Storage.Revert.Tagged.{revert_restores}
use distributed_documentatio.Storage.Lifecycle.{
  ss_create_file, ss_delete_file, deleted, path_of, physical_name_of,
}
use distributed_documentatio.Storage.Lifecycle.Cycle.{create-delete}
use distributed_documentatio.Names.{flatten_logical_path}

abbrev text : CText
text = codes "One. Two. Three."

bounds_disjoint_example : 4 ≤ 10
unfolding ss_get_sentence_bounds
bounds_disjoint_example = bounds_disjoint text 0 2 (0, 4) (10, 16) (omega arith) refl refl

abbrev path : CText
path = codes "s/a"

abbrev undo_path : CText
undo_path = codes "s/a.undo"

abbrev document : FileRecord
document = record {
  address = 7;
  filename = codes "a";
  physical_name = codes "a";
  filepath = path;
  metapath = codes "s/a.meta";
  undopath = undo_path;
  owner = codes "ann";
  read_users = [];
  write_users = codes "bob" ∷ [];
  created = 1;
  modified = 1;
  last_access = 1;
  last_access_user = codes "ann";
  undo_available = false;
  checkpoints = [];
  migrating = false;
}

-- A session on a span of the document.
abbrev session_on : ℕ → ℕ → ℕ → ℕ → CText → WriteSession
session_on fd index start end working = record {
  client_fd = fd;
  file = 7;
  username = codes "bob";
  sentence_index = index;
  sentence_start = start;
  sentence_end = end;
  file_snapshot = text;
  sentence_working = working;
}

abbrev first_edit : WriteSession
first_edit = session_on 3 0 0 4 (codes "Number One.")

abbrev disk_before : Disk
disk_before = record {
  content = put_content (λ _. none) path text;
  writable = λ _. true;
  limit = 1000;
}

abbrev server : StorageServer
server = record {
  storage_path = codes "s";
  files = document ∷ [];
  sessions = first_edit ∷ [];
  disk = disk_before;
}

lock-is_exclusive_example :
    is_exclusive
      (handle_client_write_lock server 4
        (codes "LOCK" ∷ codes "ann" ∷ codes "a" ∷ codes "2" ∷ [])).1.sessions
    ≡ true
unfolding is_exclusive ss_find_session ss_find_session_by_sentence
lock-is_exclusive_example =
    lock-is_exclusive server 4 (codes "LOCK" ∷ codes "ann" ∷ codes "a" ∷ codes "2" ∷ []) refl

server-IsReady : IsReady server 3 document first_edit text
unfolding ss_find_session record_at ss_read_file_content str_eq bad_bounds new_content take drop
server-IsReady = record {
  found = refl;
  owned = refl;
  read = refl;
  bounds = refl;
  undo_whole = record { opens = refl; fits = omega arith };
  file_whole = record { opens = refl; fits = omega arith };
}

undo_restores_example :
    (done : StorageServer) × (handle_client_etirw 5 server 3
      ≡ some (answered ((codes "OK_WRITE_DONE" ∷ []) ∷ []), done))
    × (ss_read_file_content done.disk path ≡ some (codes "Number One. Two. Three."))
    × (let undone = handle_client_undo 6 done (codes "REQ_UNDO" ∷ codes "ann" ∷ codes "a" ∷ []) in
        (undone.0 ≡ answered ((codes "OK_UNDO" ∷ []) ∷ []))
        × (ss_read_file_content undone.1.disk path ≡ some text))
unfolding ss_find_file strn_eq str_eq take record_at ss_check_write_access same_user
    ss_file_has_active_writers sessions_after ss_detach_session ss_update_active_sessions
    shift_session new_content drop
undo_restores_example =
    undo_restores 5 6 server 3 document first_edit text (codes "a") (codes "ann") server-IsReady
      refl refl refl refl refl

abbrev idle_server : StorageServer
idle_server = record server { sessions = [] }

abbrev snapshot : CText
snapshot = codes "s/a.ckpt_5_v1"

idle_server-IsFresh :
    IsFresh 5 idle_server document (codes "a") (codes "ann") (tag_copy (codes " v1 ")) snapshot text
unfolding tag_copy trim_string take ss_find_file strn_eq str_eq ss_check_write_access same_user
    ss_file_has_active_writers ss_find_checkpoint find_tag checkpoint_path decimal tag_byte is_alnum
idle_server-IsFresh = record {
  some_tag = omega arith;
  named = refl;
  may = refl;
  idle = refl;
  fresh = refl;
  built = refl;
  read = refl;
  whole = record { opens = refl; fits = omega arith };
  room = omega arith;
}

revert_restores_example :
    let done =
      handle_client_checkpoint 5 idle_server
        (codes "REQ_CHECKPOINT" ∷ codes "ann" ∷ codes "a" ∷ codes " v1 " ∷ []) in
    let edited = record done.1 { disk = put done.1.disk path (codes "Gone.") } in
    let back =
      handle_client_revert 6 edited
        (codes "REQ_REVERT" ∷ codes "ann" ∷ codes "a" ∷ codes " v1 " ∷ []) in
    (done.0 ≡ created (tag_copy (codes " v1 ")))
    × (back.0 ≡ answered ((codes "OK_REVERT" ∷ codes "File reverted to 'v1'." ∷ []) ∷ []))
    × (back.1.disk.content path ≡ some text)
unfolding record_at str_eq take tag_copy trim_string
revert_restores_example =
    revert_restores 5 6 idle_server document (codes "a") (codes "ann") (codes " v1 ") snapshot text
      (codes "Gone.") idle_server-IsFresh refl refl refl
      (record { opens = refl; fits = omega arith }) (record { opens = refl; fits = omega arith })

create-delete_example :
    let (ok, ss') = ss_create_file 9 server 8 (codes "d/b") (some (codes "eve")) in
    let (result, ss'') = ss_delete_file ss' (codes "d/b") in
    (ok ≡ true)
    × (ss'.disk.content (codes "s/d_b") ≡ some [])
    × (result ≡ deleted)
    × (ss''.files ≡ document ∷ [])
    × (ss''.disk.content path ≡ some text)
unfolding path_of physical_name_of ss_find_file strn_eq str_eq take ss_file_has_active_writers
    build_path flatten_logical_path
create-delete_example =
    create-delete 9 server 8 (codes "d/b") (some (codes "eve")) refl (omega arith) refl path refl
