-- ===== src/Storage/Sessions.antt =====
-- storage_server/storage_server.c: the write sessions, a linked list with the newest first.
use distributed_documentatio.Storage.State.{WriteSession}
use distributed_documentatio.Acl.{max_username_length}
use distributed_documentatio.Base.{
  ℕ, List, Bool, CText, if◌then◌else◌, Option, ◌==◌, false, ◌∷◌, take, none, ◌&&◌, true, ◌-◌, ◌||◌,
  [], some, not, leb, ◌+◌,
}

unfoldable pub ss_find_session : ℕ → List WriteSession → Option WriteSession
ss_find_session client_fd [] = none
ss_find_session client_fd (s ∷ sessions) =
    if s.client_fd == client_fd then some s else ss_find_session client_fd sessions

-- The sessions of the file on that sentence.
unfoldable pub is_on : ℕ → ℕ → WriteSession → Bool
is_on file sentence_index s = s.file == file && s.sentence_index == sentence_index

unfoldable pub ss_find_session_by_sentence : ℕ → ℕ → List WriteSession → Option WriteSession
unfolding is_on
ss_find_session_by_sentence file sentence_index [] = none
ss_find_session_by_sentence file sentence_index (s ∷ sessions) =
    if is_on file sentence_index s
    then some s
    else ss_find_session_by_sentence file sentence_index sessions

unfoldable pub ss_file_has_active_writers : ℕ → List WriteSession → Bool
ss_file_has_active_writers file [] = false
ss_file_has_active_writers file (s ∷ sessions) =
    if s.file == file then true else ss_file_has_active_writers file sessions

-- What is left; the session itself is the one that `ss_find_session` returns.
unfoldable pub ss_detach_session : ℕ → List WriteSession → List WriteSession
ss_detach_session client_fd [] = []
ss_detach_session client_fd (s ∷ sessions) =
    if s.client_fd == client_fd then sessions else s ∷ ss_detach_session client_fd sessions

unfoldable pub ss_create_session :
    ℕ → ℕ → CText → ℕ → ℕ → ℕ → CText → CText → List WriteSession → List WriteSession
ss_create_session client_fd file username sentence_index start_offset end_offset file_snapshot
      sentence_text sessions =
    record {
      client_fd = client_fd;
      file = file;
      username = take (max_username_length - 1) username;
      sentence_index = sentence_index;
      sentence_start = start_offset;
      sentence_end = end_offset;
      file_snapshot = file_snapshot;
      sentence_working = sentence_text;
    }
    ∷ sessions

-- session->sentence_working = joined, through the pointer that `ss_find_session` returns.
unfoldable pub put_working : ℕ → CText → List WriteSession → List WriteSession
put_working client_fd working [] = []
put_working client_fd working (s ∷ sessions) =
    if s.client_fd == client_fd
    then record s { sentence_working = working } ∷ sessions
    else s ∷ put_working client_fd working sessions

-- The body of the loop of `ss_update_active_sessions`; an index that would be negative is 0. The
-- offsets are size_t: they do not leave it, since no text is that long.
unfoldable pub shift_session : ℕ → ℕ → ℕ → ℕ → ℕ → ℕ → ℕ → WriteSession → WriteSession
shift_session exclude_fd file edit_start old_len new_len new_sentences old_sentences s =
    if s.client_fd == exclude_fd || not (s.file == file)
    then s
    else if leb (edit_start + old_len) s.sentence_start
    then record s {
      sentence_start = s.sentence_start + new_len - old_len;
      sentence_end = s.sentence_end + new_len - old_len;
      sentence_index = s.sentence_index + new_sentences - old_sentences;
    }
    else s

-- The excluded session is the only one of the client `exclude_fd`.
unfoldable pub ss_update_active_sessions :
    ℕ → ℕ → ℕ → ℕ → ℕ → ℕ → ℕ → List WriteSession → List WriteSession
ss_update_active_sessions exclude_fd file edit_start old_len new_len new_sentences old_sentences
      [] =
    []
ss_update_active_sessions exclude_fd file edit_start old_len new_len new_sentences old_sentences
      (s ∷ sessions) =
    shift_session exclude_fd file edit_start old_len new_len new_sentences old_sentences s
    ∷ ss_update_active_sessions exclude_fd file edit_start old_len new_len new_sentences
        old_sentences sessions
