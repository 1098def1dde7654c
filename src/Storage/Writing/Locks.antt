-- ===== src/Storage/Writing/Locks.antt =====
-- No sentence is locked twice.
use distributed_documentatio.Base.Int.{pos, negsuc}
use distributed_documentatio.Storage.State.{
  StorageServer, FileRecord, WriteSession, ss_check_write_access, ss_find_file,
  ss_read_file_content,
}
use distributed_documentatio.Storage.Sentence.{ss_get_sentence_bounds}
use distributed_documentatio.Storage.Numbers.{parse_int}
use distributed_documentatio.Storage.Sessions.{
  ss_find_session, ss_find_session_by_sentence, ss_detach_session, ss_create_session,
}
use distributed_documentatio.Storage.Writing.{
  lock_sentence, lock_at, handle_client_write_lock, ss_abort_session, List, ℕ,
}
use distributed_documentatio.Base.{
  Option, List, ℕ, Bool, ◌≡◌, CText, true, some, ◌∷◌, none, false, ◌&&◌, arith, Bool-cases, [], inr,
  refl, inl, Option-cases, ◌==◌,
}

abbrev absent : Option WriteSession → Bool
absent none = true
absent (some _) = false

absent-none : (o : Option WriteSession) → absent o ≡ true → o ≡ none
absent-none none h = refl
absent-none (some s) h = absurd (ground arith)

-- No client has two sessions, and no sentence of a file is in two.
unfoldable pub is_exclusive : List WriteSession → Bool
is_exclusive [] = true
is_exclusive (s ∷ sessions) =
    absent (ss_find_session s.client_fd sessions)
    && absent (ss_find_session_by_sentence s.file s.sentence_index sessions)
    && is_exclusive sessions

-- The client has no session once it is detached.
find-detach :
    (fd : ℕ) (sessions : List WriteSession)
    → is_exclusive sessions ≡ true
    → ss_find_session fd (ss_detach_session fd sessions) ≡ none
unfolding is_exclusive ss_find_session ss_detach_session
find-detach fd [] h = refl
find-detach fd (s ∷ sessions) h = elim (Bool-cases (s.client_fd == fd)) [
  | inl e ↦
      let same : s.client_fd ≡ fd = ground arith in
      let alone : absent (ss_find_session s.client_fd sessions) ≡ true = ground arith in
      let gone : ss_find_session fd sessions ≡ none = absent-none _ (rw same at alone) in rw e gone
  | inr e ↦ rw (e, e) (find-detach fd sessions (ground arith))
]

absent_find-detach :
    (fd gd : ℕ) (sessions : List WriteSession)
    → absent (ss_find_session gd sessions) ≡ true
    → absent (ss_find_session gd (ss_detach_session fd sessions)) ≡ true
unfolding ss_find_session ss_detach_session
absent_find-detach fd gd [] h = refl
absent_find-detach fd gd (s ∷ sessions) h = ground (arith, absent_find-detach fd gd sessions)

absent_sentence-detach :
    (fd file i : ℕ) (sessions : List WriteSession)
    → absent (ss_find_session_by_sentence file i sessions) ≡ true
    → absent (ss_find_session_by_sentence file i (ss_detach_session fd sessions)) ≡ true
unfolding ss_find_session_by_sentence ss_detach_session
absent_sentence-detach fd file i [] h = refl
absent_sentence-detach fd file i (s ∷ sessions) h =
    ground (arith, absent_sentence-detach fd file i sessions)

detach-is_exclusive :
    (fd : ℕ) (sessions : List WriteSession)
    → is_exclusive sessions ≡ true
    → is_exclusive (ss_detach_session fd sessions) ≡ true
unfolding is_exclusive ss_detach_session
detach-is_exclusive fd [] h = refl
detach-is_exclusive fd (s ∷ sessions) h = ground (
  arith,
  detach-is_exclusive fd sessions,
  absent_find-detach fd s.client_fd sessions,
  absent_sentence-detach fd s.file s.sentence_index sessions,
)

lock_sentence-is_exclusive :
    (ss : StorageServer) (fd i : ℕ) (rec : FileRecord) (username text : CText)
    → is_exclusive ss.sessions ≡ true
    → ss_find_session fd ss.sessions ≡ none
    → is_exclusive (lock_sentence ss fd rec username i text).1.sessions ≡ true
unfolding lock_sentence
lock_sentence-is_exclusive ss fd i rec username text h gone =
    elim (Bool-cases (ss_check_write_access rec username)) [
      | inr e ↦ rw (e, lock_sentence) h
      | inl e ↦ elim (Option-cases (ss_find_session_by_sentence rec.address i ss.sessions)) [
        | inr (s, f) ↦ rw (e, lock_sentence, f) h
        | inl f ↦ elim (Option-cases (ss_read_file_content ss.disk rec.filepath)) [
          | inl g ↦ rw (e, lock_sentence, f, g) h
          | inr (current, g) ↦ elim (Option-cases (ss_get_sentence_bounds current i)) [
            | inl b ↦ rw (e, lock_sentence, f, g, b) h
            | inr (bounds, b) ↦
                rw (e, lock_sentence, f, g, b)
                  (unfold is_exclusive ss_create_session in rw (gone, f) h)
          ]
        ]
      ]
    ]

lock_at-is_exclusive :
    (ss : StorageServer) (fd i : ℕ) (username filename text : CText)
    → is_exclusive ss.sessions ≡ true
    → ss_find_session fd ss.sessions ≡ none
    → is_exclusive (lock_at ss fd username filename i text).1.sessions ≡ true
unfolding lock_at
lock_at-is_exclusive ss fd i username filename text h gone =
    elim (Option-cases (ss_find_file ss filename)) [
      | inl e ↦ rw (e, lock_at) h
      | inr (rec, e) ↦ rw (e, lock_at) (lock_sentence-is_exclusive ss fd i rec username text h gone)
    ]

-- Whatever is asked for, a lock request leaves every client at most one session and every sentence of a
-- file in at most one.
pub lock-is_exclusive :
    (ss : StorageServer) (fd : ℕ) (fields : List CText)
    → is_exclusive ss.sessions ≡ true
    → is_exclusive (handle_client_write_lock ss fd fields).1.sessions ≡ true
unfolding handle_client_write_lock
lock-is_exclusive ss fd [] h = h
lock-is_exclusive ss fd (_ ∷ []) h = h
lock-is_exclusive ss fd (_ ∷ _ ∷ []) h = h
lock-is_exclusive ss fd (_ ∷ _ ∷ _ ∷ []) h = h
lock-is_exclusive ss fd (_ ∷ username ∷ filename ∷ text ∷ _) h =
    elim (Option-cases (parse_int text)) [
      | inl e ↦ rw (e, handle_client_write_lock) h
      | inr (negsuc n, e) ↦ rw (e, handle_client_write_lock) h
      | inr (pos n, e) ↦
          rw (e, handle_client_write_lock)
            (lock_at-is_exclusive (ss_abort_session ss fd) fd n username filename text
              (unfold ss_abort_session in detach-is_exclusive fd ss.sessions h)
              (unfold ss_abort_session in find-detach fd ss.sessions h))
    ]
