-- ===== src/Examples/Entries.antt =====
-- name_server/: the requests that add, find and delete files, and the messages of storage servers.
use distributed_documentatio.Base.{
  all, codes, [], ◌∷◌, strn_eq, none, str_eq, refl, some, take, subst, ap, ℕ, CText, ◌⊎◌, decimal,
  ◌≡◌, false, true, Option,
}
use distributed_documentatio.NameServer.Servers.{StorageServerInfo}
use distributed_documentatio.NameServer.Registry.{register_file}
use distributed_documentatio.NameServer.Index.{
  stored_filename, file_index_find, find_node, file_index_insert, bucket_of,
}
use distributed_documentatio.NameServer.State.{holds_file, is_empty}
use distributed_documentatio.NameServer.Sync.Totals.{
  IsCountable, AreCounted, write_complete-AreCounted,
}
use distributed_documentatio.NameServer.Connections.{load_of}
use distributed_documentatio.Names.{validate_filename}
use distributed_documentatio.NameServer.Sync.{indexed_file, handle_write_complete}
use distributed_documentatio.Text.Digits.{read_int, read_digits, read_sign, is_digit, signed}
use distributed_documentatio.Text.{skip_spaces, is_space}
use distributed_documentatio.NameServer.Registry.Names.{file_named}
use distributed_documentatio.Examples.Server.{
  name_server, one_file, server, silent, one_file-IsConsistent, file, says,
}
use distributed_documentatio.NameServer.Deletion.Exact.{Deletes, delete_exact}
use distributed_documentatio.NameServer.Deletion.{handle_delete}
use distributed_documentatio.NameServer.Copying.Permitted.{MayCopy, copy_permitted}
use distributed_documentatio.NameServer.Info.{handle_info, info_lines}
use distributed_documentatio.NameServer.Copying.{handle_copy}
use distributed_documentatio.NameServer.Sharing.Grants.{is_answered}
use distributed_documentatio.NameServer.Files.{FileMetadata, file_has_read_access}
use distributed_documentatio.Protocol.Replies.{answered}
use distributed_documentatio.NameServer.Info.Readers.{info_exact}
use distributed_documentatio.NameServer.Execution.Readers.{MayRead, exec_permitted}
use distributed_documentatio.NameServer.Execution.{handle_exec}

server-IsCountable : IsCountable server file
server-IsCountable = ((20, refl), λ h. refl)

write_complete-AreCounted_example :
    (after : StorageServerInfo) × AreCounted
      (handle_write_complete 4 0
        (name_server one_file [])
        (codes "WRITE_COMPLETE" ∷ codes "a" ∷ codes "35" ∷ codes "7" ∷ codes "35" ∷ []))
      0
      after
unfolding register_file load_of holds_file strn_eq str_eq take read_int read_digits read_sign
    is_digit signed skip_spaces is_space indexed_file file_index_find find_node file_index_insert
    bucket_of stored_filename
write_complete-AreCounted_example =
    write_complete-AreCounted 4 0 (name_server one_file []) server (codes "WRITE_COMPLETE")
      (codes "a") (codes "35") (codes "7") (codes "35") [] 35 refl (refl, refl, refl)
      (λ i f h.
        subst (IsCountable server) (ap (λ o. elim o [ none ↦ file | some q ↦ q.1 ]) h)
          server-IsCountable)

delete_exact_example : Deletes (codes "ann") (codes "a") (name_server one_file []) (
    handle_delete
      (says (codes "OK_DELETE"))
      (codes "ann")
      (name_server one_file [])
      (codes "DELETE" ∷ codes "a" ∷ []))
delete_exact_example =
    delete_exact (says (codes "OK_DELETE")) (codes "ann") (codes "DELETE") (codes "a") []
      (name_server one_file []) one_file-IsConsistent

copy_permitted_example :
    MayCopy (codes "bob") (codes "a") (codes "b") one_file
    ⊎ (handle_copy silent 6
          (codes "bob")
          (name_server one_file [])
          (codes "COPY" ∷ codes "a" ∷ codes "b" ∷ [])
        ≡ handle_copy
            (says (codes "OK"))
            6
            (codes "bob")
            (name_server one_file [])
            (codes "COPY" ∷ codes "a" ∷ codes "b" ∷ []))
copy_permitted_example =
    copy_permitted silent (says (codes "OK")) 6 (codes "bob") (codes "COPY") (codes "a") (codes "b")
      [] (name_server one_file []) one_file-IsConsistent

-- A time is written as a number of seconds.
abbrev seconds : ℕ → CText
seconds = decimal

info_exact_example :
    ((j : CText)
      → file_named
          (handle_info seconds
            (codes "bob")
            (name_server one_file [])
            (codes "INFO" ∷ codes "a" ∷ [])).1.registry
          j
        ≡ file_named one_file j)
    × (((is_answered
              (handle_info seconds
                (codes "bob")
                (name_server one_file [])
                (codes "INFO" ∷ codes "a" ∷ [])).0
            ≡ false)
          × ((f : FileMetadata)
              → file_named one_file (codes "a") ≡ some f
              → file_has_read_access f (codes "bob") ≡ false))
        ⊎ ((f : FileMetadata) × (file_named one_file (codes "a") ≡ some f)
            × (file_has_read_access f (codes "bob") ≡ true)
            × ((handle_info seconds
                  (codes "bob")
                  (name_server one_file [])
                  (codes "INFO" ∷ codes "a" ∷ [])).0
                ≡ answered (info_lines seconds f))))
unfolding validate_filename is_empty all
info_exact_example =
    info_exact seconds (codes "bob") (codes "INFO") (codes "a") [] (name_server one_file [])
      one_file-IsConsistent refl refl

-- A shell that prints what it is given.
abbrev echo : CText → Option CText
echo command = some command

exec_permitted_example :
    (MayRead (codes "eve") (codes "a") one_file)
    ⊎ ((is_answered
            (handle_exec
              (says (codes "OK_CONTENT|a|ls"))
              echo
              7
              (codes "eve")
              (name_server one_file [])
              (codes "EXEC" ∷ codes "a" ∷ [])).0
          ≡ false)
        × (handle_exec
              (says (codes "OK_CONTENT|a|ls"))
              echo
              7
              (codes "eve")
              (name_server one_file [])
              (codes "EXEC" ∷ codes "a" ∷ [])
            ≡ handle_exec silent
                (λ _. none)
                7
                (codes "eve")
                (name_server one_file [])
                (codes "EXEC" ∷ codes "a" ∷ [])))
exec_permitted_example =
    exec_permitted (says (codes "OK_CONTENT|a|ls")) silent echo (λ _. none) 7 (codes "eve")
      (codes "EXEC") (codes "a") [] (name_server one_file []) one_file-IsConsistent
