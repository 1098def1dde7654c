-- ===== src/Examples/Connections.antt =====
-- name_server/: the exchange with storage servers, sessions and connections.
use distributed_documentatio.Base.{
  all, CText, codes, [], false, true, ◌∷◌, arith, strn_eq, ◌≡◌, none, str_eq, refl, some, take, ◌⊎◌,
  inr,
}
use distributed_documentatio.NameServer.Exchange.System.{
  Step, Pc, is_busy, System, called, Run, fresh_line, update, initial, returned, queued, waiting,
  then_step, here, call, send, answer,
}
use distributed_documentatio.Acl.Laws.{is_distinct}
use distributed_documentatio.NameServer.Exchange.{
  send_command, Outcome, dispatch, got, take_response, Message, storage_server_signal_failure,
}
use distributed_documentatio.Acl.{acl_contains, same_user}
use distributed_documentatio.Base.Int.{pos}
use distributed_documentatio.NameServer.Exchange.Alone.{alone_answers, alone_returns}
use distributed_documentatio.NameServer.Exchange.Swapped.{notice_returned, answers_swapped}
use distributed_documentatio.NameServer.Clients.Sessions.{
  are_distinct, Registered, register_client_exact,
}
use distributed_documentatio.NameServer.Connections.Entries.{
  are_off, reconnects, hundred_reconnects,
}
use distributed_documentatio.NameServer.Csv.{join_commas, file_acl_parse_csv}
use distributed_documentatio.NameServer.Connections.{
  ns_max_storage_servers, ns_register_storage_server,
}
use distributed_documentatio.Names.{validate_username, is_user_text}
use distributed_documentatio.NameServer.Clients.{ns_register_client}
use distributed_documentatio.Text.{is_alnum}
use distributed_documentatio.NameServer.Csv.Trip.{parse-join_commas}

-- A command is sent.
abbrev command : CText
command = codes "READ"

abbrev asked : System
asked = record {
  line = send_command command fresh_line;
  pc = update (update (λ _. Pc.idle) 0 (queued command)) 0 (waiting command);
}

alone_returns_example :
    (t : System) × (o : Outcome) × Run false false asked t
    × (t.pc 0 ≡ returned command o)
    × ((asked.line.response_ready ≡ true)
        ⊎ (o ≡ got (record { origin = some command; text = codes "OK" })))
unfolding called is_busy
alone_returns_example =
    alone_returns 0 command (codes "OK")
      (then_step (then_step here (call initial 0 command refl (inr (λ j. refl))))
        (send _ 0 command refl refl refl))
      refl

alone_answers_example : some command ≡ some command
unfolding called is_busy send_command dispatch take_response
alone_answers_example =
    alone_answers 0 command (record { origin = some command; text = codes "OK" })
      (then_step
        (then_step
          (then_step (then_step here (call initial 0 command refl (inr (λ j. refl))))
            (send _ 0 command refl refl refl))
          (answer _ command (codes "OK") [] refl))
        (Step.take _ 0 command refl refl))
      refl

answers_swapped_example :
    (s : System) × Run true false initial s
    × (s.pc 0
        ≡ returned command (got (record { origin = some (codes "INFO"); text = codes "OK|2" })))
    × (s.pc 1 ≡ waiting (codes "INFO"))
    × (s.line.pending ≡ [])
    × ((m : Message) → (dispatch m s.line).response_ready ≡ false)
    × ((storage_server_signal_failure s.line).response_ready ≡ false)
answers_swapped_example = answers_swapped command (codes "INFO") (codes "OK|1") (codes "OK|2")

notice_returned_example :
    (s : System) × Run false true initial s
    × (s.pc 0 ≡ returned command (got (record { origin = none; text = codes "WRITE_COMPLETE" })))
notice_returned_example = notice_returned command (codes "WRITE_COMPLETE")

register_client_exact_example :
    Registered (codes "ann") [] (ns_register_client (codes "ann") (pos 7) [])
unfolding are_distinct
register_client_exact_example =
    register_client_exact (codes "ann") (pos 7) [] (omega arith)
      (record { distinct = refl; fit = omega arith })

hundred_reconnects_example :
    (are_off
        (reconnects ns_max_storage_servers 1 (codes "10.0.0.1") 8000 (codes "10.0.0.1") 9000 5 [])
      ≡ true)
    × (ns_register_storage_server 1
          (codes "10.0.0.2")
          8000
          (codes "10.0.0.2")
          9001
          (pos 6)
          (reconnects ns_max_storage_servers 1 (codes "10.0.0.1") 8000 (codes "10.0.0.1") 9000 5 [])
        ≡ none)
hundred_reconnects_example =
    hundred_reconnects 1 (codes "10.0.0.1") 8000 (codes "10.0.0.1") 9000 5 (codes "10.0.0.2") 8000
      (codes "10.0.0.2") 9001 (pos 6)

parse-join_commas_example : file_acl_parse_csv (codes "ann,bob") ≡ codes "ann" ∷ codes "bob" ∷ []
unfolding join_commas is_distinct acl_contains same_user strn_eq str_eq take validate_username
    is_user_text is_alnum all
parse-join_commas_example =
    parse-join_commas (codes "ann" ∷ codes "bob" ∷ []) (refl, (refl, tt)) refl (omega arith)
      (omega arith)
