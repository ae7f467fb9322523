-- ===== src/Tests/Pop3Runs.antt =====
-- A whole session of pkg/server/pop3 over the memory store.
use go_inbucket.Base.{
  ◌<◌, ◌≡◌, refl, true, false, ◌&&◌, ◌||◌, none, List, [], ◌∷◌, ◌++◌, bytes_eq, if◌then◌else◌, txt,
}
use go_inbucket.Config.{Pop3}
use go_inbucket.GoText.Decimal.{itoa}
use go_inbucket.Pop3.{Server, World, Mail, Session, new_session}
use go_inbucket.Pop3.Deletes.{is_marked, quit_handler-lookup}
use go_inbucket.Pop3.Framing.{Reads, top_of, after_end, send_message-Reads, send_message_top-Reads}
use go_inbucket.Pop3.Invariant.{IsCounted}
use go_inbucket.Pop3.Invariant.Run.{round-answers, start_session-IsCounted}
use go_inbucket.Pop3.Lines.{max_token, scan_lines}
use go_inbucket.Pop3.Listing.{Agrees, list_handler-Agrees, dele_message-is_marked}
use go_inbucket.Pop3.Loop.{is_done, round, start_session}
use go_inbucket.Pop3.Memory.{memory_server}
use go_inbucket.Pop3.Transaction.{send_message, send_message_top, dele_message, quit_handler}
use go_inbucket.Pop3.Unquit.{start_session-messages_of}
use go_inbucket.Smtp.Transaction.{Read, got, eof}
use go_inbucket.Storage.Dict.{lookup}
use go_inbucket.Storage.Mem.{Store, get_messages}
use go_inbucket.Storage.Mem.Valid.{run, messages_of}
use go_inbucket.Tests.SmtpRuns.{ascii_only}
use go_inbucket.Tests.StorageRuns.{stored_two, fred}

abbrev pop3_config : Pop3
pop3_config = record { domain = txt "inbucket"; tls_enabled = false; force_tls = false }

abbrev pop3_server : Server Store
pop3_server = memory_server pop3_config ascii_only (λ n. true) (λ s. true) 1 7

abbrev pop3_world : World Store
pop3_world = record { store = stored_two; tls = false }

abbrev pop3_lines : List Read
pop3_lines =
    got (txt "STAT")
    ∷ got (txt "USER fred")
    ∷ got (txt "PASS x")
    ∷ got (txt "DELE 2")
    ∷ got (txt "LIST")
    ∷ got (txt "dele 2")
    ∷ got (txt "RETR 1")
    ∷ got (txt "TOP 3 0")
    ∷ got (txt "QUIT")
    ∷ eof
    ∷ []

pop3_session_runs :
    (start_session pop3_server pop3_lines pop3_world).0.out
    ≡ txt "+OK Inbucket POP3 server ready <1.7@inbucket>"
      ∷ txt "-ERR Command STAT is out of sequence"
      ∷ txt "+OK Hello fred, welcome to Inbucket"
      ∷ txt "+OK Found 2 messages for fred"
      ∷ txt "+OK Deleted message 2"
      ∷ txt "+OK Listing 1 messages"
      ∷ txt "1 10"
      ∷ txt "."
      ∷ txt "-ERR Message 2 has already been deleted"
      ∷ txt "+OK 10 bytes follows"
      ∷ txt "Subject: a"
      ∷ txt "."
      ∷ txt "-ERR TOP first argument must not exceed the number of messages"
      ∷ txt "+OK We will process your deletes"
      ∷ []
unfolding start_session txt bytes_eq itoa get_messages run
pop3_session_runs = refl

-- A mailbox of which the second message is marked.
abbrev marking_lines : List Read
marking_lines = got (txt "USER fred") ∷ got (txt "PASS x") ∷ got (txt "DELE 2") ∷ []

abbrev marking : Session × World Store
marking = start_session pop3_server marking_lines pop3_world

start_session-IsCounted_example : IsCounted marking.0
start_session-IsCounted_example = start_session-IsCounted pop3_server marking_lines pop3_world

round-answers_example : marking.0.writes < (round pop3_server (got (txt "STAT")) marking).0.0.writes
unfolding start_session txt bytes_eq itoa get_messages run is_done
round-answers_example =
    round-answers pop3_server (txt "STAT") marking.0 marking.1
      (start_session-IsCounted pop3_server marking_lines pop3_world) refl

quit_handler-lookup_example :
    lookup (txt "2") (messages_of fred (quit_handler pop3_server marking).1.store) ≡ (
      if bytes_eq marking.0.user fred && is_marked (txt "2") marking.0.messages marking.0.retain
      then none
      else lookup (txt "2") (messages_of fred marking.1.store))
quit_handler-lookup_example =
    quit_handler-lookup pop3_config ascii_only (λ n. true) (λ s. true) 1 7 fred (txt "2") marking.0
      marking.1 (start_session-IsCounted pop3_server marking_lines pop3_world).paired

-- That message is marked.
marked_runs :
    (bytes_eq marking.0.user fred && is_marked (txt "2") marking.0.messages marking.0.retain) ≡ true
unfolding start_session txt bytes_eq itoa get_messages run
marked_runs = refl

start_session-messages_of_example :
    messages_of fred marking.1.store ≡ messages_of fred pop3_world.store
unfolding start_session txt bytes_eq itoa get_messages run
start_session-messages_of_example =
    start_session-messages_of pop3_config ascii_only (λ n. true) (λ s. true) 1 7 marking_lines
      pop3_world fred (λ e. cc)

list_handler-Agrees_example : Agrees pop3_server (txt "LIST") (λ m. itoa m.size) marking.0
list_handler-Agrees_example =
    list_handler-Agrees pop3_server (λ n. refl) (txt "LIST") (λ m. itoa m.size) marking.0
      (start_session-IsCounted pop3_server marking_lines pop3_world)

-- A session with two messages, neither of which is marked.
abbrev a_mail : Mail
a_mail = record { id = txt "1"; size = 9; held = txt "A: b\n\n.c\nd" }

abbrev b_mail : Mail
b_mail = record { id = txt "2"; size = 0; held = [] }

abbrev fresh : Session
fresh = record new_session {
  user = fred;
  messages = a_mail ∷ b_mail ∷ [];
  retain = true ∷ true ∷ [];
  msg_count = 2;
}

marked_by_dele :
    (is_marked
        (txt "2")
        (dele_message pop3_server 2 fresh).messages
        (dele_message pop3_server 2 fresh).retain
      ≡ (bytes_eq b_mail.id (txt "2") || is_marked (txt "2") fresh.messages fresh.retain))
    × ((dele_message pop3_server 2 fresh).messages ≡ fresh.messages)
    × ((dele_message pop3_server 2 fresh).user ≡ fresh.user)
marked_by_dele = dele_message-is_marked pop3_server 2 b_mail (txt "2") fresh refl refl

send_message-Reads_example :
    Reads fresh.out
      (send_message pop3_server a_mail pop3_world fresh)
      (scan_lines max_token a_mail.held).0
      (after_end (scan_lines max_token a_mail.held).1)
send_message-Reads_example =
    send_message-Reads pop3_server (λ n. refl) a_mail pop3_world fresh a_mail.held refl

top_read_back :
    Reads fresh.out
      (send_message_top pop3_server 1 a_mail pop3_world fresh)
      (top_of 1 (scan_lines max_token a_mail.held).0)
      []
unfolding scan_lines txt bytes_eq
top_read_back =
    send_message_top-Reads pop3_server (λ n. refl) 1 a_mail pop3_world fresh a_mail.held refl refl

-- TOP 1 shows the header and one line of the body.
top_runs :
    (send_message_top pop3_server 1 a_mail pop3_world fresh).out
    ≡ txt "A: b" ∷ [] ∷ txt "..c" ∷ txt "." ∷ []
unfolding send_message_top txt bytes_eq new_session
top_runs = refl

-- A message that is marked for deletion can still be retrieved.
retr_marked_runs :
    (start_session pop3_server (marking_lines ++ got (txt "RETR 2") ∷ []) pop3_world).0.out
    ≡ marking.0.out ++ txt "+OK 10 bytes follows" ∷ txt "Subject: a" ∷ txt "." ∷ []
unfolding start_session txt bytes_eq itoa get_messages run
retr_marked_runs = refl

abbrev tls_server : Server Store
tls_server =
    memory_server (record { domain = txt "inbucket"; tls_enabled = true; force_tls = false })
      ascii_only (λ n. true) (λ s. false) 1 7

-- One STLS, whose handshake fails, and no later session can have TLS, as it is taken to have it.
tls_state_runs :
    (start_session tls_server (got (txt "STLS") ∷ []) pop3_world).1.tls ≡ true
    × ((start_session tls_server
          (got (txt "STLS") ∷ [])
          (start_session tls_server (got (txt "STLS") ∷ []) pop3_world).1).0.out
        ≡ txt "+OK Inbucket POP3 server ready <1.7@inbucket>"
          ∷ txt "-ERR A TLS session already agreed upon."
          ∷ [])
unfolding start_session txt bytes_eq itoa get_messages run
tls_state_runs = (refl, refl)
