-- ===== src/Smtp/Loop.antt =====
-- The loop of a session in pkg/server/smtp/handler.go, over what the client sends.
use go_inbucket.Base.{
  Bool, true, false, none, some, List, [], ◌∷◌, ◌++◌, if◌then◌else◌, Bytes, bytes_eq, txt,
}
use go_inbucket.Smtp.Parse.{
  Command, rset, send_mail, soml, saml, vrfy, expn, help, noop, quit_session, turn, commands,
  parse_cmd,
}
use go_inbucket.Smtp.{
  State, greet, ready, login, password, mail, data_input, quit, Server, Session, new_session, send,
  enter_state, reset,
}
use go_inbucket.Storage.Dict.{lookup}
use go_inbucket.Smtp.Handler.{greet_handler, login_handler, password_handler, ready_handler}
use go_inbucket.Smtp.Transaction.{Read, got, eof, timeout, failed, mail_handler, data_handler}

module _ {W : Type 0} (srv : Server W) where
  -- The handler for the state that the session is in. In any other state the loop ends.
  unfoldable pub state_handler : State → Command → Bytes → Bytes → Session → Session × Bool
  unfolding greet_handler ready_handler mail_handler
  state_handler greet c cmd arg s = (greet_handler srv c cmd arg s, true)
  state_handler ready c cmd arg s = (ready_handler srv c cmd arg s, true)
  state_handler mail c cmd arg s = (mail_handler srv c cmd arg s, true)
  state_handler _ c cmd arg s = (s, false)

  -- The commands of any state, then the others.
  unfoldable pub command_handler : Command → Bytes → Bytes → Session → Session × Bool
  unfolding send state_handler txt
  command_handler send_mail cmd arg s =
      (send srv (txt "502 " ++ cmd ++ txt " command not implemented") s, true)
  command_handler soml cmd arg s =
      (send srv (txt "502 " ++ cmd ++ txt " command not implemented") s, true)
  command_handler saml cmd arg s =
      (send srv (txt "502 " ++ cmd ++ txt " command not implemented") s, true)
  command_handler expn cmd arg s =
      (send srv (txt "502 " ++ cmd ++ txt " command not implemented") s, true)
  command_handler help cmd arg s =
      (send srv (txt "502 " ++ cmd ++ txt " command not implemented") s, true)
  command_handler turn cmd arg s =
      (send srv (txt "502 " ++ cmd ++ txt " command not implemented") s, true)
  command_handler vrfy cmd arg s =
      (send srv (txt "252 Cannot VRFY user, but will accept message") s, true)
  command_handler noop cmd arg s = (send srv (txt "250 I have successfully done nothing") s, true)
  command_handler rset cmd arg s = (send srv (txt "250 Session reset") (reset s), true)
  command_handler quit_session cmd arg s =
      (enter_state quit (send srv (txt "221 Goodnight and good luck") s), true)
  command_handler c cmd arg s = state_handler s.state c cmd arg s

  -- A line that `readLine` returned, in a state that expects a command.
  unfoldable pub line_handler : Bytes → Session → Session × Bool
  unfolding send parse_cmd command_handler commands bytes_eq txt
  line_handler line s = elim (parse_cmd srv.platform.unicode line) [
    | none ↦ (send srv (txt "500 Syntax error, command garbled") s, true)
    | some (cmd, arg) ↦
        if bytes_eq cmd []
        then (send srv (txt "500 Speak up") s, true)
        else elim (lookup cmd commands) [
          | none ↦
              (send srv (txt "500 Syntax error, " ++ cmd ++ txt " command unrecognized") s, true)
          | some c ↦ command_handler c cmd arg s
        ]
  ]

  -- One round of the loop in a state other than DATA: the session, and whether the loop goes on.
  unfoldable pub read_handler : Read → Session → Session × Bool
  unfolding send line_handler login_handler password_handler txt
  read_handler eof s = (s, false)
  read_handler timeout s = (send srv (txt "221 Idle timeout, bye bye") s, false)
  read_handler failed s = (send srv (txt "221 Connection error, sorry") s, false)
  read_handler (got line) s = elim s.state [
    | login ↦ (login_handler srv s, true)
    | password ↦ (password_handler srv s, true)
    | _ ↦ line_handler line s
  ]

  unfoldable pub round : Read → Session × W → (Session × W) × Bool
  unfolding read_handler data_handler
  round r (s, w) = elim s.state [
    | data_input ↦ (data_handler srv r (s, w), true)
    | _ ↦ let (s', more) = read_handler r s in ((s', w), more)
  ]

  unfoldable pub is_done : Session → Bool
  is_done s = elim s.state [ quit ↦ true | _ ↦ s.send_error ]

  -- The loop, until the client sends no more, the session has quit, or a round ends it.
  unfoldable pub loop : List Read → Session × W → Session × W
  unfolding round is_done
  loop [] sw = sw
  loop (r ∷ rs) sw =
      let (sw', more) = round r sw in
      let rest = loop rs sw' in if is_done sw.0 then sw else if more then rest else sw'

  -- `startSession`: the greeting, then the loop.
  unfoldable pub start_session : Bytes → List Read → W → Session × W
  unfolding new_session send loop txt
  start_session host reads w = loop reads (
    send srv (txt "220 " ++ srv.root.smtp.domain ++ txt " Inbucket SMTP ready")
        (new_session srv host),
    w,
  )
