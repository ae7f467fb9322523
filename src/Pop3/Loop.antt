-- ===== src/Pop3/Loop.antt =====
-- `authorizationHandler` and the loop of a session in pkg/server/pop3/handler.go.
use go_inbucket.Base.{
  Bool, true, false, not, ◌&&◌, ◌||◌, none, some, List, [], ◌∷◌, ◌++◌, if◌then◌else◌, Bytes,
  bytes_eq, txt,
}
use go_inbucket.GoText.{Unicode, to_upper, trim_right, split_parts}
use go_inbucket.GoText.Decimal.{itoa}
use go_inbucket.Pop3.{
  State, authorization, transaction, quit, Server, World, Session, new_session, send, send_all,
  enter_state, oo_seq, load_mailbox,
}
use go_inbucket.Pop3.Transaction.{
  Command, quit_session, stat, list, retr, dele, noop, rset, top, uidl, user, pass, apop, stls,
  transaction_handler,
}
use go_inbucket.Smtp.Transaction.{Read, got, eof, timeout, failed}
use go_inbucket.Storage.Dict.{Dict, lookup}

unfoldable pub commands : Dict Command
unfolding txt
commands =
    (txt "QUIT", quit_session)
    ∷ (txt "STAT", stat)
    ∷ (txt "LIST", list)
    ∷ (txt "RETR", retr)
    ∷ (txt "DELE", dele)
    ∷ (txt "NOOP", noop)
    ∷ (txt "RSET", rset)
    ∷ (txt "TOP", top)
    ∷ (txt "UIDL", uidl)
    ∷ (txt "USER", user)
    ∷ (txt "PASS", pass)
    ∷ (txt "APOP", apop)
    ∷ (txt "STLS", stls)
    ∷ []

-- What CAPA always lists.
abbrev pub capabilities : List Bytes
capabilities = txt "TOP" ∷ txt "USER" ∷ txt "UIDL" ∷ txt "IMPLEMENTATION Inbucket" ∷ []

-- `parseCmd`.
unfoldable pub parse_cmd : Unicode → Bytes → Bytes × List Bytes
unfolding trim_right split_parts to_upper bytes_eq
parse_cmd u raw =
    let line = trim_right (b'\r' ∷ b'\n' ∷ []) raw in
    if bytes_eq line []
    then ([], [])
    else (to_upper u (split_parts b' ' line).0, (split_parts b' ' line).1)

-- A panic ends the session.
unfoldable pub is_done : Session → Bool
is_done s = elim s.state [ quit ↦ true | _ ↦ s.send_error || s.panicked ]

-- The greeting, with the parts of a time stamp for APOP.
unfoldable pub greeting : {W : Type 0} → Server W → Bytes
unfolding txt itoa
greeting srv =
    txt "+OK Inbucket POP3 server ready <"
    ++ itoa srv.pid
    ++ b'.' ∷ itoa srv.now
    ++ b'@' ∷ srv.config.domain
    ++ b'>' ∷ []

module _ {W : Type 0} (srv : Server W) where
  -- The end of PASS and of APOP.
  unfoldable pub enter_mailbox : Session × World W → Session × World W
  unfolding send load_mailbox txt itoa
  enter_mailbox sw =
      let (s, w) = load_mailbox srv sw in
      (
        enter_state transaction
            (send srv (txt "+OK Found " ++ itoa s.msg_count ++ txt " messages for " ++ s.user) s),
        w,
      )

  -- STLS. A handshake that fails is told of, and then taken for one that did not.
  unfoldable pub stls_handler : Bytes → Session × World W → Session × World W
  unfolding send oo_seq txt
  stls_handler cmd (s, w) =
      if not srv.config.tls_enabled || srv.config.force_tls
      then (send srv (txt "-ERR TLS unavailable on the server") s, w)
      else if w.tls
      then (send srv (txt "-ERR A TLS session already agreed upon.") s, w)
      else let s' = send srv (txt "+OK Begin TLS Negotiation") s in
        (if srv.handshake w.store then s' else oo_seq srv cmd s', record w { tls = true })

  unfoldable pub authorization_handler :
      Command → Bytes → List Bytes → Session × World W → Session × World W
  unfolding send oo_seq stls_handler enter_mailbox txt bytes_eq
  authorization_handler quit_session cmd args (s, w) =
      (enter_state quit (send srv (txt "+OK Goodnight and good luck") s), w)
  authorization_handler stls cmd args sw = stls_handler cmd sw
  authorization_handler user cmd [] (s, w) = (send srv (txt "-ERR Missing username argument") s, w)
  authorization_handler user cmd (name ∷ args) (s, w) = (
    send srv (txt "+OK Hello " ++ name ++ txt ", welcome to Inbucket") (record s { user = name }),
    w,
  )
  authorization_handler pass cmd args (s, w) =
      if bytes_eq s.user [] then (oo_seq srv cmd s, w) else enter_mailbox (s, w)
  authorization_handler apop cmd (name ∷ digest ∷ []) (s, w) =
      enter_mailbox (record s { user = name }, w)
  authorization_handler apop cmd args (s, w) =
      (send srv (txt "-ERR APOP requires two arguments") s, w)
  authorization_handler _ cmd args (s, w) = (oo_seq srv cmd s, w)

  -- `tlsConfig` is nil unless TLS is enabled.
  unfoldable pub capa_handler : World W → Session → Session
  unfolding send send_all txt
  capa_handler w s =
      let s1 = send_all srv (txt "+OK Capability list follows" ∷ capabilities) s in
      let s2 =
        if srv.config.tls_enabled && not w.tls && not srv.config.force_tls
        then send srv (txt "STLS") s1
        else s1 in
      send srv (b'.' ∷ []) s2

  -- The handler for the state that the session is in. In any other state the loop ends.
  unfoldable pub state_handler :
      State → Command → Bytes → List Bytes → Session × World W → (Session × World W) × Bool
  unfolding authorization_handler transaction_handler
  state_handler authorization c cmd args sw = (authorization_handler c cmd args sw, true)
  state_handler transaction c cmd args sw = (transaction_handler srv c cmd args sw, true)
  state_handler quit c cmd args sw = (sw, false)

  -- A command that was read, with its arguments.
  unfoldable pub command_handler :
      Bytes → List Bytes → Session × World W → (Session × World W) × Bool
  unfolding send capa_handler state_handler commands bytes_eq txt
  command_handler cmd args (s, w) =
      if bytes_eq cmd (txt "CAPA")
      then ((capa_handler w s, w), true)
      else if bytes_eq cmd []
      then ((send srv (txt "-ERR Speak up") s, w), true)
      else elim (lookup cmd commands) [
        | none ↦ (
          (send srv (txt "-ERR Syntax error, " ++ cmd ++ txt " command unrecognized") s, w),
          true,
        )
        | some c ↦ state_handler s.state c cmd args (s, w)
      ]

  -- One round of the loop, and whether the loop goes on.
  unfoldable pub round : Read → Session × World W → (Session × World W) × Bool
  unfolding send command_handler parse_cmd txt
  round eof sw = (sw, false)
  round timeout (s, w) = ((send srv (txt "-ERR Idle timeout, bye bye") s, w), false)
  round failed (s, w) = ((send srv (txt "-ERR Connection error, sorry") s, w), false)
  round (got line) sw =
      command_handler (parse_cmd srv.unicode line).0 (parse_cmd srv.unicode line).1 sw

  unfoldable pub loop : List Read → Session × World W → Session × World W
  unfolding round is_done
  loop [] sw = sw
  loop (r ∷ rs) sw =
      let (sw', more) = round r sw in
      let rest = loop rs sw' in if is_done sw.0 then sw else if more then rest else sw'

  unfoldable pub start_session : List Read → World W → Session × World W
  unfolding new_session send loop greeting
  start_session reads w = loop reads (
    send srv (greeting srv) new_session,
    if srv.config.force_tls then record w { tls = true } else w,
  )
