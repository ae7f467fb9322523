-- ===== src/Smtp/Transaction.antt =====
-- The handlers of pkg/server/smtp/handler.go for the state MAIL and for a data block.
use go_inbucket.Base.{
  not, ◌||◌, [], ◌∷◌, ◌++◌, ltb, leb, ◌==◌, if◌then◌else◌, Bytes, bytes_eq, take, drop, length, txt,
}
use go_inbucket.GoText.{to_upper, trim}
use go_inbucket.GoText.Decimal.{itoa}
use go_inbucket.Policy.{Recipient, new_recipient, should_accept_domain}
use go_inbucket.Policy.Address.{ok, err}
use go_inbucket.Smtp.Parse.{Command, ehlo, rcpt, data_block}
use go_inbucket.Smtp.{
  data_input, quit, defer, allow, deny, Server, Session, send, enter_state, reset, oo_seq,
  ext_session, recipient_address,
}
use go_inbucket.Smtp.Handler.{action_of, denial}

-- What the connection gives when a line or a data block is asked for.
pub data Read : Type 0 where
  got : Bytes → Read
  eof timeout failed : Read

module _ {W : Type 0} (srv : Server W) where
  -- The last two tests of the case `RCPT`.
  unfoldable pub add_recipient : Bytes → Recipient → Session → Session
  unfolding send txt itoa
  add_recipient addr recip s =
      if leb srv.root.smtp.max_recipients (length s.recipients)
      then send srv
          (txt "552 Limit of " ++ itoa srv.root.smtp.max_recipients ++ txt " recipients exceeded") s
      else send srv (txt "250 I'll make sure <" ++ addr ++ txt "> gets this")
          (record s { recipients = s.recipients ++ recip ∷ [] })

  -- The case `RCPT`, from the event on.
  unfoldable pub rcpt_recipient : Bytes → Recipient → Session → Session
  unfolding send action_of denial add_recipient txt ext_session should_accept_domain
  rcpt_recipient addr recip s =
      let session = ext_session s in
      let result =
        srv.before_rcpt_to (record session { to = session.to ++ recipient_address recip ∷ [] }) in
      elim (action_of result) [
        | deny ↦ send srv (denial result) s
        | allow ↦ add_recipient addr recip s
        | defer ↦
            if should_accept_domain srv.platform.unicode srv.root recip.domain
            then add_recipient addr recip s
            else send srv (txt "550 Relay not permitted") s
      ]

  unfoldable pub rcpt_handler : Bytes → Session → Session
  unfolding send rcpt_recipient new_recipient to_upper trim bytes_eq txt
  rcpt_handler arg s =
      let addr = trim (txt "<> ") (drop 3 arg) in
      if ltb (length arg) 4
        || not (bytes_eq (to_upper srv.platform.unicode (take 3 arg)) (txt "TO:"))
      then send srv (txt "501 Was expecting RCPT arg syntax of TO:<address>") s
      else elim (new_recipient srv.platform srv.root addr) [
        | err e ↦ send srv (txt "501 Bad recipient address syntax") s
        | ok recip ↦ rcpt_recipient addr recip s
      ]

  unfoldable pub mail_handler : Command → Bytes → Bytes → Session → Session
  unfolding send oo_seq rcpt_handler bytes_eq txt
  mail_handler rcpt cmd arg s = rcpt_handler arg s
  mail_handler data_block cmd arg s =
      if not (bytes_eq arg [])
      then send srv (txt "501 DATA command should not have any arguments") s
      else if length s.recipients == 0
      then oo_seq srv cmd s
      else enter_state data_input s
  mail_handler ehlo cmd arg s = send srv (txt "250 Session reset") (reset s)
  mail_handler _ cmd arg s = oo_seq srv cmd s

  recvd_header : Session → Bytes
  unfolding txt
  recvd_header s =
      txt "Received: from "
      ++ s.remote_domain
      ++ txt " (["
      ++ s.remote_host
      ++ txt "]) by "
      ++ srv.root.smtp.domain
      ++ b'\r' ∷ b'\n' ∷ []

  unfoldable pub data_handler : Read → Session × W → Session × W
  unfolding send recvd_header txt
  data_handler (got block) (s, w) =
      let s' = send srv (txt "354 Start mail input; end with <CRLF>.<CRLF>") s in
      let (w', stored) = srv.deliver s'.from s'.recipients (recvd_header s') block w in
      if stored
      then (reset (send srv (txt "250 Mail accepted for delivery") s'), w')
      else (reset (send srv (txt "451 Failed to store message") s'), w')
  data_handler timeout (s, w) = (
    enter_state quit (
        send srv (txt "221 Idle timeout, bye bye")
          (send srv (txt "354 Start mail input; end with <CRLF>.<CRLF>") s)),
    w,
  )
  data_handler _ (s, w) =
      (enter_state quit (send srv (txt "354 Start mail input; end with <CRLF>.<CRLF>") s), w)
