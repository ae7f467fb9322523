-- ===== src/Smtp/Invariant/Run.antt =====
-- One round of the loop keeps the invariant.
use go_inbucket.Base.{
  ◌≡◌, inl, inr, refl, ap, Bool, true, false, not, [], arith, if◌then◌else◌, Bytes, bytes_eq, txt,
  Bool-cases, Option-cases,
}
use go_inbucket.Smtp.Handler.{ready_handler}
use go_inbucket.Smtp.Parse.{
  Command, ehlo, mail_from, rset, send_mail, soml, saml, vrfy, expn, help, noop, quit_session, turn,
  starttls, auth,
}
use go_inbucket.Smtp.{
  State, greet, ready, login, password, mail, data_input, quit, Server, Session, new_session, send,
  enter_state, reset,
}
use go_inbucket.Smtp.Invariant.{
  is_idle, IsSession, IsIdle, send-IsSession, reset-IsSession, send-IsIdle, IsIdle-IsSession,
  IsSession-IsIdle,
}
use go_inbucket.Smtp.Transaction.{Read, got, eof, timeout, failed}
use go_inbucket.Smtp.Parse.{parse_cmd, split_n, commands}
use go_inbucket.Storage.Dict.{lookup}
use go_inbucket.Smtp.Loop.{state_handler, command_handler, line_handler, read_handler}
use go_inbucket.Smtp.Invariant.Idle.{
  greet_handler-IsIdle, login_handler-IsIdle, password_handler-IsIdle, auth_handler-IsIdle,
  oo_seq-IsIdle,
}
use go_inbucket.Smtp.Invariant.Mail.{parse_mail_from_cmd-IsSession, mail_handler-IsSession}

pub either {ℓ} :
    {A : Type ℓ} (P : A → Type 0) (b : Bool) {x y : A} → P x → P y → P (if b then x else y)
either P true p q = p
either P false p q = q

module _ {W : Type 0} (srv : Server W) where
  ready_handler-IsSession :
      (c : Command) (cmd arg : Bytes) (s : Session)
      → IsIdle srv s
      → IsSession srv (ready_handler srv c cmd arg s)
  unfolding ready_handler
  ready_handler-IsSession starttls cmd arg s h =
      let refused : (msg : Bytes) → IsSession srv (send srv msg s) =
        λ msg. IsIdle-IsSession srv _ (send-IsIdle srv msg s h) in
      let sent = send-IsIdle srv (txt "220 STARTTLS") s h in
      let agreed : IsSession srv
          (enter_state greet (record (send srv (txt "220 STARTTLS") s) { tls = true })) =
        IsIdle-IsSession srv _ (record { idle = refl; no_recipients = sent.no_recipients }) in
      either (IsSession srv) (not srv.root.smtp.tls_enabled) (refused _)
        (either (IsSession srv) s.tls (refused _) agreed)
  ready_handler-IsSession auth cmd arg s h =
      IsIdle-IsSession srv _ (auth_handler-IsIdle srv (split_n 3 arg) s h)
  ready_handler-IsSession mail_from cmd arg s h = parse_mail_from_cmd-IsSession srv arg s h
  ready_handler-IsSession ehlo cmd arg s h = send-IsSession srv _ (reset s) (reset-IsSession srv s)
  ready_handler-IsSession _ cmd arg s h = IsIdle-IsSession srv _ (oo_seq-IsIdle srv cmd s h)

  pub quit-IsSession : (s : Session) → IsSession srv s → IsSession srv (enter_state quit s)
  quit-IsSession s h = record { fits = tt; bounded = h.bounded; admitted = h.admitted }

  state_handler-IsSession :
      (st : State) (c : Command) (cmd arg : Bytes) (s : Session)
      → s.state ≡ st
      → IsSession srv s
      → IsSession srv (state_handler srv st c cmd arg s).0
  unfolding state_handler
  state_handler-IsSession greet c cmd arg s e h =
      IsIdle-IsSession srv _
        (greet_handler-IsIdle srv c cmd arg s (IsSession-IsIdle srv s (ap is_idle e) h))
  state_handler-IsSession ready c cmd arg s e h =
      ready_handler-IsSession c cmd arg s (IsSession-IsIdle srv s (ap is_idle e) h)
  state_handler-IsSession mail c cmd arg s e h = mail_handler-IsSession srv c cmd arg s e h
  state_handler-IsSession _ c cmd arg s e h = h

  command_handler-IsSession :
      (c : Command) (cmd arg : Bytes) (s : Session)
      → IsSession srv s
      → IsSession srv (command_handler srv c cmd arg s).0
  unfolding command_handler
  command_handler-IsSession send_mail cmd arg s h = send-IsSession srv _ s h
  command_handler-IsSession soml cmd arg s h = send-IsSession srv _ s h
  command_handler-IsSession saml cmd arg s h = send-IsSession srv _ s h
  command_handler-IsSession expn cmd arg s h = send-IsSession srv _ s h
  command_handler-IsSession help cmd arg s h = send-IsSession srv _ s h
  command_handler-IsSession turn cmd arg s h = send-IsSession srv _ s h
  command_handler-IsSession vrfy cmd arg s h = send-IsSession srv _ s h
  command_handler-IsSession noop cmd arg s h = send-IsSession srv _ s h
  command_handler-IsSession rset cmd arg s h =
      send-IsSession srv _ (reset s) (reset-IsSession srv s)
  command_handler-IsSession quit_session cmd arg s h = quit-IsSession _ (send-IsSession srv _ s h)
  command_handler-IsSession _ cmd arg s h = state_handler-IsSession s.state _ cmd arg s refl h

  line_handler-IsSession :
      (line : Bytes) (s : Session) → IsSession srv s → IsSession srv (line_handler srv line s).0
  unfolding line_handler
  line_handler-IsSession line s h = elim (Option-cases (parse_cmd srv.platform.unicode line)) [
    | inl garbled ↦ rw (garbled, line_handler) (send-IsSession srv _ s h)
    | inr ((cmd, arg), parsed) ↦ elim (Bool-cases (bytes_eq cmd [])) [
      | inl silent ↦ rw (parsed, line_handler, silent) (send-IsSession srv _ s h)
      | inr named ↦ elim (Option-cases (lookup cmd commands)) [
        | inl unknown ↦ rw (parsed, line_handler, named, unknown) (send-IsSession srv _ s h)
        | inr (c, known) ↦
            rw (parsed, line_handler, named, known) (command_handler-IsSession c cmd arg s h)
      ]
    ]
  ]

  pub read_handler-IsSession :
      (r : Read) (s : Session) → IsSession srv s → IsSession srv (read_handler srv r s).0
  unfolding read_handler
  read_handler-IsSession eof s h = h
  read_handler-IsSession timeout s h = send-IsSession srv _ s h
  read_handler-IsSession failed s h = send-IsSession srv _ s h
  read_handler-IsSession (got line) s h = go s.state refl
    where
      go : (st : State) → s.state ≡ st → IsSession srv (read_handler srv (got line) s).0
      go login e =
          rw (e, read_handler)
            (IsIdle-IsSession srv _
              (login_handler-IsIdle srv s (IsSession-IsIdle srv s (ap is_idle e) h)))
      go password e =
          rw (e, read_handler)
            (IsIdle-IsSession srv _
              (password_handler-IsIdle srv s (IsSession-IsIdle srv s (ap is_idle e) h)))
      go greet e = rw (e, read_handler) (line_handler-IsSession line s h)
      go ready e = rw (e, read_handler) (line_handler-IsSession line s h)
      go mail e = rw (e, read_handler) (line_handler-IsSession line s h)
      go data_input e = rw (e, read_handler) (line_handler-IsSession line s h)
      go quit e = rw (e, read_handler) (line_handler-IsSession line s h)

  pub new_session-IsSession : (host : Bytes) → IsSession srv (new_session srv host)
  unfolding new_session
  new_session-IsSession host = record { fits = tt; bounded = omega arith; admitted = tt }
