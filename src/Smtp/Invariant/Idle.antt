-- ===== src/Smtp/Invariant/Idle.antt =====
-- The handlers for the states outside a transaction, and MAIL FROM, which begins one.
use go_inbucket.Base.{
  inl, inr, refl, Bool, true, false, List, [], ◌∷◌, if◌then◌else◌, Bytes, bytes_eq, txt, Bool-cases,
  Option-cases,
}
use go_inbucket.Smtp.Parse.{parse_hello_argument}
use go_inbucket.Smtp.Handler.{
  greet_features, greet_handler, login_handler, password_handler, auth_handler,
}
use go_inbucket.Smtp.Parse.{Command, helo, ehlo}
use go_inbucket.Smtp.{ready, login, password, Server, Session, send, oo_seq}
use go_inbucket.Smtp.Invariant.{IsIdle, send-IsIdle, enter_state-IsIdle}

module _ {W : Type 0} (srv : Server W) where
  pub oo_seq-IsIdle : (cmd : Bytes) (s : Session) → IsIdle srv s → IsIdle srv (oo_seq srv cmd s)
  unfolding oo_seq
  oo_seq-IsIdle cmd s h = send-IsIdle srv _ s h

  greet_features-IsIdle : (s : Session) → IsIdle srv s → IsIdle srv (greet_features srv s)
  unfolding greet_features
  greet_features-IsIdle s h = send-IsIdle srv _ _ (starttls _ _ _ base)
    where
      base : IsIdle srv (
          send srv (txt "250-AUTH PLAIN LOGIN") (
            send srv
              (txt "250-8BITMIME")
              (send srv (txt "250-Great, let's get this show on the road") s)))
      base = send-IsIdle srv _ _ (
          send-IsIdle srv _ _
            (send-IsIdle srv (txt "250-Great, let's get this show on the road") s h))

      starttls :
          (b : Bool) (msg : Bytes) (s2 : Session)
          → IsIdle srv s2
          → IsIdle srv (if b then send srv msg s2 else s2)
      starttls true msg s2 i = send-IsIdle srv msg s2 i
      starttls false msg s2 i = i

  pub greet_handler-IsIdle :
      (c : Command) (cmd arg : Bytes) (s : Session)
      → IsIdle srv s
      → IsIdle srv (greet_handler srv c cmd arg s)
  unfolding greet_handler
  greet_handler-IsIdle helo cmd arg s h = elim (Option-cases (parse_hello_argument arg)) [
    | inl bad ↦ rw (bad, greet_handler) (send-IsIdle srv _ s h)
    | inr (d, good) ↦
        let named : IsIdle srv (record s { remote_domain = d }) = record {
          idle = h.idle;
          no_recipients = h.no_recipients;
        } in
        rw (good, greet_handler)
          (enter_state-IsIdle srv ready _ refl
            (send-IsIdle srv _ (record s { remote_domain = d }) named))
  ]
  greet_handler-IsIdle ehlo cmd arg s h = elim (Option-cases (parse_hello_argument arg)) [
    | inl bad ↦ rw (bad, greet_handler) (send-IsIdle srv _ s h)
    | inr (d, good) ↦
        let named : IsIdle srv (record s { remote_domain = d }) = record {
          idle = h.idle;
          no_recipients = h.no_recipients;
        } in
        rw (good, greet_handler)
          (enter_state-IsIdle srv ready _ refl
            (greet_features-IsIdle (record s { remote_domain = d }) named))
  ]
  greet_handler-IsIdle _ cmd arg s h = oo_seq-IsIdle cmd s h

  pub login_handler-IsIdle : (s : Session) → IsIdle srv s → IsIdle srv (login_handler srv s)
  unfolding login_handler
  login_handler-IsIdle s h = enter_state-IsIdle srv password _ refl (send-IsIdle srv _ s h)

  pub password_handler-IsIdle : (s : Session) → IsIdle srv s → IsIdle srv (password_handler srv s)
  unfolding password_handler
  password_handler-IsIdle s h = enter_state-IsIdle srv ready _ refl (send-IsIdle srv _ s h)

  pub auth_handler-IsIdle :
      (args : List Bytes) (s : Session) → IsIdle srv s → IsIdle srv (auth_handler srv args s)
  unfolding auth_handler
  auth_handler-IsIdle [] s h = h
  auth_handler-IsIdle (m ∷ args) s h = elim (Bool-cases (bytes_eq m (txt "PLAIN"))) [
    | inl plain ↦ rw plain (send-IsIdle srv _ s h)
    | inr other ↦ elim (Bool-cases (bytes_eq m (txt "LOGIN"))) [
      | inl by_login ↦
          rw (other, by_login) (enter_state-IsIdle srv login _ refl (send-IsIdle srv _ s h))
      | inr unknown ↦ rw (other, unknown) (send-IsIdle srv _ s h)
    ]
  ]
