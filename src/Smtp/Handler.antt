-- ===== src/Smtp/Handler.antt =====
-- The handlers of pkg/server/smtp/handler.go, a function each, and the loop of a session over what the
-- client sends.
use go_inbucket.Base.{
  true, not, ◌&&◌, Option, none, some, List, [], ◌∷◌, ◌++◌, ltb, ◌==◌, if◌then◌else◌, Bytes,
  bytes_eq, length, txt,
}
use go_inbucket.GoText.Decimal.{itoa, parse_int, int32_limit}
use go_inbucket.Policy.{Origin, parse_origin, should_accept_origin_domain}
use go_inbucket.Policy.Address.{ok, err}
use go_inbucket.Smtp.Parse.{
  Command, helo, ehlo, mail_from, starttls, auth, parse_hello_argument, parse_args, arg_or_empty,
  split_n,
}
use go_inbucket.Smtp.{
  greet, ready, login, password, mail, Action, defer, allow, deny, ExtResponse, Server, Session,
  send, enter_state, reset, oo_seq, ext_session, origin_address, three_digits,
}

-- What an extension answered; without an answer the action is `defer`.
unfoldable pub action_of : Option ExtResponse → Action
action_of none = defer
action_of (some r) = r.action

unfoldable pub denial : Option ExtResponse → Bytes
unfolding three_digits
denial none = []
denial (some r) = three_digits r.error_code ++ b' ' ∷ r.error_msg

module _ {W : Type 0} (srv : Server W) where
  -- The answer to EHLO; STARTTLS is offered if the client can still use it.
  unfoldable pub greet_features : Session → Session
  unfolding send txt itoa
  greet_features s =
      let s1 = send srv (txt "250-Great, let's get this show on the road") s in
      let s2 = send srv (txt "250-AUTH PLAIN LOGIN") (send srv (txt "250-8BITMIME") s1) in
      let smtp = srv.root.smtp in
      let s3 =
        if smtp.tls_enabled && not smtp.force_tls && srv.has_tls_config && not s2.tls
        then send srv (txt "250-STARTTLS") s2
        else s2 in
      send srv (txt "250 SIZE " ++ itoa smtp.max_message_bytes) s3

  unfoldable pub greet_handler : Command → Bytes → Bytes → Session → Session
  unfolding send oo_seq greet_features parse_hello_argument txt
  greet_handler helo cmd arg s = elim (parse_hello_argument arg) [
    | none ↦ send srv (txt "501 Domain/address argument required for HELO") s
    | some domain ↦ enter_state ready (
        send srv (txt "250 Great, let's get this show on the road")
          (record s { remote_domain = domain }))
  ]
  greet_handler ehlo cmd arg s = elim (parse_hello_argument arg) [
    | none ↦ send srv (txt "501 Domain/address argument required for EHLO") s
    | some domain ↦ enter_state ready (greet_features (record s { remote_domain = domain }))
  ]
  greet_handler _ cmd arg s = oo_seq srv cmd s

  unfoldable pub login_handler : Session → Session
  unfolding send txt
  login_handler s = enter_state password (send srv (txt "334 UGFzc3dvcmQA") s)

  unfoldable pub password_handler : Session → Session
  unfolding send txt
  password_handler s = enter_state ready (send srv (txt "235 Authentication successful") s)

  -- The case `AUTH`, on the arguments split at the first two spaces.
  unfoldable pub auth_handler : List Bytes → Session → Session
  unfolding send txt bytes_eq
  auth_handler [] s = s
  auth_handler (method ∷ args) s =
      if bytes_eq method (txt "PLAIN")
      then send srv
          (if length args == 1
            then txt "235 2.7.0 Authentication successful"
            else txt "500 Bad auth arguments")
          s
      else if bytes_eq method (txt "LOGIN")
      then enter_state login (send srv (txt "334 VXNlciBOYW1lAA==") s)
      else send srv (txt "500 Unsupported AUTH method: " ++ method) s

  -- The end of `parseMailFromCmd`, from the event on.
  unfoldable pub mail_from_origin : Bytes → Origin → Session → Session
  unfolding send action_of denial txt ext_session should_accept_origin_domain
  mail_from_origin from origin s =
      let result =
        srv.before_mail_from (record (ext_session s) { from = some (origin_address origin) }) in
      let s' = record s { from = some origin } in
      let accept =
        enter_state mail
          (send srv (txt "250 Roger, accepting mail from <" ++ from ++ txt ">") s') in
      elim (action_of result) [
        | deny ↦ send srv (denial result) s
        | allow ↦ accept
        | defer ↦
            if should_accept_origin_domain srv.platform.unicode srv.root origin.domain
            then accept
            else send srv (txt "501 Unauthorized domain") s'
      ]

  -- The ESMTP parameters: the reply that refuses them, if any.
  unfoldable pub refuse_params : Bytes → Option Bytes
  unfolding parse_args parse_int arg_or_empty bytes_eq txt
  refuse_params params =
      if bytes_eq params [] then none else elim (parse_args srv.platform.unicode params) [
        | none ↦ some (txt "501 Unable to parse MAIL ESMTP parameters")
        | some args ↦
            let size = arg_or_empty (txt "SIZE") args in
            if bytes_eq size [] then none else elim (parse_int int32_limit size) [
              | none ↦ some (txt "501 Unable to parse SIZE as an integer")
              | some n ↦
                  if not n.negative && ltb srv.root.smtp.max_message_bytes n.size
                  then some (txt "552 Max message size exceeded")
                  else none
            ]
      ]

  unfoldable pub parse_mail_from_cmd : Bytes → Session → Session
  unfolding send refuse_params mail_from_origin parse_origin txt
  parse_mail_from_cmd arg s = elim (srv.from_regex arg) [
    | none ↦ send srv (txt "501 Was expecting MAIL arg syntax of FROM:<address>") s
    | some (from, params) ↦ elim (refuse_params params) [
      | some refusal ↦ send srv refusal s
      | none ↦ elim (parse_origin srv.platform from) [
        | err e ↦ send srv (txt "501 Bad origin address syntax") s
        | ok origin ↦ mail_from_origin from origin s
      ]
    ]
  ]

  unfoldable pub ready_handler : Command → Bytes → Bytes → Session → Session
  unfolding send oo_seq auth_handler parse_mail_from_cmd split_n txt
  ready_handler starttls cmd arg s =
      if not srv.root.smtp.tls_enabled
      then send srv (txt "454 TLS unavailable on the server") s
      else if s.tls
      then send srv (txt "454 A TLS session already agreed upon.") s
      else enter_state greet (record (send srv (txt "220 STARTTLS") s) { tls = true })
  ready_handler auth cmd arg s = auth_handler (split_n 3 arg) s
  ready_handler mail_from cmd arg s = parse_mail_from_cmd arg s
  ready_handler ehlo cmd arg s = send srv (txt "250 Session reset") (reset s)
  ready_handler _ cmd arg s = oo_seq srv cmd s
