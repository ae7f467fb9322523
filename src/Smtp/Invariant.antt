-- ===== src/Smtp/Invariant.antt =====
-- The invariant of a session, what a reply keeps of it.
pub mod Idle
pub mod Mail
pub mod Run
pub mod Deliveries
use go_inbucket.Base.{
  ℕ, ◌+◌, ◌≤◌, ◌≡◌, ◌≢◌, ◌⊎◌, inl, inr, refl, sym, ap, ◌∙◌, Bool, true, false, not, ◌&&◌, ◌||◌,
  Option, none, some, List, [], ◌∷◌, ◌++◌, arith, ltb, leb, ◌==◌, if◌then◌else◌, Bytes, bytes_eq,
  take, drop, length, length-append, txt, All, All-append, Bool-cases, Option-cases,
}
use go_inbucket.Policy.{
  Origin, Recipient, new_recipient, parse_origin, should_accept_domain, should_accept_origin_domain,
}
use go_inbucket.Policy.Address.{Result, ok, err}
use go_inbucket.Smtp.Handler.{
  action_of, denial, greet_features, greet_handler, login_handler, password_handler, auth_handler,
  mail_from_origin, refuse_params, parse_mail_from_cmd, ready_handler,
}
use go_inbucket.Smtp.Parse.{
  Command, helo, ehlo, mail_from, rcpt, data_block, rset, send_mail, soml, saml, vrfy, expn, help,
  noop, quit_session, turn, starttls, auth,
}
use go_inbucket.StringUtil.{Address}
use go_inbucket.Smtp.{
  State, greet, ready, login, password, mail, data_input, quit, ExtSession, Action, defer, allow,
  deny, ExtResponse, Server, Session, new_session, send, enter_state, reset, oo_seq,
}

-- The states in which there is no transaction.
abbrev pub is_idle : State → Bool
is_idle mail = false
is_idle data_input = false
is_idle quit = false
is_idle _ = true

-- In MAIL there is a sender, in DATA also a recipient, and outside a transaction no recipient.
abbrev pub Fits : State → Option Origin → List Recipient → Type 0
Fits mail none rs = ⊥
Fits mail (some o) rs = Unit {0}
Fits data_input (some o) (r ∷ rs) = Unit {0}
Fits data_input _ _ = ⊥
Fits quit from rs = Unit {0}
Fits _ from [] = Unit {0}
Fits _ from (r ∷ rs) = ⊥

module _ {W : Type 0} (srv : Server W) where
  -- A recipient made from an address, whose domain the policy accepts, or that an extension allowed when
  -- it was asked about it: as the last recipient of the message.
  pub record IsAdmitted (r : Recipient) : Type 0 where
    pub address : Bytes
    pub made : new_recipient srv.platform srv.root address ≡ ok r
    pub permitted :
        (should_accept_domain srv.platform.unicode srv.root r.domain ≡ true)
        ⊎ ((e : ExtSession) × (earlier : List Address) × (e.to
              ≡ earlier ++ record { name = []; address = r.address } ∷ [])
            × (action_of (srv.before_rcpt_to e) ≡ allow))

  pub record IsSession (s : Session) : Type 0 where
    pub fits : Fits s.state s.from s.recipients
    pub bounded : length s.recipients ≤ srv.root.smtp.max_recipients
    pub admitted : All IsAdmitted s.recipients

  pub send-IsSession : (msg : Bytes) (s : Session) → IsSession s → IsSession (send srv msg s)
  unfolding send
  send-IsSession msg s h = elim (Bool-cases (srv.write_ok s.writes)) [
    | inl sent ↦ rw sent (record { fits = h.fits; bounded = h.bounded; admitted = h.admitted })
    | inr lost ↦ rw lost (record { fits = h.fits; bounded = h.bounded; admitted = h.admitted })
  ]

  pub send-state : (msg : Bytes) (s : Session) → (send srv msg s).state ≡ s.state
  unfolding send
  send-state msg s = ground arith

  pub oo_seq-IsSession : (cmd : Bytes) (s : Session) → IsSession s → IsSession (oo_seq srv cmd s)
  unfolding oo_seq
  oo_seq-IsSession cmd s h = send-IsSession _ s h

  pub reset-IsSession : (s : Session) → IsSession (reset s)
  reset-IsSession s = record { fits = tt; bounded = omega arith; admitted = tt }

  pub send-recipients : (msg : Bytes) (s : Session) → (send srv msg s).recipients ≡ s.recipients
  unfolding send
  send-recipients msg s = ground arith

  pub send-from : (msg : Bytes) (s : Session) → (send srv msg s).from ≡ s.from
  unfolding send
  send-from msg s = ground arith

  -- A session outside a transaction.
  pub record IsIdle (s : Session) : Type 0 where
    pub idle : is_idle s.state ≡ true
    pub no_recipients : s.recipients ≡ []

  pub send-IsIdle : (msg : Bytes) (s : Session) → IsIdle s → IsIdle (send srv msg s)
  send-IsIdle msg s h = record {
    idle = ap is_idle (send-state msg s) ∙ h.idle;
    no_recipients = send-recipients msg s ∙ h.no_recipients;
  }

  pub enter_state-IsIdle :
      (st : State) (s : Session) → is_idle st ≡ true → IsIdle s → IsIdle (enter_state st s)
  enter_state-IsIdle st s i h = record { idle = i; no_recipients = h.no_recipients }

  empty-Fits : (st : State) (from : Option Origin) → is_idle st ≡ true → Fits st from []
  empty-Fits mail from i = absurd (ground arith)
  empty-Fits data_input from i = absurd (ground arith)
  empty-Fits quit from i = tt
  empty-Fits greet from i = tt
  empty-Fits ready from i = tt
  empty-Fits login from i = tt
  empty-Fits password from i = tt

  pub IsIdle-IsSession : (s : Session) → IsIdle s → IsSession s
  IsIdle-IsSession s h = record {
    fits = rw (h.no_recipients) (empty-Fits s.state s.from h.idle);
    bounded = rw (h.no_recipients) (omega arith);
    admitted = rw (h.no_recipients) tt;
  }

  Fits-nil :
      (st : State) (from : Option Origin) (rs : List Recipient)
      → is_idle st ≡ true
      → Fits st from rs
      → rs ≡ []
  Fits-nil st from [] i f = refl
  Fits-nil mail from (r ∷ rs) i f = absurd (ground arith)
  Fits-nil data_input from (r ∷ rs) i f = absurd (ground arith)
  Fits-nil quit from (r ∷ rs) i f = absurd (ground arith)
  Fits-nil greet from (r ∷ rs) i f = absurd f
  Fits-nil ready from (r ∷ rs) i f = absurd f
  Fits-nil login from (r ∷ rs) i f = absurd f
  Fits-nil password from (r ∷ rs) i f = absurd f

  pub IsSession-IsIdle : (s : Session) → is_idle s.state ≡ true → IsSession s → IsIdle s
  IsSession-IsIdle s i h = record {
    idle = i;
    no_recipients = Fits-nil s.state s.from s.recipients i h.fits;
  }
