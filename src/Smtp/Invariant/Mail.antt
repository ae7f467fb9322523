-- ===== src/Smtp/Invariant/Mail.antt =====
-- The commands of a transaction: MAIL FROM, RCPT TO and DATA.
use go_inbucket.Base.{
  ◌≡◌, ◌⊎◌, inl, inr, refl, false, not, ◌||◌, Option, none, some, List, [], ◌∷◌, ◌++◌, arith, ltb,
  leb, ◌==◌, Bytes, bytes_eq, take, drop, length, length-append, txt, All-append, Bool-cases,
  Option-cases,
}
use go_inbucket.Policy.{
  Origin, Recipient, new_recipient, parse_origin, should_accept_domain, should_accept_origin_domain,
}
use go_inbucket.Policy.Address.{Result, ok, err, AddressError}
use go_inbucket.GoText.{to_upper, trim}
use go_inbucket.Smtp.{ext_session, origin_address, recipient_address}
use go_inbucket.Smtp.Handler.{action_of, mail_from_origin, refuse_params, parse_mail_from_cmd}
use go_inbucket.Smtp.Parse.{Command, ehlo, rcpt, data_block}
use go_inbucket.Smtp.{
  mail, data_input, Action, defer, allow, deny, Server, Session, send, enter_state, reset,
}
use go_inbucket.Smtp.Invariant.{
  Fits, IsAdmitted, IsSession, IsIdle, send-IsSession, send-from, oo_seq-IsSession, reset-IsSession,
  send-IsIdle, IsIdle-IsSession,
}
use go_inbucket.Smtp.Transaction.{add_recipient, rcpt_recipient, rcpt_handler, mail_handler}

Action-cases : (a : Action) → (a ≡ deny) ⊎ ((a ≡ allow) ⊎ (a ≡ defer))
Action-cases deny = inl refl
Action-cases allow = inr (inl refl)
Action-cases defer = inr (inr refl)

Result-cases {ℓ} :
    {A : Type ℓ} (r : Result A) → ((a : A) × (r ≡ ok a)) ⊎ ((e : AddressError) × (r ≡ err e))
Result-cases (ok a) = inl (a, refl)
Result-cases (err e) = inr (e, refl)

-- In MAIL the recipients do not matter, only the sender does.
mail-Fits :
    (from : Option Origin) (rs rs' : List Recipient) → Fits mail from rs → Fits mail from rs'
mail-Fits (some o) rs rs' f = tt
mail-Fits none rs rs' f = absurd f

data-Fits :
    (from : Option Origin) (rs : List Recipient)
    → (length rs == 0) ≡ false
    → Fits mail from rs
    → Fits data_input from rs
data-Fits none rs n f = absurd f
data-Fits (some o) [] n f = absurd (ground arith)
data-Fits (some o) (r ∷ rs) n f = tt

module _ {W : Type 0} (srv : Server W) where
  -- MAIL begins with a sender.
  enter_mail :
      (o : Origin) (msg : Bytes) (s : Session)
      → IsIdle srv s
      → IsSession srv (enter_state mail (send srv msg (record s { from = some o })))
  enter_mail o msg s h =
      let s' = record s { from = some o } in
      let i : IsIdle srv s' = record { idle = h.idle; no_recipients = h.no_recipients } in
      let sent = IsIdle-IsSession srv _ (send-IsIdle srv msg s' i) in
      record {
        fits = rw (send-from srv msg s') tt;
        bounded = sent.bounded;
        admitted = sent.admitted;
      }

  mail_from_origin-IsSession :
      (from : Bytes) (o : Origin) (s : Session)
      → IsIdle srv s
      → IsSession srv (mail_from_origin srv from o s)
  unfolding mail_from_origin
  mail_from_origin-IsSession from o s h =
      let i : IsIdle srv (record s { from = some o }) = record {
        idle = h.idle;
        no_recipients = h.no_recipients;
      } in
      elim (Action-cases (
        action_of
          (srv.before_mail_from (record (ext_session s) { from = some (origin_address o) })))) [
            | inl denied ↦
                rw (denied, mail_from_origin) (IsIdle-IsSession srv _ (send-IsIdle srv _ s h))
            | inr (inl allowed) ↦ rw (allowed, mail_from_origin) (enter_mail o _ s h)
            | inr (inr deferred) ↦
                elim (Bool-cases
                  (should_accept_origin_domain srv.platform.unicode srv.root o.domain)) [
                    | inl accepted ↦ rw (deferred, mail_from_origin, accepted) (enter_mail o _ s h)
                    | inr rejected ↦
                        rw (deferred, mail_from_origin, rejected)
                          (IsIdle-IsSession srv _ (send-IsIdle srv _ _ i))
                  ]
          ]

  pub parse_mail_from_cmd-IsSession :
      (arg : Bytes) (s : Session) → IsIdle srv s → IsSession srv (parse_mail_from_cmd srv arg s)
  unfolding parse_mail_from_cmd
  parse_mail_from_cmd-IsSession arg s h =
      let refused : (msg : Bytes) → IsSession srv (send srv msg s) =
        λ msg. IsIdle-IsSession srv _ (send-IsIdle srv msg s h) in
      elim (Option-cases (srv.from_regex arg)) [
        | inl no_match ↦ rw (no_match, parse_mail_from_cmd) (refused _)
        | inr ((from, params), matched) ↦ elim (Option-cases (refuse_params srv params)) [
          | inr (msg, bad) ↦ rw (matched, parse_mail_from_cmd, bad) (refused _)
          | inl good ↦ elim (Result-cases (parse_origin srv.platform from)) [
            | inl (o, parsed) ↦
                rw (matched, parse_mail_from_cmd, good, parsed)
                  (mail_from_origin-IsSession from o s h)
            | inr (e, bad) ↦ rw (matched, parse_mail_from_cmd, good, bad) (refused _)
          ]
        ]
      ]

  add_recipient-IsSession :
      (addr : Bytes) (r : Recipient) (s : Session)
      → IsAdmitted srv r
      → s.state ≡ mail
      → IsSession srv s
      → IsSession srv (add_recipient srv addr r s)
  unfolding add_recipient
  add_recipient-IsSession addr r s a m h =
      elim (Bool-cases (leb srv.root.smtp.max_recipients (length s.recipients))) [
        | inl full ↦ rw full (send-IsSession srv _ s h)
        | inr room ↦ rw room (
            send-IsSession srv _ (record s { recipients = s.recipients ++ r ∷ [] })
              (record {
                fits = rw m (mail-Fits s.from s.recipients _ (rw m at h.fits));
                bounded = ground (arith, length-append s.recipients (r ∷ []));
                admitted = All-append (IsAdmitted srv) s.recipients (r ∷ []) h.admitted (a, tt);
              }))
      ]

  rcpt_recipient-IsSession :
      (addr : Bytes) (r : Recipient) (s : Session)
      → new_recipient srv.platform srv.root addr ≡ ok r
      → s.state ≡ mail
      → IsSession srv s
      → IsSession srv (rcpt_recipient srv addr r s)
  unfolding rcpt_recipient
  rcpt_recipient-IsSession addr r s made m h =
      let session = ext_session s in
      let e = record session { to = session.to ++ recipient_address r ∷ [] } in
      elim (Action-cases (action_of (srv.before_rcpt_to e))) [
        | inl denied ↦ rw (denied, rcpt_recipient) (send-IsSession srv _ s h)
        | inr (inl allowed) ↦
            rw (allowed, rcpt_recipient)
              (add_recipient-IsSession addr r s
                (record {
                  address = addr;
                  made = made;
                  permitted = inr (e, session.to, refl, allowed);
                })
                m h)
        | inr (inr deferred) ↦
            elim (Bool-cases (should_accept_domain srv.platform.unicode srv.root r.domain)) [
              | inl accepted ↦
                  rw (deferred, rcpt_recipient, accepted)
                    (add_recipient-IsSession addr r s
                      (record { address = addr; made = made; permitted = inl accepted }) m h)
              | inr rejected ↦ rw (deferred, rcpt_recipient, rejected) (send-IsSession srv _ s h)
            ]
      ]

  rcpt_handler-IsSession :
      (arg : Bytes) (s : Session)
      → s.state ≡ mail
      → IsSession srv s
      → IsSession srv (rcpt_handler srv arg s)
  unfolding rcpt_handler
  rcpt_handler-IsSession arg s m h =
      let addr = trim (txt "<> ") (drop 3 arg) in
      elim (Bool-cases (
        ltb (length arg) 4
        || not (bytes_eq (to_upper srv.platform.unicode (take 3 arg)) (txt "TO:")))) [
          | inl bad ↦ rw bad (send-IsSession srv _ s h)
          | inr good ↦ elim (Result-cases (new_recipient srv.platform srv.root addr)) [
            | inl (r, made) ↦ rw (good, made) (rcpt_recipient-IsSession addr r s made m h)
            | inr (e, bad) ↦ rw (good, bad) (send-IsSession srv _ s h)
          ]
        ]

  pub mail_handler-IsSession :
      (c : Command) (cmd arg : Bytes) (s : Session)
      → s.state ≡ mail
      → IsSession srv s
      → IsSession srv (mail_handler srv c cmd arg s)
  unfolding mail_handler
  mail_handler-IsSession rcpt cmd arg s m h = rcpt_handler-IsSession arg s m h
  mail_handler-IsSession data_block cmd arg s m h = elim (Bool-cases (bytes_eq arg [])) [
    | inr with_arg ↦ rw with_arg (send-IsSession srv _ s h)
    | inl alone ↦ elim (Bool-cases (length s.recipients == 0)) [
      | inl no_one ↦ rw (alone, no_one) (oo_seq-IsSession srv cmd s h)
      | inr some_one ↦
          rw (alone, some_one)
            (record {
              fits = data-Fits s.from s.recipients some_one (rw m at h.fits);
              bounded = h.bounded;
              admitted = h.admitted;
            })
    ]
  ]
  mail_handler-IsSession ehlo cmd arg s m h = send-IsSession srv _ (reset s) (reset-IsSession srv s)
  mail_handler-IsSession _ cmd arg s m h = oo_seq-IsSession srv cmd s h
