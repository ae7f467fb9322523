-- ===== src/Smtp/Invariant/Deliveries.antt =====
-- The loop of a session: the invariant, and what every delivery is given.
use go_inbucket.Base.{
  ◌≤◌, ◌≡◌, ◌≢◌, refl, ◌∙◌, Option, none, some, List, [], ◌∷◌, Bytes, length, txt, All,
}
use go_inbucket.Policy.{Origin, Recipient}
use go_inbucket.Smtp.{
  State, greet, ready, login, password, mail, data_input, quit, Server, Session, send,
}
use go_inbucket.Smtp.Invariant.{
  Fits, IsAdmitted, IsSession, send-IsSession, send-state, reset-IsSession,
}
use go_inbucket.Smtp.Transaction.{Read, got, eof, timeout, failed, data_handler}
use go_inbucket.Smtp.Loop.{round, is_done, loop, start_session}
use go_inbucket.Smtp.Invariant.Run.{
  either, quit-IsSession, read_handler-IsSession, new_session-IsSession,
}

-- In DATA there are a sender and a recipient.
data-filled :
    (from : Option Origin) (rs : List Recipient)
    → Fits data_input from rs
    → ((o : Origin) × (from ≡ some o)) × (rs ≢ [])
data-filled none rs f = absurd f
data-filled (some o) [] f = absurd f
data-filled (some o) (r ∷ rs) f = ((o, refl), λ e. cc)

-- The deliveries of a session, for a property `I` of the message store that a delivery keeps if it is
-- given a sender and one or more admitted recipients, within the limit.
module _ {W : Type 0} (srv : Server W) (I : W → Type 0)
    (kept : (o : Origin) (rs : List Recipient) (header block : Bytes) (w : W)
      → rs ≢ []
      → length rs ≤ srv.root.smtp.max_recipients
      → All (IsAdmitted srv) rs
      → I w
      → I (srv.deliver (some o) rs header block w).0) where
  Good : Session × W → Type 0
  Good (s, w) = IsSession srv s × I w

  deliver-kept :
      (s : Session) (header block : Bytes) (w : W)
      → s.state ≡ data_input
      → Good (s, w)
      → I (srv.deliver s.from s.recipients header block w).0
  unfolding Good
  deliver-kept s header block w e (h, i) =
      let ((o, from), some_one) = data-filled s.from s.recipients (rw e at h.fits) in
      rw from (kept o s.recipients header block w some_one h.bounded h.admitted i)

  data_handler-Good :
      (r : Read) (s : Session) (w : W)
      → s.state ≡ data_input
      → Good (s, w)
      → Good (data_handler srv r (s, w))
  unfolding data_handler Good
  data_handler-Good eof s w e (h, i) = (quit-IsSession srv _ (send-IsSession srv _ s h), i)
  data_handler-Good failed s w e (h, i) = (quit-IsSession srv _ (send-IsSession srv _ s h), i)
  data_handler-Good timeout s w e (h, i) =
      (quit-IsSession srv _ (send-IsSession srv _ _ (send-IsSession srv _ s h)), i)
  data_handler-Good (got block) s w e (h, i) =
      let s' = send srv (txt "354 Start mail input; end with <CRLF>.<CRLF>") s in
      let stored =
        deliver-kept s' _ block w (send-state srv _ s ∙ e) (send-IsSession srv _ s h, i) in
      either Good _
        (reset-IsSession srv (send srv (txt "250 Mail accepted for delivery") s'), stored)
        (reset-IsSession srv (send srv (txt "451 Failed to store message") s'), stored)

  round-Good : (r : Read) (s : Session) (w : W) → Good (s, w) → Good (round srv r (s, w)).0
  unfolding round Good
  round-Good r s w (h, i) = go s.state refl
    where
      go : (st : State) → s.state ≡ st → Good (round srv r (s, w)).0
      go data_input e = rw (e, round) (data_handler-Good r s w e (h, i))
      go greet e = rw (e, round) (read_handler-IsSession srv r s h, i)
      go ready e = rw (e, round) (read_handler-IsSession srv r s h, i)
      go login e = rw (e, round) (read_handler-IsSession srv r s h, i)
      go password e = rw (e, round) (read_handler-IsSession srv r s h, i)
      go mail e = rw (e, round) (read_handler-IsSession srv r s h, i)
      go quit e = rw (e, round) (read_handler-IsSession srv r s h, i)

  loop-Good : (rs : List Read) (s : Session) (w : W) → Good (s, w) → Good (loop srv rs (s, w))
  unfolding loop
  loop-Good [] s w g = g
  loop-Good (r ∷ rs) s w g =
      let (s', w') = (round srv r (s, w)).0 in
      let next : Good (round srv r (s, w)).0 = round-Good r s w g in
      either Good (is_done srv s) g
        (either Good (round srv r (s, w)).1 (loop-Good rs _ _ next) next)

  -- Whatever a client sends, a session gives the store only deliveries with a sender and one or more
  -- recipients, within the limit, each of them made from an address and either in a domain that the
  -- policy accepts or allowed by an extension that was asked about it, as the last recipient: a
  -- property that such a delivery keeps holds at the end.
  pub start_session-deliveries :
      (host : Bytes) (reads : List Read) (w : W) → I w → I (start_session srv host reads w).1
  unfolding start_session Good
  start_session-deliveries host reads w i =
      (loop-Good reads _ w (send-IsSession srv _ _ (new_session-IsSession srv host), i)).1

-- Whatever a client sends, the session has a sender in MAIL, also a recipient in DATA, and no recipient
-- in GREET, READY, LOGIN and PASSWORD; at most the configured number of recipients; and each of them
-- was made from an address, and is in a domain that the policy accepts or was allowed by an extension
-- that was asked about it, as the last recipient.
pub start_session-IsSession :
    {W : Type 0} (srv : Server W) (host : Bytes) (reads : List Read) (w : W)
    → IsSession srv (start_session srv host reads w).0
unfolding start_session Good
start_session-IsSession srv host reads w =
    (loop-Good srv (λ x. Unit {0}) (λ o rs a b x n l m i. tt) reads _ w
      (send-IsSession srv _ _ (new_session-IsSession srv host), tt)).0
