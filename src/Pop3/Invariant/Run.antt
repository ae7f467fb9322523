-- ===== src/Pop3/Invariant/Run.antt =====
-- `authorizationHandler` and the loop of pkg/server/pop3/handler.go: every line read is answered, and no index is out of range.
use go_inbucket.Base.{
  ℕ, suc, ◌<◌, ◌≡◌, refl, Bool, true, false, not, ◌&&◌, ◌||◌, List, [], ◌∷◌, ◌++◌, arith, Bytes,
  bytes_eq, Bool-cases, Option-cases, inl, inr, txt, if◌then◌else◌,
}
use go_inbucket.GoText.Decimal.{itoa}
use go_inbucket.Pop3.{
  State, authorization, transaction, quit, Server, World, Session, new_session, send, send_all,
  oo_seq, retain_all, load_mailbox, or_empty,
}
use go_inbucket.Pop3.Invariant.{
  IsCounted, Since, Since-weaken, retain_all-Since, send-Since, send_all-Since, oo_seq-Since,
  enter_state-Since,
}
use go_inbucket.Pop3.Invariant.Handlers.{transaction_handler-Since}
use go_inbucket.Pop3.Loop.{
  capabilities, commands, parse_cmd, enter_mailbox, stls_handler, authorization_handler,
  capa_handler, state_handler, command_handler, round, is_done, greeting, loop, start_session,
}
use go_inbucket.Pop3.Transaction.{Command, quit_session, user, pass, apop, stls}
use go_inbucket.Smtp.Transaction.{Read, got, eof, timeout, failed}
use go_inbucket.Storage.Dict.{lookup}

either-Since :
    (k : ℕ) (b : Bool) (s t : Session) → Since k s → Since k t → Since k (if b then s else t)
either-Since k true s t hs ht = hs
either-Since k false s t hs ht = ht

named-Since : (k : ℕ) (name : Bytes) (s : Session) → Since k s → Since k (record s { user = name })
named-Since k name s h = record {
  valid = record { paired = h.valid.paired; counted = h.valid.counted; calm = h.valid.calm };
  tried = h.tried;
}

module _ {W : Type 0} (srv : Server W) where
  enter_mailbox-Since :
      (k : ℕ) (s : Session) (w : World W) → Since k s → Since (suc k) (enter_mailbox srv (s, w)).0
  unfolding enter_mailbox load_mailbox
  enter_mailbox-Since k s w h =
      let loaded =
        retain_all (record s { messages = or_empty (srv.get_messages s.user w.store).1 }) in
      enter_state-Since (suc k) transaction _ (
        send-Since srv k
          (txt "+OK Found " ++ itoa loaded.msg_count ++ txt " messages for " ++ loaded.user) loaded
          (retain_all-Since k (record s { messages = or_empty (srv.get_messages s.user w.store).1 })
            h.valid.calm h.tried))

  stls_handler-Since :
      (k : ℕ) (cmd : Bytes) (s : Session) (w : World W)
      → Since k s
      → Since (suc k) (stls_handler srv cmd (s, w)).0
  unfolding stls_handler
  stls_handler-Since k cmd s w h =
      elim (Bool-cases (not srv.config.tls_enabled || srv.config.force_tls)) [
        | inl off ↦ rw (off, stls_handler) (send-Since srv k _ s h)
        | inr on ↦ elim (Bool-cases w.tls) [
          | inl again ↦ rw (on, stls_handler, again) (send-Since srv k _ s h)
          | inr first ↦
              let s' = send srv (txt "+OK Begin TLS Negotiation") s in
              let told = send-Since srv k (txt "+OK Begin TLS Negotiation") s h in
              rw (on, stls_handler, first)
                (either-Since (suc k) (srv.handshake w.store) s' (oo_seq srv cmd s') told (
                  Since-weaken (suc k) (suc (suc k)) (oo_seq srv cmd s') (omega arith)
                    (oo_seq-Since srv (suc k) cmd s' told)))
        ]
      ]

  authorization_handler-Since :
      (k : ℕ) (c : Command) (cmd : Bytes) (args : List Bytes) (s : Session) (w : World W)
      → Since k s
      → Since (suc k) (authorization_handler srv c cmd args (s, w)).0
  unfolding authorization_handler
  authorization_handler-Since k quit_session cmd args s w h =
      enter_state-Since (suc k) quit _ (send-Since srv k (txt "+OK Goodnight and good luck") s h)
  authorization_handler-Since k stls cmd args s w h = stls_handler-Since k cmd s w h
  authorization_handler-Since k user cmd [] s w h = send-Since srv k _ s h
  authorization_handler-Since k user cmd (name ∷ args) s w h =
      send-Since srv k _ (record s { user = name }) (named-Since k name s h)
  authorization_handler-Since k pass cmd args s w h = elim (Bool-cases (bytes_eq s.user [])) [
    | inl unnamed ↦ rw (unnamed, authorization_handler) (oo_seq-Since srv k cmd s h)
    | inr named ↦ rw (named, authorization_handler) (enter_mailbox-Since k s w h)
  ]
  authorization_handler-Since k apop cmd [] s w h = send-Since srv k _ s h
  authorization_handler-Since k apop cmd (name ∷ []) s w h = send-Since srv k _ s h
  authorization_handler-Since k apop cmd (name ∷ digest ∷ []) s w h =
      enter_mailbox-Since k (record s { user = name }) w (named-Since k name s h)
  authorization_handler-Since k apop cmd (a ∷ b ∷ c ∷ args) s w h = send-Since srv k _ s h
  authorization_handler-Since k _ cmd args s w h = oo_seq-Since srv k cmd s h

  capa_handler-Since :
      (k : ℕ) (w : World W) (s : Session) → Since k s → Since (suc k) (capa_handler srv w s)
  unfolding capa_handler
  capa_handler-Since k w s h =
      let listed = txt "+OK Capability list follows" ∷ capabilities in
      let s1 = send_all srv listed s in
      let all = send_all-Since srv k listed s h in
      send-Since srv k (b'.' ∷ []) _ (
        either-Since k (srv.config.tls_enabled && not w.tls && not srv.config.force_tls)
          (send srv (txt "STLS") s1) s1
          (Since-weaken k (suc k) (send srv (txt "STLS") s1) (omega arith)
            (send-Since srv k (txt "STLS") s1 all))
          all)

  state_handler-Since :
      (k : ℕ) (st : State) (c : Command) (cmd : Bytes) (args : List Bytes) (s : Session)
      (w : World W)
      → ¬ st ≡ quit
      → Since k s
      → Since (suc k) (state_handler srv st c cmd args (s, w)).0.0
  unfolding state_handler
  state_handler-Since k authorization c cmd args s w on h =
      authorization_handler-Since k c cmd args s w h
  state_handler-Since k transaction c cmd args s w on h =
      transaction_handler-Since srv k c cmd args s w h
  state_handler-Since k quit c cmd args s w on h = absurd (on refl)

  command_handler-Since :
      (k : ℕ) (cmd : Bytes) (args : List Bytes) (s : Session) (w : World W)
      → ¬ s.state ≡ quit
      → Since k s
      → Since (suc k) (command_handler srv cmd args (s, w)).0.0
  unfolding command_handler
  command_handler-Since k cmd args s w on h = elim (Bool-cases (bytes_eq cmd (txt "CAPA"))) [
    | inl capa ↦ rw (capa, command_handler) (capa_handler-Since k w s h)
    | inr other ↦ elim (Bool-cases (bytes_eq cmd [])) [
      | inl empty ↦ rw (other, command_handler, empty) (send-Since srv k _ s h)
      | inr word ↦ elim (Option-cases (lookup cmd commands)) [
        | inl unknown ↦ rw (other, command_handler, word, unknown) (send-Since srv k _ s h)
        | inr (c, known) ↦
            rw (other, command_handler, word, known)
              (state_handler-Since k s.state c cmd args s w on h)
      ]
    ]
  ]

  round-Since :
      (k : ℕ) (r : Read) (s : Session) (w : World W)
      → ¬ s.state ≡ quit
      → Since k s
      → Since k (round srv r (s, w)).0.0
  unfolding round
  round-Since k eof s w on h = h
  round-Since k timeout s w on h = Since-weaken k (suc k) _ (omega arith) (send-Since srv k _ s h)
  round-Since k failed s w on h = Since-weaken k (suc k) _ (omega arith) (send-Since srv k _ s h)
  round-Since k (got line) s w on h =
      let (cmd, args) = parse_cmd srv.unicode line in
      Since-weaken k (suc k) (command_handler srv cmd args (s, w)).0.0 (omega arith)
        (command_handler-Since k cmd args s w on h)

pub is_done-quit : (s : Session) → is_done s ≡ false → ¬ s.state ≡ quit
unfolding is_done
is_done-quit s running stopped = ground arith

-- A session that meets the invariant and has not ended
-- answers every line it reads: it tries to send one line or more.
pub round-answers :
    {W : Type 0} (srv : Server W) (line : Bytes) (s : Session) (w : World W)
    → IsCounted s
    → is_done s ≡ false
    → s.writes < (round srv (got line) (s, w)).0.0.writes
unfolding round
round-answers srv line s w v running =
    let (cmd, args) = parse_cmd srv.unicode line in
    (command_handler-Since srv s.writes cmd args s w (is_done-quit s running)
      (record { valid = v; tried = omega arith })).tried

new_session-Since : Since 0 new_session
unfolding new_session
new_session-Since = record {
  valid = record { paired = refl; counted = refl; calm = refl };
  tried = omega arith;
}

either-IsCounted :
    {W : Type 0} (b : Bool) (p q : Session × World W)
    → IsCounted p.0
    → IsCounted q.0
    → IsCounted (if b then p else q).0
either-IsCounted true p q hp hq = hp
either-IsCounted false p q hp hq = hq

module _ {W : Type 0} (srv : Server W) where
  loop-IsCounted :
      (reads : List Read) (s : Session) (w : World W)
      → IsCounted s
      → IsCounted (loop srv reads (s, w)).0
  unfolding loop
  loop-IsCounted [] s w v = v
  loop-IsCounted (r ∷ rs) s w v = elim (Bool-cases (is_done s)) [
    | inl done ↦ rw (done, loop) v
    | inr running ↦
        let ((s', w'), more) = round srv r (s, w) in
        let v' : IsCounted s' =
          (round-Since srv 0 r s w (is_done-quit s running)
            (record { valid = v; tried = omega arith })).valid in
        rw (running, loop)
          (either-IsCounted more (loop srv rs (s', w')) (s', w') (loop-IsCounted rs s' w' v') v')
  ]

  -- Whatever the store answers, whatever a client sends and wherever a write fails, a session ends
  -- with a flag for each of its messages, with the number of the flags that are set as its message
  -- count, and without an index out of range.
  pub start_session-IsCounted :
      (reads : List Read) (w : World W) → IsCounted (start_session srv reads w).0
  unfolding start_session
  start_session-IsCounted reads w =
      let s = send srv (greeting srv) new_session in
      loop-IsCounted reads s (if srv.config.force_tls then record w { tls = true } else w)
        (send-Since srv 0 (greeting srv) new_session new_session-Since).valid
