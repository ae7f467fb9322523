-- ===== src/Pop3/Unquit.antt =====
-- What a session of pkg/server/pop3/handler.go that does not come to QUIT does to the store.
use go_inbucket.Base.{
  ℕ, ◌≡◌, ◌⊎◌, refl, ◌∙◌, Bool, true, false, not, ◌||◌, List, [], ◌∷◌, Bytes, bytes_eq, Bool-cases,
  Option-cases, inl, inr, if◌then◌else◌, txt,
}
use go_inbucket.Config.{Pop3}
use go_inbucket.GoText.{Unicode}
use go_inbucket.Pop3.{
  State, authorization, transaction, quit, Server, World, Session, load_mailbox, send, new_session,
}
use go_inbucket.Pop3.Invariant.Run.{is_done-quit}
use go_inbucket.Pop3.Loop.{
  commands, parse_cmd, enter_mailbox, stls_handler, authorization_handler, state_handler,
  command_handler, round, is_done, greeting, loop, start_session,
}
use go_inbucket.Pop3.Memory.{memory_server}
use go_inbucket.Pop3.Transaction.{
  Command, quit_session, user, pass, apop, stls, quit_handler, transaction_handler,
}
use go_inbucket.Smtp.Transaction.{Read, got, eof, timeout, failed}
use go_inbucket.Storage.Dict.{lookup}
use go_inbucket.Storage.Mem.{Store}
use go_inbucket.Storage.Mem.Contents.{messages_of-get_messages}
use go_inbucket.Storage.Mem.Valid.{messages_of}

-- A property of the store that reading a mailbox keeps.
module _ {W : Type 0} (srv : Server W) (I : W → Type 0)
    (reading : (name : Bytes) (w : W) → I w → I (srv.get_messages name w).0) where
  abbrev Kept : Session × World W → Type 0
  Kept sw = (sw.0.state ≡ quit) ⊎ I sw.1.store

  either-Kept : (b : Bool) (p q : Session × World W) → Kept p → Kept q → Kept (if b then p else q)
  either-Kept true p q hp hq = hp
  either-Kept false p q hp hq = hq

  enter_mailbox-Kept : (s : Session) (w : World W) → I w.store → Kept (enter_mailbox srv (s, w))
  unfolding enter_mailbox load_mailbox
  enter_mailbox-Kept s w h = inr (reading s.user w.store h)

  stls_handler-Kept :
      (cmd : Bytes) (s : Session) (w : World W) → I w.store → Kept (stls_handler srv cmd (s, w))
  unfolding stls_handler
  stls_handler-Kept cmd s w h =
      elim (Bool-cases (not srv.config.tls_enabled || srv.config.force_tls)) [
        | inl off ↦ rw (off, stls_handler) (inr h)
        | inr on ↦ elim (Bool-cases w.tls) [
          | inl again ↦ rw (on, stls_handler, again) (inr h)
          | inr first ↦ rw (on, stls_handler, first) (inr h)
        ]
      ]

  authorization_handler-Kept :
      (c : Command) (cmd : Bytes) (args : List Bytes) (s : Session) (w : World W)
      → I w.store
      → Kept (authorization_handler srv c cmd args (s, w))
  unfolding authorization_handler
  authorization_handler-Kept quit_session cmd args s w h = inl refl
  authorization_handler-Kept stls cmd args s w h = stls_handler-Kept cmd s w h
  authorization_handler-Kept user cmd [] s w h = inr h
  authorization_handler-Kept user cmd (name ∷ args) s w h = inr h
  authorization_handler-Kept pass cmd args s w h = elim (Bool-cases (bytes_eq s.user [])) [
    | inl unnamed ↦ rw (unnamed, authorization_handler) (inr h)
    | inr named ↦ rw (named, authorization_handler) (enter_mailbox-Kept s w h)
  ]
  authorization_handler-Kept apop cmd [] s w h = inr h
  authorization_handler-Kept apop cmd (name ∷ []) s w h = inr h
  authorization_handler-Kept apop cmd (name ∷ digest ∷ []) s w h =
      enter_mailbox-Kept (record s { user = name }) w h
  authorization_handler-Kept apop cmd (a ∷ b ∷ c ∷ args) s w h = inr h
  authorization_handler-Kept _ cmd args s w h = inr h

  transaction_handler-Kept :
      (c : Command) (cmd : Bytes) (args : List Bytes) (s : Session) (w : World W)
      → I w.store
      → Kept (transaction_handler srv c cmd args (s, w))
  unfolding transaction_handler
  transaction_handler-Kept quit_session cmd args s w h = inl (unfold quit_handler in refl)
  transaction_handler-Kept _ cmd args s w h = inr h

  state_handler-Kept :
      (st : State) (c : Command) (cmd : Bytes) (args : List Bytes) (s : Session) (w : World W)
      → I w.store
      → Kept (state_handler srv st c cmd args (s, w)).0
  unfolding state_handler
  state_handler-Kept authorization c cmd args s w h = authorization_handler-Kept c cmd args s w h
  state_handler-Kept transaction c cmd args s w h = transaction_handler-Kept c cmd args s w h
  state_handler-Kept quit c cmd args s w h = inr h

  command_handler-Kept :
      (cmd : Bytes) (args : List Bytes) (s : Session) (w : World W)
      → I w.store
      → Kept (command_handler srv cmd args (s, w)).0
  unfolding command_handler
  command_handler-Kept cmd args s w h = elim (Bool-cases (bytes_eq cmd (txt "CAPA"))) [
    | inl capa ↦ rw (capa, command_handler) (inr h)
    | inr other ↦ elim (Bool-cases (bytes_eq cmd [])) [
      | inl empty ↦ rw (other, command_handler, empty) (inr h)
      | inr word ↦ elim (Option-cases (lookup cmd commands)) [
        | inl unknown ↦ rw (other, command_handler, word, unknown) (inr h)
        | inr (c, known) ↦
            rw (other, command_handler, word, known) (state_handler-Kept s.state c cmd args s w h)
      ]
    ]
  ]

  round-Kept : (r : Read) (s : Session) (w : World W) → I w.store → Kept (round srv r (s, w)).0
  unfolding round
  round-Kept eof s w h = inr h
  round-Kept timeout s w h = inr h
  round-Kept failed s w h = inr h
  round-Kept (got line) s w h =
      command_handler-Kept (parse_cmd srv.unicode line).0 (parse_cmd srv.unicode line).1 s w h

  loop-Kept :
      (reads : List Read) (s : Session) (w : World W) → Kept (s, w) → Kept (loop srv reads (s, w))
  unfolding loop
  loop-Kept [] s w h = h
  loop-Kept (r ∷ rs) s w (inl stopped) = elim (Bool-cases (is_done s)) [
    | inl done ↦ rw (done, loop) (inl stopped)
    | inr running ↦ absurd (is_done-quit s running stopped)
  ]
  loop-Kept (r ∷ rs) s w (inr h) = elim (Bool-cases (is_done s)) [
    | inl done ↦ rw (done, loop) (inr h)
    | inr running ↦
        let ((s', w'), more) = round srv r (s, w) in
        let h' : Kept (s', w') = round-Kept r s w h in
        rw (running, loop)
          (either-Kept more (loop srv rs (s', w')) (s', w') (loop-Kept rs s' w' h') h')
  ]

  start_session-Kept :
      (reads : List Read) (w : World W) → I w.store → Kept (start_session srv reads w)
  unfolding start_session
  start_session-Kept reads w h =
      loop-Kept reads (send srv (greeting srv) new_session)
        (if srv.config.force_tls then record w { tls = true } else w)
        (inr (either srv.config.force_tls))
    where
      either : (b : Bool) → I (if b then record w { tls = true } else w).store
      either true = h
      either false = h

-- A session that does not end by QUIT, whatever the client sends, wherever a write fails and however
-- the connection is lost, leaves the messages of every mailbox of a store in memory as they were.
pub start_session-messages_of :
    (config : Pop3) (u : Unicode) (write_ok : ℕ → Bool) (handshake : Store → Bool) (pid now : ℕ)
    (reads : List Read) (w : World Store) (other : Bytes)
    → ¬ (start_session (memory_server config u write_ok handshake pid now) reads w).0.state ≡ quit
    → messages_of other
        (start_session (memory_server config u write_ok handshake pid now) reads w).1.store
      ≡ messages_of other w.store
start_session-messages_of config u write_ok handshake pid now reads w other unquit =
    let srv = memory_server config u write_ok handshake pid now in
    elim (start_session-Kept srv (λ s. messages_of other s ≡ messages_of other w.store)
      (λ name s h. messages_of-get_messages name other s ∙ h) reads w refl) [
        | inl ended ↦ absurd (unquit ended)
        | inr kept ↦ kept
      ]
