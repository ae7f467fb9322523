-- ===== src/Pop3/Deletes.antt =====
-- What a session of pkg/server/pop3/handler.go does to the memory store.
use go_inbucket.Base.{
  ℕ, ◌+◌, ◌≡◌, refl, sym, ap, ◌∙◌, Bool, true, false, not, ◌&&◌, ◌||◌, none, some, List, [], ◌∷◌,
  arith, Bytes, bytes_eq, length, Bool-cases, Option-cases, inl, inr, txt, if◌then◌else◌,
}
use go_inbucket.Config.{Pop3}
use go_inbucket.GoText.{Unicode}
use go_inbucket.Pop3.{Mail, Server, World, Session, send}
use go_inbucket.Pop3.Invariant.{select-some}
use go_inbucket.Pop3.Memory.{memory_server}
use go_inbucket.Pop3.Transaction.{select, remove_all, process_deletes, quit_handler}
use go_inbucket.Storage.Dict.{lookup}
use go_inbucket.Storage.Mem.{Store, remove_message}
use go_inbucket.Storage.Mem.Contents.{remove_message-lookup}
use go_inbucket.Storage.Mem.Valid.{messages_of}

-- Whether a message of this id is marked for deletion.
abbrev pub is_marked : Bytes → List Mail → List Bool → Bool
is_marked id [] flags = false
is_marked id (m ∷ ms) [] = false
is_marked id (m ∷ ms) (f ∷ flags) = (not f && bytes_eq m.id id) || is_marked id ms flags

abbrev has_id : Bytes → List (ℕ × Mail) → Bool
has_id id [] = false
has_id id ((n, m) ∷ ms) = bytes_eq m.id id || has_id id ms

select-marked :
    (id : Bytes) (n : ℕ) (ms : List Mail) (flags : List Bool) (found : List (ℕ × Mail))
    → select false n ms flags ≡ some found
    → has_id id found ≡ is_marked id ms flags
unfolding select
select-marked id n [] flags found e = ground arith
select-marked id n (m ∷ ms) [] found e = absurd (ground arith)
select-marked id n (m ∷ ms) (f ∷ flags) found e =
    elim (Option-cases (select false (n + 1) ms flags)) [
      | inl none_left ↦ ground arith
      | inr (later, r) ↦ ground (arith, select-marked id (n + 1) ms flags later r)
    ]

pub send-keeps :
    {W : Type 0} (srv : Server W) (msg : Bytes) (s : Session)
    → ((send srv msg s).user ≡ s.user)
      × ((send srv msg s).messages ≡ s.messages)
      × ((send srv msg s).retain ≡ s.retain)
unfolding send
send-keeps srv msg s = elim (Bool-cases (srv.write_ok s.writes)) [
  | inl sent ↦ rw sent (refl, refl, refl)
  | inr lost ↦ rw lost (refl, refl, refl)
]

module _ (config : Pop3) (u : Unicode) (write_ok : ℕ → Bool) (handshake : Store → Bool)
    (pid now : ℕ) where
  remove_all-lookup :
      (mailbox other id : Bytes) (ms : List (ℕ × Mail)) (s : Store)
      → lookup id (
          messages_of other
            (remove_all (memory_server config u write_ok handshake pid now) mailbox ms s))
        ≡ (if bytes_eq mailbox other && has_id id ms then none else lookup id (messages_of other s))
  unfolding remove_all
  remove_all-lookup mailbox other id [] s = ground arith
  remove_all-lookup mailbox other id ((n, m) ∷ ms) s =
      remove_all-lookup mailbox other id ms (remove_message mailbox m.id s).0
      ∙ ap (λ x. if bytes_eq mailbox other && has_id id ms then none else x)
          (remove_message-lookup mailbox other m.id id s)
      ∙ merge (bytes_eq mailbox other) (bytes_eq m.id id) (has_id id ms)
    where
      merge :
          (b c d : Bool)
          → (if b && d then none else if b && c then none else lookup id (messages_of other s))
            ≡ (if b && (c || d) then none else lookup id (messages_of other s))
      merge true true true = refl
      merge true true false = refl
      merge true false true = refl
      merge true false false = refl
      merge false c d = refl

  process_deletes-lookup :
      (other id : Bytes) (s : Session) (w : World Store)
      → length s.retain ≡ length s.messages
      → lookup id (
          messages_of other
            (process_deletes (memory_server config u write_ok handshake pid now) (s, w)).1.store)
        ≡ (if bytes_eq s.user other && is_marked id s.messages s.retain
            then none
            else lookup id (messages_of other w.store))
  unfolding process_deletes
  process_deletes-lookup other id s w paired =
      let (marked, e) = select-some false 1 s.messages s.retain paired in
      rw (e, process_deletes)
        (remove_all-lookup s.user other id marked w.store
          ∙ ap
              (λ b.
                if bytes_eq s.user other && b then none else lookup id (messages_of other w.store))
              (select-marked id 1 s.messages s.retain marked e))

  -- QUIT over the memory store, in a session with a flag for each message: the messages of the
  -- session's mailbox under the IDs that are marked are gone from the store, and every other message
  -- of that and of any other mailbox is still there.
  pub quit_handler-lookup :
      (other id : Bytes) (s : Session) (w : World Store)
      → length s.retain ≡ length s.messages
      → lookup id (
          messages_of other
            (quit_handler (memory_server config u write_ok handshake pid now) (s, w)).1.store)
        ≡ (if bytes_eq s.user other && is_marked id s.messages s.retain
            then none
            else lookup id (messages_of other w.store))
  unfolding quit_handler
  quit_handler-lookup other id s w paired =
      let srv = memory_server config u write_ok handshake pid now in
      let s' = send srv (txt "+OK We will process your deletes") s in
      let (same_user, same_messages, same_retain) =
        send-keeps srv (txt "+OK We will process your deletes") s in
      process_deletes-lookup other id s' w
        (ap length same_retain ∙ paired ∙ ap length (sym same_messages))
      ∙ rw (same_user, same_messages, same_retain)
