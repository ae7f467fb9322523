-- ===== src/Manager/Memory.antt =====
-- The memory store keeps the contract of a message store.
use go_inbucket.Base.{
  ◌≡◌, refl, ap, ◌∙◌, false, Option, none, some, List, [], ◌∷◌, ◌++◌, Bytes, bytes_eq,
  bytes_eq_refl, Option-cases, inl, inr,
}
use go_inbucket.Manager.{MessageStore, IsMessageStore}
use go_inbucket.Storage.Dict.{values}
use go_inbucket.Storage.Mem.Contents.{
  next_message, add_message_lem, messages_of-with_mailbox, newest_snoc, values-append,
}
use go_inbucket.Storage.Mem.Valid.{IsStore, messages_of, add_message-IsStore}
use go_inbucket.Storage.Mem.{Store, add_to_mailbox, add_message}
use go_inbucket.Storage.Message.{Message, Draft}

abbrev id_of : Option Message → Option Bytes
id_of none = none
id_of (some m) = some m.id

-- The memory store without a limit on its bytes.
abbrev pub memory_store : MessageStore Store
memory_store = record {
  add = λ d s. ((add_message d s).0, id_of (add_message d s).1);
  contents = λ name s. values (messages_of name s);
}

add_message-others :
    (d : Draft) (s : Store) (other : Bytes)
    → bytes_eq d.mailbox other ≡ false
    → messages_of other (add_message d s).0 ≡ messages_of other s
unfolding add_message
add_message-others d s other apart = elim (Option-cases d.source) [
  | inl unread ↦ rw (unread, add_message)
  | inr (source, read) ↦
      rw (read, add_message)
        (messages_of-with_mailbox d.mailbox other (add_to_mailbox s.cap d source) s ∙ rw apart)
]

-- The newest entry of a mailbox, after a delivery.
taken :
    (d : Draft) (source : Bytes) (s : Store)
    → IsStore s
    → d.source ≡ some source
    → (m : Message) × (older : List Message) × (id_of (add_message d s).1 ≡ some m.id)
      × (m.source ≡ source)
      × (values (messages_of d.mailbox (add_message d s).0) ≡ older ++ m ∷ [])
taken d source s h read =
    let m = next_message d source s in
    let (added, held) = add_message_lem d source s d.mailbox h read in
    let (r, e) = newest_snoc s.cap (messages_of d.mailbox s) (m.id, m) in
    let ends : messages_of d.mailbox (add_message d s).0 ≡ r ++ (m.id, m) ∷ [] =
      held ∙ rw (bytes_eq_refl d.mailbox) e in
    (m, values r, ap id_of added, refl, ap values ends ∙ values-append r ((m.id, m) ∷ []))

-- The memory store without a limit on its bytes takes each message that can be read as the newest of its
-- mailbox, whatever its cap, and changes no other mailbox.
pub memory_store-IsMessageStore : IsMessageStore memory_store (λ name. Unit {0}) IsStore
memory_store-IsMessageStore = record {
  add-Valid = λ d s served h. add_message-IsStore d s h;
  taken = λ d source s served h read. taken d source s h read;
  others = λ d s other served other_served apart. ap values (add_message-others d s other apart);
}
