-- ===== src/Manager.antt =====
-- pkg/message/manager.go: the delivery of a message, between the SMTP session and the store.
pub mod Deliver
pub mod Memory
pub mod Disk
pub mod Session
pub mod Reading
use go_inbucket.Base.{
  ℕ, Bool, true, false, Option, none, some, List, [], ◌∷◌, ◌++◌, ◌≡◌, map, if◌then◌else◌, Bytes,
  bytes_eq, txt, length,
}
use go_inbucket.Config.{Root}
use go_inbucket.Policy.{Platform, Origin, Recipient, should_store_domain}
use go_inbucket.Smtp.{origin_address, recipient_address}
use go_inbucket.Storage.Message.{Message, Draft, Metadata}
use go_inbucket.StringUtil.{Address}

-- What a delivery needs of a store, pkg/storage/storage.go: `AddMessage`, whose `none` is an error,
-- and what a reader finds in a mailbox.
pub record MessageStore (S : Type 0) : Type 0 where
  pub add : Draft → S → S × Option Bytes
  pub contents : Bytes → S → List Message

-- A store takes each message that can be read, as the newest of its mailbox, and changes no other, as
-- far as the mailboxes are `Served`.
pub record IsMessageStore {S : Type 0} (store : MessageStore S) (Served : Bytes → Type 0)
    (Valid : S → Type 0) : Type 0 where
  pub add-Valid : (d : Draft) (s : S) → Served d.mailbox → Valid s → Valid (store.add d s).0
  pub taken :
      (d : Draft) (source : Bytes) (s : S)
      → Served d.mailbox
      → Valid s
      → d.source ≡ some source
      → (m : Message) × (older : List Message) × ((store.add d s).1 ≡ some m.id)
        × (m.source ≡ source)
        × (store.contents d.mailbox (store.add d s).0 ≡ older ++ m ∷ [])
  pub others :
      (d : Draft) (s : S) (other : Bytes)
      → Served d.mailbox
      → Served other
      → bytes_eq d.mailbox other ≡ false
      → store.contents other (store.add d s).0 ≡ store.contents other s

-- `event.InboundMessage`; the sender is a pointer.
pub record Inbound : Type 0 where
  pub mailboxes : List Bytes
  pub from : Option Address
  pub to : List Address
  pub subject : Bytes
  pub size : ℕ

-- The header of a message. `none` is a list that cannot be parsed.
pub record Header : Type 0 where
  pub from : Option (List Address)
  pub to : Option (List Address)
  pub subject : Bytes

-- `StoreManager`. `decode` is `enmime.DecodeHeaders` with `ParseAddressList` of its fields, `none` an
-- error; `before_stored` is `BeforeMessageStored.Emit`; `now` the time, and `stamp` its text.
pub record Manager (S : Type 0) : Type 0 where
  pub platform : Platform
  pub root : Root
  pub store : MessageStore S
  pub decode : Bytes → Option Header
  pub before_stored : Inbound → Option Inbound
  pub now : ℕ
  pub stamp : Bytes

-- The store, the `AfterMessageStored` events, and whether a nil sender was read.
pub record World (S : Type 0) : Type 0 where
  pub store : S
  pub stored : List Metadata
  pub panicked : Bool

abbrev from_origin : Option Origin → Option Address
from_origin none = none
from_origin (some o) = some (origin_address o)

-- `fromAddrs[0]`; `none` if a nil sender is read for it.
unfoldable pub sender_of : Header → Option Origin → Option Address
sender_of h from = elim h.from [
  | none ↦ from_origin from
  | some [] ↦ from_origin from
  | some (a ∷ more) ↦ some a
]

unfoldable pub to_of : Header → List Recipient → List Address
to_of h recipients = elim h.to [ none ↦ map recipient_address recipients | some to ↦ to ]

module _ {S : Type 0} (m : Manager S) where
  -- The mailboxes that the address policy stores to.
  unfoldable pub stored_in : List Recipient → List Bytes
  unfolding should_store_domain
  stored_in [] = []
  stored_in (r ∷ rs) =
      let rest = stored_in rs in
      if should_store_domain m.platform.unicode m.root r.domain then r.mailbox ∷ rest else rest

  -- The message after the extensions or the policy have settled its mailboxes.
  unfoldable pub settle : Header → Address → List Recipient → Bytes → Inbound
  unfolding stored_in to_of
  settle h sender recipients source =
      let inbound : Inbound = record {
        mailboxes = map (λ r. r.mailbox) recipients;
        from = some sender;
        to = to_of h recipients;
        subject = h.subject;
        size = length source;
      } in
      elim (m.before_stored inbound) [
        | none ↦ record inbound { mailboxes = stored_in recipients }
        | some changed ↦ changed
      ]

  -- What is stored for a mailbox: two header lines, then what the client sent.
  unfoldable pub stored_source : Origin → Bytes → Bytes → Bytes → Bytes
  unfolding txt
  stored_source o recvd mailbox source =
      (txt "Return-Path: <" ++ o.address ++ b'>' ∷ b'\r' ∷ b'\n' ∷ [])
      ++ (recvd ++ txt "  for <" ++ mailbox ++ txt ">; " ++ m.stamp ++ b'\r' ∷ b'\n' ∷ [])
      ++ source

  abbrev pub draft_for : Origin → Inbound → Bytes → Bytes → Bytes → Draft
  draft_for o inbound recvd source mailbox = record {
    mailbox = mailbox;
    from = inbound.from;
    to = inbound.to;
    date = m.now;
    subject = inbound.subject;
    source = some (stored_source o recvd mailbox source);
  }

  abbrev pub event_for : Inbound → Bytes → Bytes → Metadata
  event_for inbound mailbox id = record {
    mailbox = mailbox;
    id = id;
    from = inbound.from;
    to = inbound.to;
    date = m.now;
    subject = inbound.subject;
    size = inbound.size;
    seen = false;
  }

  -- The loop over the mailboxes, and whether it met no error.
  unfoldable pub deliver_all :
      Option Origin → Inbound → Bytes → Bytes → List Bytes → World S → World S × Bool
  unfolding stored_source
  deliver_all from inbound recvd source [] w = (w, true)
  deliver_all none inbound recvd source (mailbox ∷ mailboxes) w =
      (record w { panicked = true }, false)
  deliver_all (some o) inbound recvd source (mailbox ∷ mailboxes) w =
      let (s, added) = m.store.add (draft_for o inbound recvd source mailbox) w.store in
      elim added [
        | none ↦ (record w { store = s }, false)
        | some id ↦
            deliver_all (some o) inbound recvd source mailboxes
              (record w { store = s; stored = w.stored ++ event_for inbound mailbox id ∷ [] })
      ]

  -- `Deliver`; false is an error, or the panic.
  unfoldable pub deliver : Option Origin → List Recipient → Bytes → Bytes → World S → World S × Bool
  unfolding sender_of settle deliver_all
  deliver from recipients recvd source w = elim (m.decode source) [
    | none ↦ (w, false)
    | some h ↦ elim (sender_of h from) [
      | none ↦ (record w { panicked = true }, false)
      | some sender ↦
          let inbound = settle h sender recipients source in
          deliver_all from inbound recvd source inbound.mailboxes w
    ]
  ]
