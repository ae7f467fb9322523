-- ===== src/Manager/Reading.antt =====
-- pkg/message/manager.go: the calls of the manager that read and change stored messages; message.go.
pub mod Memory
use go_inbucket.Base.{ℕ, Bool, Option, none, some, List, [], ◌∷◌, ◌++◌, map, Bytes}
use go_inbucket.Config.{Root}
use go_inbucket.Policy.Address.{Result}
use go_inbucket.Policy.{Platform, extract_mailbox}
use go_inbucket.Storage.Message.{Metadata}

-- What the MIME parser makes of a message.
pub record Part : Type 0 where
  pub content_type : Bytes
  pub file_name : Bytes
  pub content : Bytes

pub record MimeError : Type 0 where
  pub name : Bytes
  pub detail : Bytes
  pub severe : Bool

pub record Envelope : Type 0 where
  pub header : List (Bytes × List Bytes)
  pub text : Bytes
  pub html : Bytes
  pub inlines : List Part
  pub attachments : List Part
  pub errors : List MimeError

pub data StoreError : Type 0 where
  not_exist : StoreError
  other_error : StoreError

-- A `storage.Message`: its getters, and its source, `none` if that cannot be read.
pub record Stored : Type 0 where
  pub meta : Metadata
  pub source : Option Bytes

-- What Go returns for a pointer and an error: each may be nil.
abbrev pub Returned {ℓ} : Type ℓ → Type ℓ
Returned A = Option A × Option StoreError

-- The calls of a `storage.Store` that the manager passes on.
pub record ContentStore (S : Type 0) : Type 0 where
  pub get_messages : Bytes → S → S × (List Stored × Option StoreError)
  pub get_message : Bytes → Bytes → S → S × Returned Stored
  pub mark_seen : Bytes → Bytes → S → S × Option StoreError
  pub purge_messages : Bytes → S → S × Option StoreError
  pub remove_message : Bytes → Bytes → S → S × Option StoreError

-- `StoreManager`; `read_envelope` is enmime's, `none` an error.
pub record Reader (S : Type 0) : Type 0 where
  pub store : ContentStore S
  pub read_envelope : Bytes → Option Envelope
  pub platform : Platform
  pub root : Root

-- `message.Message`.
pub record FullMessage : Type 0 where
  pub meta : Metadata
  pub envelope : Envelope

-- `Attachments`.
abbrev pub attachments_of : FullMessage → List Part
attachments_of m = m.envelope.inlines ++ m.envelope.attachments

module _ {S : Type 0} (r : Reader S) where
  unfoldable pub get_metadata : Bytes → S → S × (List Metadata × Option StoreError)
  get_metadata mailbox s =
      let (s', (messages, error)) = r.store.get_messages mailbox s in
      (s', (elim error [ none ↦ map (λ m. m.meta) messages | some e ↦ [] ], error))

  abbrev pub read_stored : Stored → Returned FullMessage
  read_stored sm = elim sm.source [
    | none ↦ (none, some other_error)
    | some source ↦ elim (r.read_envelope source) [
      | none ↦ (none, some other_error)
      | some env ↦ (some (record { meta = sm.meta; envelope = env }), none)
    ]
  ]

  unfoldable pub get_message : Bytes → Bytes → S → S × Returned FullMessage
  get_message mailbox id s =
      let (s', (sm, error)) = r.store.get_message mailbox id s in
      (
        s',
        elim error [
          | some e ↦ (none, some e)
          | none ↦ elim sm [ none ↦ (none, none) | some m ↦ read_stored m ]
        ],
      )

  abbrev pub source_returned : Stored → Returned Bytes
  source_returned sm = elim sm.source [
    | none ↦ (none, some other_error)
    | some source ↦ (some source, none)
  ]

  unfoldable pub source_reader : Bytes → Bytes → S → S × Returned Bytes
  source_reader mailbox id s =
      let (s', (sm, error)) = r.store.get_message mailbox id s in
      (
        s',
        elim error [
          | some e ↦ (none, some e)
          | none ↦ elim sm [ none ↦ (none, none) | some m ↦ source_returned m ]
        ],
      )

  unfoldable pub mark_seen : Bytes → Bytes → S → S × Option StoreError
  mark_seen mailbox id s = r.store.mark_seen mailbox id s

  unfoldable pub purge_messages : Bytes → S → S × Option StoreError
  purge_messages mailbox s = r.store.purge_messages mailbox s

  unfoldable pub remove_message : Bytes → Bytes → S → S × Option StoreError
  remove_message mailbox id s = r.store.remove_message mailbox id s

  unfoldable pub mailbox_for_address : Bytes → Result Bytes
  mailbox_for_address mailbox = extract_mailbox r.platform r.root mailbox
