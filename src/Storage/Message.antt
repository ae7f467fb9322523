-- ===== src/Storage/Message.antt =====
-- The message of pkg/storage/mem/message.go, the interface pkg/storage/storage.go `Message`, and the
-- metadata of pkg/extension/event/events.go. A point in time is a number of nanoseconds.
use go_inbucket.Base.{ℕ, Bool, Option, List, length, Bytes}
use go_inbucket.StringUtil.{Address}

-- What the memory store keeps of a message. The field `el` is the enforcer's, see Mem/Enforcer.
pub record Message : Type 0 where
  pub index : ℕ
  pub mailbox : Bytes
  pub id : Bytes
  pub from : Option Address
  pub to : List Address
  pub date : ℕ
  pub subject : Bytes
  pub source : Bytes
  pub seen : Bool

abbrev pub size : Message → ℕ
size m = length m.source

-- A message that a caller gives to `AddMessage`; `source` is `none` if its reader fails.
pub record Draft : Type 0 where
  pub mailbox : Bytes
  pub from : Option Address
  pub to : List Address
  pub date : ℕ
  pub subject : Bytes
  pub source : Option Bytes

pub record Metadata : Type 0 where
  pub mailbox : Bytes
  pub id : Bytes
  pub from : Option Address
  pub to : List Address
  pub date : ℕ
  pub subject : Bytes
  pub size : ℕ
  pub seen : Bool

-- `MakeMetadata` of pkg/message/manager.go.
abbrev pub make_metadata : Message → Metadata
make_metadata m = record {
  mailbox = m.mailbox;
  id = m.id;
  from = m.from;
  to = m.to;
  date = m.date;
  subject = m.subject;
  size = length m.source;
  seen = m.seen;
}
