-- ===== src/Rest.antt =====
-- pkg/rest: what the JSON interface shows of a message, pkg/rest/model.
pub mod Socket
pub mod Api
use go_inbucket.Base.{ℕ, ◌/◌, Bool, false, Option, none, some, List, map, Bytes}
use go_inbucket.StringUtil.{Address, string_address, string_address_list}
use go_inbucket.Storage.Message.{Metadata}

-- `JSONMessageHeaderV1`.
pub record JsonHeader : Type 0 where
  pub mailbox : Bytes
  pub id : Bytes
  pub from : Bytes
  pub to : List Bytes
  pub subject : Bytes
  pub date : ℕ
  pub posix_millis : ℕ
  pub size : ℕ
  pub seen : Bool

-- `metadataToHeader`, which leaves `Seen` at its zero value.
unfoldable pub metadata_to_header : Metadata → JsonHeader
unfolding string_address string_address_list
metadata_to_header m = record {
  mailbox = m.mailbox;
  id = m.id;
  from = string_address m.from;
  to = string_address_list (map (λ a. some a) m.to);
  subject = m.subject;
  date = m.date;
  posix_millis = m.date / 1000000;
  size = m.size;
  seen = false;
}

-- `JSONMessageAttachmentV1`.
pub record JsonAttachment : Type 0 where
  pub file_name : Bytes
  pub content_type : Bytes
  pub download_link : Bytes
  pub view_link : Bytes
  pub md5 : Bytes

-- `JSONMessageV1`. The fields that it has in common with the header are `summary`, those of its
-- `JSONMessageBodyV1` are `text` and `html`.
pub record JsonMessage : Type 0 where
  pub summary : JsonHeader
  pub text : Bytes
  pub html : Bytes
  pub header : List (Bytes × List Bytes)
  pub attachments : List JsonAttachment

-- What the handlers encode.
pub data Json : Type 0 where
  json_headers : List JsonHeader → Json
  json_message : JsonMessage → Json
  json_ok : Json
