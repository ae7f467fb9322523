-- ===== src/Rest/Api.antt =====
-- pkg/rest/apiv1_controller.go: the handlers of the JSON interface, each from the address and the ID of
-- its path. The MD5 sum of a text in hexadecimal, and the host of the request, are parameters.
pub mod Memory
use go_inbucket.Base.{
  ◌≡◌, ap, ℕ, zero, suc, ◌+◌, Bool, true, false, Option, none, some, List, [], ◌∷◌, ◌++◌, map,
  if◌then◌else◌, Bytes, txt,
}
use go_inbucket.GoText.Decimal.{itoa}
use go_inbucket.Manager.Reading.{
  Part, StoreError, not_exist, other_error, Returned, Reader, FullMessage, attachments_of,
  get_metadata, get_message, source_reader, mark_seen, purge_messages, remove_message,
  mailbox_for_address,
}
use go_inbucket.Policy.Address.{Result, ok, err}
use go_inbucket.Rest.{
  JsonHeader, metadata_to_header, JsonAttachment, JsonMessage, Json, json_headers, json_message,
  json_ok,
}
use go_inbucket.Storage.Message.{Metadata}
use go_inbucket.Web.{Response, json, not_found, body, server_error}

-- The header of a message of a mailbox, in `MailboxListV1` and `MailboxShowV1`.
unfoldable pub header_in : Bytes → Metadata → JsonHeader
unfolding metadata_to_header
header_in name m = record (metadata_to_header m) { mailbox = name; seen = m.seen }

-- A JSON body that was sent: `none` if it cannot be decoded, else its `seen`.
abbrev pub Decoded : Type 0
Decoded = Option Bool

module _ (md5 : Bytes → Bytes) (host : Bytes) where
  abbrev pub link_to : Bytes → Bytes → ℕ → Part → Bytes
  link_to name id i part =
      txt "http://"
      ++ (host
          ++ (txt "/serve/mailbox/"
              ++ (name ++ (b'/' ∷ id ++ (txt "/attach/" ++ (itoa i ++ (b'/' ∷ part.file_name)))))))

  abbrev pub attachment_json : Bytes → Bytes → ℕ → Part → JsonAttachment
  attachment_json name id i part = record {
    file_name = part.file_name;
    content_type = part.content_type;
    download_link = link_to name id i part;
    view_link = link_to name id i part;
    md5 = md5 part.content;
  }

  -- The loop over the attachments, from the number of the first.
  unfoldable pub list_attachments : Bytes → Bytes → ℕ → List Part → List JsonAttachment
  list_attachments name id i [] = []
  list_attachments name id i (part ∷ parts) =
      attachment_json name id i part ∷ list_attachments name id (suc i) parts

  unfoldable pub message_json : Bytes → Bytes → FullMessage → JsonMessage
  unfolding list_attachments
  message_json name id m = record {
    summary = header_in name m.meta;
    text = m.envelope.text;
    html = m.envelope.html;
    header = m.envelope.header;
    attachments = list_attachments name id 0 (attachments_of m);
  }

-- What a handler does with the error of a call that returns nothing else.
abbrev pub answer_done : Option StoreError → Response Json
answer_done none = json json_ok
answer_done (some not_exist) = not_found
answer_done (some other_error) = server_error

-- And with the value and the error of one that returns both.
abbrev pub answer_value {ℓ} : {A : Type ℓ} → (A → Response Json) → Returned A → Response Json
answer_value f (v, some other_error) = server_error
answer_value f (none, _) = not_found
answer_value f (some a, _) = f a

module _ {S : Type 0} (r : Reader S) where
  -- The start of each handler.
  abbrev pub with_name : Bytes → S → (Bytes → S × Response Json) → S × Response Json
  with_name address s f = elim (mailbox_for_address r address) [
    | err e ↦ (s, server_error)
    | ok name ↦ f name
  ]

  pub with_name_ok :
      (address name : Bytes) (s : S) (f : Bytes → S × Response Json)
      → mailbox_for_address r address ≡ ok name
      → with_name address s f ≡ f name
  with_name_ok address name s f named =
      ap (λ (x : Result Bytes). elim x [ err e ↦ (s, server_error) | ok n ↦ f n ]) named

  unfoldable pub mailbox_list : Bytes → S → S × Response Json
  mailbox_list address s = with_name address s (λ name.
      let (s', (messages, error)) = get_metadata r name s in
      (
        s',
        elim error [
          | some e ↦ server_error
          | none ↦ json (json_headers (map (header_in name) messages))
        ],
      ))

  unfoldable pub mailbox_show : (Bytes → Bytes) → Bytes → Bytes → Bytes → S → S × Response Json
  mailbox_show md5 host address id s = with_name address s (λ name.
      let (s', returned) = get_message r name id s in
      (s', answer_value (λ m. json (json_message (message_json md5 host name id m))) returned))

  unfoldable pub mailbox_mark_seen : Decoded → Bytes → Bytes → S → S × Response Json
  mailbox_mark_seen decoded address id s = with_name address s (λ name. elim decoded [
    | none ↦ (s, server_error)
    | some seen ↦
        let (s', error) = mark_seen r name id s in
        if seen then (s', answer_done error) else (s, json json_ok)
  ])

  -- Any error of a purge is a server error.
  unfoldable pub mailbox_purge : Bytes → S → S × Response Json
  mailbox_purge address s = with_name address s (λ name.
      let (s', error) = purge_messages r name s in
      (s', elim error [ none ↦ json json_ok | some e ↦ server_error ]))

  unfoldable pub mailbox_source : Bytes → Bytes → S → S × Response Json
  mailbox_source address id s = with_name address s (λ name.
      let (s', returned) = source_reader r name id s in
      (s', answer_value (λ source. body (txt "text/plain") source) returned))

  unfoldable pub mailbox_delete : Bytes → Bytes → S → S × Response Json
  mailbox_delete address id s =
      with_name address s
        (λ name. let (s', error) = remove_message r name id s in (s', answer_done error))
