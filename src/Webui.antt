-- ===== src/Webui.antt =====
-- pkg/webui/mailbox_controller.go: what the user interface reads of a message.
pub mod Attachments
pub mod Missing
use go_inbucket.Base.{
  ◌≡◌, ap, ℕ, zero, suc, ◌+◌, ◌^◌, ◌/◌, Bool, true, false, Option, none, some, List, [], ◌∷◌, ◌++◌,
  map, leb, ltb, if◌then◌else◌, Bytes, txt, length, get_elem?,
}
use go_inbucket.GoText.Decimal.{itoa, parse_uint}
use go_inbucket.Manager.Reading.{
  Part, MimeError, StoreError, not_exist, other_error, Returned, Reader, FullMessage,
  attachments_of, get_message, source_reader, mailbox_for_address,
}
use go_inbucket.Policy.Address.{Result, ok, err}
use go_inbucket.Rest.Api.{header_in}
use go_inbucket.Rest.{JsonHeader}
use go_inbucket.Sanitize.Tags.{Tokenizer, html, is_nil}
use go_inbucket.Web.{Response, json, not_found, body, server_error, panicked}

-- `jsonAttachment`.
pub record UiAttachment : Type 0 where
  pub id : Bytes
  pub file_name : Bytes
  pub content_type : Bytes

-- `jsonMessage`; the fields that it has in common with the header are `summary`.
pub record UiMessage : Type 0 where
  pub summary : JsonHeader
  pub header : List (Bytes × List Bytes)
  pub text : Bytes
  pub html : Bytes
  pub attachments : List UiAttachment
  pub errors : List MimeError

-- The loop over the attachments, from the number of the first.
unfoldable pub list_attachments : ℕ → List Part → List UiAttachment
list_attachments i [] = []
list_attachments i (part ∷ parts) =
    record { id = itoa i; file_name = part.file_name; content_type = part.content_type }
    ∷ list_attachments (suc i) parts

-- The HTML of a message, or what stands for it if the sanitizer fails.
unfoldable pub safe_html : Tokenizer → Bytes → Bytes
safe_html z source =
    if is_nil source
    then []
    else elim (html z source) [ none ↦ txt "Inbucket HTML sanitizer failed." | some b ↦ b ]

-- `text_html` is `web.TextToHTML`.
unfoldable pub message_json : Tokenizer → (Bytes → Bytes) → Bytes → FullMessage → UiMessage
unfolding safe_html list_attachments
message_json z text_html name m = record {
  summary = header_in name m.meta;
  header = m.envelope.header;
  text = text_html m.envelope.text;
  html = safe_html z m.envelope.html;
  attachments = list_attachments 0 (attachments_of m);
  errors = m.envelope.errors;
}

-- Three of the handlers test the error alone, and then use the value, which may be nil.
abbrev pub answer_used : {A J : Type 0} → (A → Response J) → Returned A → Response J
answer_used f (v, some not_exist) = not_found
answer_used f (v, some other_error) = server_error
answer_used f (none, none) = panicked
answer_used f (some a, none) = f a

-- `strconv.ParseUint(s, 10, 32)`.
unfoldable pub parse_uint32 : Bytes → Option ℕ
parse_uint32 s = elim (parse_uint s) [
  | none ↦ none
  | some n ↦ if ltb n 4294967296 then some n else none
]

abbrev pub part_body : Option Part → Response UiMessage
part_body none = server_error
part_body (some part) = body part.content_type part.content

-- The attachment of a number; none is a server error.
abbrev pub view : ℕ → FullMessage → Response UiMessage
view num m =
    if leb (length (attachments_of m)) num
    then server_error
    else part_body (get_elem? (attachments_of m) num)

module _ {S : Type 0} (r : Reader S) where
  abbrev pub with_name : Bytes → S → (Bytes → S × Response UiMessage) → S × Response UiMessage
  with_name address s f = elim (mailbox_for_address r address) [
    | err e ↦ (s, server_error)
    | ok name ↦ f name
  ]

  pub with_name_ok :
      (address name : Bytes) (s : S) (f : Bytes → S × Response UiMessage)
      → mailbox_for_address r address ≡ ok name
      → with_name address s f ≡ f name
  with_name_ok address name s f named =
      ap (λ (x : Result Bytes). elim x [ err e ↦ (s, server_error) | ok n ↦ f n ]) named

  abbrev answer_value :
      (FullMessage → Response UiMessage) → Returned FullMessage → Response UiMessage
  answer_value f (v, some other_error) = server_error
  answer_value f (none, _) = not_found
  answer_value f (some m, _) = f m

  unfoldable pub mailbox_message :
      Tokenizer → (Bytes → Bytes) → Bytes → Bytes → S → S × Response UiMessage
  mailbox_message z text_html address id s = with_name address s (λ name.
      let (s', returned) = get_message r name id s in
      (s', answer_value (λ m. json (message_json z text_html name m)) returned))

  -- The HTML of the message as it is, for a frame of its own.
  unfoldable pub mailbox_html : Bytes → Bytes → S → S × Response UiMessage
  mailbox_html address id s = with_name address s (λ name.
      let (s', returned) = get_message r name id s in
      (s', answer_used (λ m. body (txt "text/html; charset=UTF-8") m.envelope.html) returned))

  unfoldable pub mailbox_source : Bytes → Bytes → S → S × Response UiMessage
  mailbox_source address id s = with_name address s (λ name.
      let (s', returned) = source_reader r name id s in
      (s', answer_used (λ source. body (txt "text/plain") source) returned))

  unfoldable pub mailbox_view_attach : Bytes → Bytes → Bytes → S → S × Response UiMessage
  mailbox_view_attach address id num s = with_name address s (λ name. elim (parse_uint32 num) [
    | none ↦ (s, server_error)
    | some n ↦ let (s', returned) = get_message r name id s in (s', answer_used (view n) returned)
  ])
