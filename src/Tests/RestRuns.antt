-- ===== src/Tests/RestRuns.antt =====
-- Requests of pkg/rest and pkg/webui to a memory store with one message.
use go_inbucket.Base.{
  ◌≡◌, refl, true, false, Option, none, some, List, [], ◌∷◌, Bytes, txt, bytes_eq,
}
use go_inbucket.Config.{Root, local_naming}
use go_inbucket.GoText.Decimal.{itoa, parse_uint}
use go_inbucket.GoText.{to_lower}
use go_inbucket.Manager.Reading.Memory.{memory_reader}
use go_inbucket.Manager.Reading.{Envelope, Part, Reader, FullMessage, mailbox_for_address}
use go_inbucket.Policy.Address.{ok}
use go_inbucket.Policy.{Platform, extract_mailbox}
use go_inbucket.Rest.Api
use go_inbucket.Rest.Api.Memory.{
  headers, shown, mailbox_list-show, mailbox_delete-show, mailbox_mark_seen-show,
}
use go_inbucket.Rest.Api.{
  mailbox_list, mailbox_show, mailbox_delete, mailbox_mark_seen, attachment_json,
}
use go_inbucket.Rest.{json_headers, json_ok}
use go_inbucket.Storage.Dict.{lookup, values, erase}
use go_inbucket.Storage.Mem
use go_inbucket.Storage.Mem.Valid.{Call, messages_of, run, run-IsStore, empty_store}
use go_inbucket.Sanitize.Tags.{Tokenizer}
use go_inbucket.Storage.Mem.{Store}
use go_inbucket.Storage.Message.{Draft, Message, make_metadata}
use go_inbucket.Tests.SmtpRuns.{settings, ascii_only}
use go_inbucket.Web.{json, not_found, panicked}
use go_inbucket.Webui
use go_inbucket.Webui.Missing.{mailbox_html-missing}

abbrev platform : Platform
platform = record { unicode = ascii_only; parse_ip = λ s. false }

abbrev root : Root
root = record { mailbox_naming = local_naming; smtp = settings }

abbrev icon : Part
icon = record { content_type = txt "image/png"; file_name = txt "i.png"; content = txt "PNG" }

-- Each message has one attachment.
abbrev read_envelope : Bytes → Option Envelope
read_envelope source = some (record {
  header = [];
  text = source;
  html = [];
  inlines = [];
  attachments = icon ∷ [];
  errors = [];
})

abbrev draft : Draft
draft = record {
  mailbox = txt "fred";
  from = none;
  to = [];
  date = 2000000;
  subject = txt "hi";
  source = some (txt "Subject: hi");
}

abbrev calls : List Call
calls = Call.add draft ∷ []

abbrev store : Store
store = run calls (empty_store 0)

abbrev reader : Reader Store
reader = memory_reader read_envelope platform root

named : mailbox_for_address reader (txt "Fred") ≡ ok (txt "fred")
unfolding mailbox_for_address extract_mailbox txt bytes_eq to_lower
named = refl

plain : bytes_eq (txt "1") (txt "latest") ≡ false
unfolding bytes_eq txt
plain = refl

abbrev first : Message
first = record {
  index = 1;
  mailbox = txt "fred";
  id = itoa 1;
  from = none;
  to = [];
  date = 2000000;
  subject = txt "hi";
  source = txt "Subject: hi";
  seen = false;
}

abbrev md5 : Bytes → Bytes
md5 s = []

abbrev fred : Bytes
fred = txt "fred"

one_of : lookup (txt "1") (messages_of fred store) ≡ some first
unfolding run txt bytes_eq itoa
one_of = refl

listed_and_shown :
    ((mailbox_list reader (txt "Fred") store).1
      ≡ json (
          json_headers
            (headers read_envelope platform root fred (values (messages_of fred store)))))
    × ((mailbox_show reader md5 (txt "host") (txt "Fred") (txt "1") store).1
        ≡ shown read_envelope platform root md5
            (txt "host")
            fred
            (txt "1")
            (lookup (txt "1") (messages_of fred store)))
listed_and_shown =
    mailbox_list-show read_envelope platform root md5 (txt "host") (txt "Fred") fred (txt "1") store
      (run-IsStore calls 0) plain named

mailbox_delete-show_example :
    let s' = (mailbox_delete reader (txt "Fred") (txt "1") store).0 in
    ((mailbox_delete reader (txt "Fred") (txt "1") store).1 ≡ json json_ok)
    × ((mailbox_show reader md5 (txt "host") (txt "Fred") (txt "1") s').1 ≡ not_found)
    × ((mailbox_list reader (txt "Fred") s').1
        ≡ json (
            json_headers (
              headers read_envelope platform root fred
                (values (erase (txt "1") (messages_of fred store))))))
mailbox_delete-show_example =
    mailbox_delete-show read_envelope platform root md5 (txt "host") (txt "Fred") fred (txt "1")
      store (run-IsStore calls 0) plain named

shown_as_seen :
    ((mailbox_mark_seen reader (some true) (txt "Fred") (txt "1") store).1 ≡ json json_ok)
    × ((mailbox_show reader md5
          (txt "host")
          (txt "Fred")
          (txt "1")
          (mailbox_mark_seen reader (some true) (txt "Fred") (txt "1") store).0).1
        ≡ shown read_envelope platform root md5
            (txt "host")
            fred
            (txt "1")
            (some (record first { seen = true })))
shown_as_seen =
    mailbox_mark_seen-show read_envelope platform root md5 (txt "host") (txt "Fred") fred (txt "1")
      first store (run-IsStore calls 0) plain named one_of

abbrev no_tokens : Tokenizer
no_tokens = record {
  css = record { unicode = ascii_only; scan = λ s. []; type_name = λ t. [] };
  tokenize = λ s. ([], false);
  escape = λ s. s;
  policy = λ s. s;
}

mailbox_html-missing_example :
    ((Api.mailbox_source reader (txt "Fred") (txt "7") store).1 ≡ not_found)
    × ((Webui.mailbox_message reader no_tokens (λ s. s) (txt "Fred") (txt "7") store).1 ≡ not_found)
    × ((Webui.mailbox_html reader (txt "Fred") (txt "7") store).1 ≡ panicked)
    × ((Webui.mailbox_source reader (txt "Fred") (txt "7") store).1 ≡ panicked)
    × ((Webui.mailbox_view_attach reader (txt "Fred") (txt "7") (txt "0") store).1 ≡ panicked)
unfolding run txt bytes_eq itoa Webui.parse_uint32 parse_uint
mailbox_html-missing_example =
    mailbox_html-missing read_envelope platform root no_tokens (λ s. s) (txt "Fred") fred (txt "7")
      (txt "0") 0 store (run-IsStore calls 0) refl named refl refl

abbrev full : FullMessage
full = record {
  meta = make_metadata first;
  envelope = record {
    header = [];
    text = txt "Subject: hi";
    html = [];
    inlines = [];
    attachments = icon ∷ [];
    errors = [];
  };
}
