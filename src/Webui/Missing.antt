-- ===== src/Webui/Missing.antt =====
-- A message that is not there, in the memory store: its calls return neither a value nor an error.
use go_inbucket.Base.{ℕ, ◌≡◌, refl, ap, ◌∙◌, false, Option, none, some, Bytes, txt, bytes_eq}
use go_inbucket.Config.{Root}
use go_inbucket.Manager.Reading.Memory.{stored_if, memory_reader}
use go_inbucket.Manager.Reading.{
  Envelope, mailbox_for_address, get_message, source_reader, read_stored, source_returned,
}
use go_inbucket.Policy.Address.{ok}
use go_inbucket.Policy.{Platform}
use go_inbucket.Rest.Api
use go_inbucket.Rest.Api.{mailbox_show}
use go_inbucket.Storage.Dict.{lookup}
use go_inbucket.Storage.Mem
use go_inbucket.Storage.Mem.Contents.{get_message_lem}
use go_inbucket.Storage.Mem.Valid.{IsStore, messages_of}
use go_inbucket.Storage.Mem.{Store}
use go_inbucket.Storage.Message.{Message}
use go_inbucket.Sanitize.Tags.{Tokenizer}
use go_inbucket.Web.{not_found, panicked}
use go_inbucket.Webui.{
  parse_uint32, mailbox_message, mailbox_html, mailbox_source, mailbox_view_attach, with_name_ok,
}

module _ (read_envelope : Bytes → Option Envelope) (platform : Platform) (root : Root) where
  missing :
      (name id : Bytes) (s : Store)
      → IsStore s
      → bytes_eq id (txt "latest") ≡ false
      → lookup id (messages_of name s) ≡ none
      → (Mem.get_message name id s).1 ≡ none
  missing name id s h plain gone = (get_message_lem name id name s h).0 ∙ rw plain gone

  get_message-missing :
      (name id : Bytes) (s : Store)
      → (Mem.get_message name id s).1 ≡ none
      → (get_message (memory_reader read_envelope platform root) name id s).1 ≡ (none, none)
  unfolding get_message
  get_message-missing name id s gone =
      ap
        (λ (o : Option Message). elim (stored_if o) [
          | none ↦ (none, none)
          | some m ↦ read_stored (memory_reader read_envelope platform root) m
        ])
        gone

  source_reader-missing :
      (name id : Bytes) (s : Store)
      → (Mem.get_message name id s).1 ≡ none
      → (source_reader (memory_reader read_envelope platform root) name id s).1 ≡ (none, none)
  unfolding source_reader
  source_reader-missing name id s gone =
      ap
        (λ (o : Option Message). elim (stored_if o) [
          | none ↦ (none, none)
          | some m ↦ source_returned (memory_reader read_envelope platform root) m
        ])
        gone

  -- Over the memory store, for an address of a mailbox that has no message of an ID that is not
  -- `latest`: the source of the JSON interface answers with 404, and so does the user interface when it is
  -- asked for the message, but asked for its HTML, its source or any attachment, by a number below 2 ^ 32,
  -- the user interface uses a nil pointer.
  pub mailbox_html-missing :
      (z : Tokenizer) (text_html : Bytes → Bytes) (address name id num : Bytes) (n : ℕ) (s : Store)
      → IsStore s
      → bytes_eq id (txt "latest") ≡ false
      → mailbox_for_address (memory_reader read_envelope platform root) address ≡ ok name
      → lookup id (messages_of name s) ≡ none
      → parse_uint32 num ≡ some n
      → ((Api.mailbox_source (memory_reader read_envelope platform root) address id s).1
          ≡ not_found)
        × ((mailbox_message (memory_reader read_envelope platform root) z text_html address id s).1
            ≡ not_found)
        × ((mailbox_html (memory_reader read_envelope platform root) address id s).1 ≡ panicked)
        × ((mailbox_source (memory_reader read_envelope platform root) address id s).1 ≡ panicked)
        × ((mailbox_view_attach (memory_reader read_envelope platform root) address id num s).1
            ≡ panicked)
  unfolding Api.mailbox_source mailbox_message mailbox_html mailbox_source mailbox_view_attach
  mailbox_html-missing z text_html address name id num n s h plain named gone parsed =
      let r = memory_reader read_envelope platform root in
      let none_there = missing name id s h plain gone in
      let no_message = get_message-missing name id s none_there in
      let no_source = source_reader-missing name id s none_there in
      (
        ap (λ p. p.1) (Api.with_name_ok r address name s _ named) ∙ rw no_source refl,
        ap (λ p. p.1) (with_name_ok r address name s _ named) ∙ rw no_message refl,
        ap (λ p. p.1) (with_name_ok r address name s _ named) ∙ rw no_message refl,
        ap (λ p. p.1) (with_name_ok r address name s _ named) ∙ rw no_source refl,
        ap (λ p. p.1) (with_name_ok r address name s _ named) ∙ rw (parsed, no_message) refl,
      )
