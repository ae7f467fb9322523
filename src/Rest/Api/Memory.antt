-- ===== src/Rest/Api/Memory.antt =====
-- The JSON interface over the memory store.
use go_inbucket.Base.{
  ◌≡◌, refl, ap, ◌∙◌, true, false, Option, none, some, List, [], ◌∷◌, map, Bytes, txt, bytes_eq,
  bytes_eq_refl,
}
use go_inbucket.Config.{Root}
use go_inbucket.Manager.Reading.{
  Envelope, mailbox_for_address, get_metadata, get_message, mark_seen, remove_message, Reader,
  read_stored, other_error,
}
use go_inbucket.Manager.Reading.Memory.{stored, stored_if, memory_reader}
use go_inbucket.Policy.Address.{ok}
use go_inbucket.Policy.{Platform}
use go_inbucket.Rest.Api.{
  header_in, message_json, answer_value, with_name_ok, mailbox_list, mailbox_show,
  mailbox_mark_seen, mailbox_delete,
}
use go_inbucket.Rest.{JsonHeader, Json, json_headers, json_message, json_ok}
use go_inbucket.Storage.Dict.{lookup, erase, insert, values, lookup-insert}
use go_inbucket.Storage.Mem.Contents.{
  messages_of-with_mailbox, get_messages_lem, get_message_lem, remove_message_lem,
  remove_message-lookup,
}
use go_inbucket.Storage.Mem.Valid.{IsStore, messages_of, remove_message-IsStore, mark_seen-IsStore}
use go_inbucket.Storage.Mem.{Store}
use go_inbucket.Storage.Mem
use go_inbucket.Storage.Message.{Message, make_metadata}
use go_inbucket.Web.{Response, json, not_found, server_error}

module _ (read_envelope : Bytes → Option Envelope) (platform : Platform) (root : Root) where
  abbrev pub reader : Reader Store
  reader = memory_reader read_envelope platform root

  -- What the list of a mailbox shows of its messages.
  abbrev pub headers : Bytes → List Message → List JsonHeader
  headers name ms = map (λ m. header_in name (make_metadata m)) ms

  map-stored :
      (name : Bytes) (ms : List Message)
      → map (header_in name) (map (λ m. m.meta) (map stored ms)) ≡ headers name ms
  map-stored name [] = refl
  map-stored name (m ∷ ms) = ap (◌∷◌ (header_in name (make_metadata m))) (map-stored name ms)

  mailbox_list_lem :
      (address name : Bytes) (s : Store)
      → IsStore s
      → mailbox_for_address reader address ≡ ok name
      → (mailbox_list reader address s).1
        ≡ json (json_headers (headers name (values (messages_of name s))))
  unfolding mailbox_list get_metadata
  mailbox_list_lem address name s h named =
      ap (λ p. p.1) (with_name_ok reader address name s _ named)
      ∙ ap (λ x. json (json_headers x))
          (map-stored name (Mem.get_messages name s).1
            ∙ ap (headers name) (get_messages_lem name name s h).0)

  -- What is shown of a message that was looked up.
  abbrev pub shown : (Bytes → Bytes) → Bytes → Bytes → Bytes → Option Message → Response Json
  shown md5 host name id none = not_found
  shown md5 host name id (some m) = elim (read_envelope m.source) [
    | none ↦ server_error
    | some env ↦ json (
        json_message
          (message_json md5 host name id (record { meta = make_metadata m; envelope = env })))
  ]

  mailbox_show_lem :
      (md5 : Bytes → Bytes) (host address name id : Bytes) (s : Store)
      → IsStore s
      → bytes_eq id (txt "latest") ≡ false
      → mailbox_for_address reader address ≡ ok name
      → (mailbox_show reader md5 host address id s).1
        ≡ shown md5 host name id (lookup id (messages_of name s))
  unfolding mailbox_show get_message
  mailbox_show_lem md5 host address name id s h plain named =
      ap (λ p. p.1) (with_name_ok reader address name s _ named)
      ∙ go (Mem.get_message name id s).1
      ∙ ap (shown md5 host name id) ((get_message_lem name id name s h).0 ∙ rw plain refl)
    where
      go :
          (o : Option Message)
          → answer_value
              (λ m. json (json_message (message_json md5 host name id m)))
              (elim (stored_if o) [ none ↦ (none, none) | some m ↦ read_stored reader m ])
            ≡ shown md5 host name id o
      go none = refl
      go (some m) = read m (read_envelope m.source)
        where
          read :
              (m : Message) (o : Option Envelope)
              → answer_value
                  (λ m. json (json_message (message_json md5 host name id m)))
                  (elim o [
                    | none ↦ (none, some other_error)
                    | some env ↦ (some (record { meta = make_metadata m; envelope = env }), none)
                  ])
                ≡ elim o [
                  | none ↦ server_error
                  | some env ↦ json (
                      json_message (
                        message_json md5 host name id
                          (record { meta = make_metadata m; envelope = env })))
                ]
          read m none = refl
          read m (some env) = refl

  -- Over the memory store, for an address of a mailbox: the list shows the header of each message of the
  -- mailbox, in the order in which they were stored. For an ID that is not `latest`, a request for
  -- the message is answered with 404 if the mailbox has none of that ID. If it has one, it is answered with
  -- that message, its header the one of the list, if its source can be read as a message, and else
  -- with an error.
  pub mailbox_list-show :
      (md5 : Bytes → Bytes) (host address name id : Bytes) (s : Store)
      → IsStore s
      → bytes_eq id (txt "latest") ≡ false
      → mailbox_for_address reader address ≡ ok name
      → ((mailbox_list reader address s).1
          ≡ json (json_headers (headers name (values (messages_of name s)))))
        × ((mailbox_show reader md5 host address id s).1
            ≡ shown md5 host name id (lookup id (messages_of name s)))
  mailbox_list-show md5 host address name id s h plain named = (
    mailbox_list_lem address name s h named,
    mailbox_show_lem md5 host address name id s h plain named,
  )

  -- Over the memory store, for an address of a mailbox and an ID that is not `latest`: a request to
  -- delete the message is answered with OK, whether or not there is one. A request for it after that is answered
  -- with 404, and the list shows the other messages of the mailbox, in their order.
  pub mailbox_delete-show :
      (md5 : Bytes → Bytes) (host address name id : Bytes) (s : Store)
      → IsStore s
      → bytes_eq id (txt "latest") ≡ false
      → mailbox_for_address reader address ≡ ok name
      → ((mailbox_delete reader address id s).1 ≡ json json_ok)
        × ((mailbox_show reader md5 host address id (mailbox_delete reader address id s).0).1
            ≡ not_found)
        × ((mailbox_list reader address (mailbox_delete reader address id s).0).1
            ≡ json (json_headers (headers name (values (erase id (messages_of name s))))))
  unfolding mailbox_delete remove_message
  mailbox_delete-show md5 host address name id s h plain named =
      let s' = (Mem.remove_message name id s).0 in
      let deleted : mailbox_delete reader address id s ≡ (s', json json_ok) =
        with_name_ok reader address name s _ named in
      let h' = remove_message-IsStore name id s h in
      let left : messages_of name s' ≡ erase id (messages_of name s) =
        (remove_message_lem name id name s).1 ∙ rw (bytes_eq_refl name) refl in
      let gone : lookup id (messages_of name s') ≡ none =
        remove_message-lookup name name id id s ∙ rw (bytes_eq_refl name, bytes_eq_refl id) refl in
      (
        ap (λ p. p.1) deleted,
        ap (λ p. (mailbox_show reader md5 host address id p.0).1) deleted
            ∙ mailbox_show_lem md5 host address name id s' h' plain named
            ∙ ap (shown md5 host name id) gone,
        ap (λ p. (mailbox_list reader address p.0).1) deleted
            ∙ mailbox_list_lem address name s' h' named
            ∙ ap (λ d. json (json_headers (headers name (values d)))) left,
      )

  marked :
      (name id : Bytes) (m : Message) (s : Store)
      → lookup id (messages_of name s) ≡ some m
      → lookup id (messages_of name (Mem.mark_seen name id s)) ≡ some (record m { seen = true })
  unfolding Mem.mark_seen
  marked name id m s found =
      let mb = Mem.mailbox_of name s in
      let left : messages_of name (Mem.mark_seen name id s) ≡ (Mem.mark id mb).0.messages =
        messages_of-with_mailbox name name (Mem.mark id) s ∙ rw (bytes_eq_refl name) refl in
      let into : (Mem.mark id mb).0.messages ≡ insert id (record m { seen = true }) mb.messages =
        rw (found, Mem.mark) refl in
      ap (lookup id) (left ∙ into)
      ∙ lookup-insert id id (record m { seen = true }) mb.messages
      ∙ rw (bytes_eq_refl id) refl

  -- Over the memory store, for an address of a mailbox that has a message of an ID that is not `latest`: a
  -- request that sets `seen` is answered with OK, and after that the message is shown as it was,
  -- but as seen.
  pub mailbox_mark_seen-show :
      (md5 : Bytes → Bytes) (host address name id : Bytes) (m : Message) (s : Store)
      → IsStore s
      → bytes_eq id (txt "latest") ≡ false
      → mailbox_for_address reader address ≡ ok name
      → lookup id (messages_of name s) ≡ some m
      → ((mailbox_mark_seen reader (some true) address id s).1 ≡ json json_ok)
        × ((mailbox_show reader md5 host address id
              (mailbox_mark_seen reader (some true) address id s).0).1
            ≡ shown md5 host name id (some (record m { seen = true })))
  unfolding mailbox_mark_seen mark_seen
  mailbox_mark_seen-show md5 host address name id m s h plain named found =
      let s' = Mem.mark_seen name id s in
      let done : mailbox_mark_seen reader (some true) address id s ≡ (s', json json_ok) =
        with_name_ok reader address name s _ named in
      (
        ap (λ p. p.1) done,
        ap (λ p. (mailbox_show reader md5 host address id p.0).1) done
            ∙ mailbox_show_lem md5 host address name id s' (mark_seen-IsStore name id s h) plain
                named
            ∙ ap (shown md5 host name id) (marked name id m s found),
      )
