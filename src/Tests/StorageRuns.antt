-- ===== src/Tests/StorageRuns.antt =====
-- The memory store on concrete messages: pkg/storage/mem and pkg/stringutil.
use mathlib.Core.List.{Permᴰ}
use go_inbucket.Base.{
  ℕ, zero, suc, ◌≡◌, ◌≢◌, refl, arith, Option, none, some, List, [], ◌∷◌, ◌++◌, map, Bytes, txt,
  bytes_eq, length, if◌then◌else◌, All,
}
use go_inbucket.GoText.Decimal.{itoa}
use go_inbucket.Storage.Dict.{Dict, lookup, erase, values}
use go_inbucket.Storage.Mem.Cap.{IsOrdered, IsValid, newest}
use go_inbucket.Storage.Mem.Contents.{
  messages_if, next_message, to_list, add_message_lem, get_messages_lem, get_message_lem,
  remove_message_lem, get_message-add_message,
}
use go_inbucket.Storage.Mem.Enforcer.Add.{add-within}
use go_inbucket.Storage.Mem.Enforcer.Quota.{Agrees, IsShrunk}
use go_inbucket.Storage.Mem.Enforcer.{Enforcer, Limited, entry_of, add}
use go_inbucket.Storage.Mem.Order.{sort_by_index-Perm}
use go_inbucket.Storage.Mem.Valid.{Call, IsStore, messages_of, run, empty_store, run-IsStore}
use go_inbucket.Storage.Mem.{
  Mailbox, Store, mailbox_of, message_of, add_message, get_messages, get_message, remove_message,
  last_of, sort_by_index,
}
use go_inbucket.Storage.Message.{Message, Draft, make_metadata}
use go_inbucket.StringUtil.{match_with_wildcards}
use go_inbucket.StringUtil.Glob.{glob, match_with_wildcards-glob}

abbrev pub fred : Bytes
fred = txt "fred"

abbrev pub body : Bytes
body = txt "Subject: a"

abbrev pub draft : Draft
draft = record {
  mailbox = fred;
  from = none;
  to = [];
  date = 7;
  subject = txt "a";
  source = some body;
}

abbrev pub two : List Call
two = Call.add draft ∷ Call.add draft ∷ []

abbrev pub stored_two : Store
stored_two = run two (empty_store 0)

run-IsStore_example : IsStore stored_two
run-IsStore_example = run-IsStore two 0

add_message_lem_example :
    ((add_message draft stored_two).1 ≡ some (next_message draft body stored_two))
    × (messages_of fred (add_message draft stored_two).0
        ≡ messages_if fred fred
            (newest stored_two.cap (
              messages_of fred stored_two
              ++ ((next_message draft body stored_two).id, next_message draft body stored_two)
                ∷ []))
            stored_two)
add_message_lem_example = add_message_lem draft body stored_two fred run-IsStore_example refl

messages_of_two :
    ((get_messages fred stored_two).1 ≡ values (messages_of fred stored_two))
    × (messages_of fred (get_messages fred stored_two).0 ≡ messages_of fred stored_two)
messages_of_two = get_messages_lem fred fred stored_two run-IsStore_example

message_of_two :
    ((get_message fred (txt "2") stored_two).1 ≡ (
      if bytes_eq (txt "2") (txt "latest")
      then last_of (values (messages_of fred stored_two))
      else lookup (txt "2") (messages_of fred stored_two)))
    × (messages_of fred (get_message fred (txt "2") stored_two).0 ≡ messages_of fred stored_two)
message_of_two = get_message_lem fred (txt "2") fred stored_two run-IsStore_example

removed_from_two :
    ((remove_message fred (txt "1") stored_two).1 ≡ lookup (txt "1") (messages_of fred stored_two))
    × (messages_of fred (remove_message fred (txt "1") stored_two).0
        ≡ messages_if fred fred (erase (txt "1") (messages_of fred stored_two)) stored_two)
    × ((remove_message fred (txt "1") stored_two).0.deleted
        ≡ stored_two.deleted
          ++ map make_metadata (to_list (lookup (txt "1") (messages_of fred stored_two))))
removed_from_two = remove_message_lem fred (txt "1") fred stored_two

get_message-add_message_example :
    ((get_message fred (next_message draft body stored_two).id (add_message draft stored_two).0).1
      ≡ some (next_message draft body stored_two))
    × ((get_message fred (txt "latest") (add_message draft stored_two).0).1
        ≡ some (next_message draft body stored_two))
get_message-add_message_example =
    get_message-add_message draft body stored_two run-IsStore_example refl

-- A mailbox with two messages.
abbrev one : Message
one = message_of draft body 1

abbrev other : Message
other = message_of draft body 2

abbrev entries : Dict Message
entries = (itoa 1, one) ∷ (itoa 2, other) ∷ []

abbrev mailbox : Mailbox
mailbox = record { name = fred; last = 2; first = 0; messages = entries }

entries-IsOrdered : IsOrdered 0 2 entries
entries-IsOrdered =
    (refl, refl, omega arith, omega arith, (refl, refl, omega arith, omega arith, tt))

mailbox-IsValid : IsValid mailbox
mailbox-IsValid = record { ordered = entries-IsOrdered; within = omega arith }

sorted_two : sort_by_index (other ∷ one ∷ []) ≡ values entries
sorted_two =
    sort_by_index-Perm 0 2 entries (other ∷ one ∷ []) entries-IsOrdered ∣ Permᴰ.swap refl refl ∣₁

-- An empty store with an enforcer that has seen nothing.
abbrev idle : Enforcer
idle = record { max_size = 12; all = []; cur_size = 0 }

empty-Agrees : Agrees [] 0 (empty_store 0)
unfolding mailbox_of
empty-Agrees = record { same = λ n i. refl; distinct = tt; summed = refl }

add-within_example :
    let m = next_message draft body (empty_store 0) in
    (enf' : Enforcer) × (s' : Store) × (add draft
        (record { store = empty_store 0; enforcer = some idle })
      ≡ some (record { store = s'; enforcer = some enf' }, some m.id))
    × IsShrunk idle.max_size (idle.all ++ entry_of m ∷ []) enf' s'
unfolding run
add-within_example =
    add-within draft body (empty_store 0) idle (run-IsStore [] 0) refl refl empty-Agrees

-- The messages of the mailbox after `n` deliveries to a store with a cap of one message and a limit
-- of 12 bytes.
abbrev deliveries : ℕ → Option Limited
deliveries zero = some (record { store = empty_store 1; enforcer = some idle })
deliveries (suc n) = elim (deliveries n) [
  | none ↦ none
  | some l ↦ elim (add draft l) [ none ↦ none | some (l', id) ↦ some l' ]
]

abbrev held : ℕ → Option ℕ
held n = elim (deliveries n) [ none ↦ none | some l ↦ some (length (messages_of fred l.store)) ]

-- The entry of the message that the cap dropped still counts its 10 bytes, so no later message stays.
starved : (held 1 ≡ some 1) × (held 2 ≡ some 0) × (held 3 ≡ some 0)
unfolding add txt mailbox_of bytes_eq itoa
starved = (refl, refl, refl)

abbrev plain_text : List ℕ
plain_text = txt "a.org"

plain_text-All : All (λ x. x ≢ b'*') plain_text
unfolding txt
plain_text-All = (
  λ e. omega (arith, e),
  (
    λ e. omega (arith, e),
    (λ e. omega (arith, e), (λ e. omega (arith, e), (λ e. omega (arith, e), tt))),
  ),
)

match_with_wildcards-glob_example :
    match_with_wildcards (txt "*.o?g") plain_text ≡ glob (txt "*.o?g") plain_text
match_with_wildcards-glob_example =
    match_with_wildcards-glob (txt "*.o?g") plain_text plain_text-All
