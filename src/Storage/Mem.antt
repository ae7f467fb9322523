-- ===== src/Storage/Mem.antt =====
-- The in-memory store, pkg/storage/mem/store.go: its state and its operations. Each runs under the
-- store's locks, so an operation is one step; a map is an association list, and what the source does
-- for every entry of a map it does here in the order of insertion.
pub mod Cap
pub mod Order
pub mod Valid
pub mod Contents
pub mod Enforcer
use go_inbucket.Base.{
  ℕ, zero, suc, ◌+◌, ◌≡◌, Bool, true, false, Option, none, some, List, [], ◌∷◌, ◌++◌, map, ltb, leb,
  if◌then◌else◌, Bytes, txt, bytes_eq, length,
}
use go_inbucket.GoText.Decimal.{itoa}
use go_inbucket.Storage.Dict.{Dict, lookup, insert, erase, values}
use go_inbucket.Storage.Message.{Message, Draft, Metadata, make_metadata}

pub record Mailbox : Type 0 where
  pub name : Bytes
  pub last : ℕ
  pub first : ℕ
  pub messages : Dict Message

-- `deleted` is the sequence of `AfterMessageDeleted` events. A cap of 0 or less is 0 here.
pub record Store : Type 0 where
  pub boxes : Dict Mailbox
  pub cap : ℕ
  pub deleted : List Metadata

abbrev pub new_mailbox : Bytes → Mailbox
new_mailbox name = record { name = name; last = 0; first = 0; messages = [] }

-- The mailbox that `withMailbox` hands to its callback, created if it is not there.
unfoldable pub mailbox_of : Bytes → Store → Mailbox
mailbox_of name s = elim (lookup name s.boxes) [ none ↦ new_mailbox name | some mb ↦ mb ]

-- `withMailbox`, for a callback that changes the mailbox and returns a value.
unfoldable pub with_mailbox {ℓ} : {R : Type ℓ} → Bytes → (Mailbox → Mailbox × R) → Store → Store × R
unfolding mailbox_of
with_mailbox name f s =
    let (mb, r) = f (mailbox_of name s) in (record s { boxes = insert name mb s.boxes }, r)

-- The loop that enforces the cap, on fuel.
unfoldable pub enforce_cap : ℕ → ℕ → Mailbox → Mailbox
enforce_cap zero cap mb = mb
enforce_cap (suc fuel) cap mb =
    let smaller =
      enforce_cap fuel cap
        (record mb { messages = erase (itoa mb.first) mb.messages; first = mb.first + 1 }) in
    if ltb cap (length mb.messages) then smaller else mb

abbrev pub message_of : Draft → Bytes → ℕ → Message
message_of d source index = record {
  index = index;
  mailbox = d.mailbox;
  id = itoa index;
  from = d.from;
  to = d.to;
  date = d.date;
  subject = d.subject;
  source = source;
  seen = false;
}

-- The callback of `AddMessage`. `first` passes `last + 1` in `last + 2` rounds, so the fuel is enough.
unfoldable pub add_to_mailbox : ℕ → Draft → Bytes → Mailbox → Mailbox × Message
unfolding enforce_cap
add_to_mailbox cap d source mb =
    let m = message_of d source (mb.last + 1) in
    let mb' = record mb {
      last = mb.last + 1;
      messages = insert (itoa (mb.last + 1)) m mb.messages;
    } in
    (if ltb 0 cap then enforce_cap (mb.last + 3) cap mb' else mb', m)

-- `AddMessage` of a store without a limit on its bytes, whose `enforcerDeliver` does nothing; with a limit
-- it is `add` of Mem/Enforcer. `none` if the message cannot be read.
unfoldable pub add_message : Draft → Store → Store × Option Message
unfolding with_mailbox add_to_mailbox
add_message d s = elim d.source [
  | none ↦ (s, none)
  | some source ↦
      let (s', m) = with_mailbox d.mailbox (add_to_mailbox s.cap d source) s in (s', some m)
]

-- `sort.Slice` by index.
unfoldable pub insert_sorted : Message → List Message → List Message
insert_sorted m [] = m ∷ []
insert_sorted m (n ∷ ms) =
    let later = insert_sorted m ms in if ltb m.index n.index then m ∷ n ∷ ms else n ∷ later

unfoldable pub sort_by_index : List Message → List Message
unfolding insert_sorted
sort_by_index [] = []
sort_by_index (m ∷ ms) = insert_sorted m (sort_by_index ms)

-- The callbacks of `GetMessages`, `GetMessage`, `MarkSeen`, `removeMessage` and `PurgeMessages`.
abbrev pub list_all : Mailbox → Mailbox × List Message
list_all mb = (mb, sort_by_index (values mb.messages))

abbrev pub find : Bytes → Mailbox → Mailbox × Option Message
find id mb = (mb, lookup id mb.messages)

abbrev pub mark : Bytes → Mailbox → Mailbox × Unit {0}
mark id mb = (
  elim (lookup id mb.messages) [
    | none ↦ mb
    | some m ↦ record mb { messages = insert id (record m { seen = true }) mb.messages }
  ],
  tt,
)

abbrev pub take_out : Bytes → Mailbox → Mailbox × Option Message
take_out id mb = (
  elim (lookup id mb.messages) [
    | none ↦ mb
    | some m ↦ record mb { messages = erase id mb.messages }
  ],
  lookup id mb.messages,
)

abbrev pub clear : Mailbox → Mailbox × List Message
clear mb = (record mb { messages = [] }, values mb.messages)

unfoldable pub get_messages : Bytes → Store → Store × List Message
unfolding with_mailbox sort_by_index
get_messages mailbox s = with_mailbox mailbox list_all s

abbrev pub last_of {ℓ} : {A : Type ℓ} → List A → Option A
last_of [] = none
last_of (x ∷ []) = some x
last_of (x ∷ y ∷ xs) = last_of (y ∷ xs)

unfoldable pub get_message : Bytes → Bytes → Store → Store × Option Message
unfolding get_messages with_mailbox
get_message mailbox id s =
    if bytes_eq id (txt "latest")
    then (let (s', ms) = get_messages mailbox s in (s', last_of ms))
    else with_mailbox mailbox (find id) s

unfoldable pub mark_seen : Bytes → Bytes → Store → Store
unfolding with_mailbox
mark_seen mailbox id s = (with_mailbox mailbox (mark id) s).0

-- The `AfterMessageDeleted` events of some messages.
abbrev pub emit_deleted : List Message → Store → Store
emit_deleted ms s = record s { deleted = s.deleted ++ map make_metadata ms }

-- The store after `removeMessage`, and the message that it removed.
unfoldable pub remove_message : Bytes → Bytes → Store → Store × Option Message
unfolding with_mailbox
remove_message mailbox id s =
    let (s', m) = with_mailbox mailbox (take_out id) s in
    (elim m [ none ↦ s' | some m ↦ emit_deleted (m ∷ []) s' ], m)

-- `PurgeMessages`, with the messages that it removed.
unfoldable pub purge_messages : Bytes → Store → Store × List Message
unfolding with_mailbox
purge_messages mailbox s = let (s', ms) = with_mailbox mailbox clear s in (emit_deleted ms s', ms)

-- The loop of `VisitMailboxes` over the names, for a callback that may itself change the store.
unfoldable pub visit_names {ℓ} :
    {W : Type ℓ}
    → (List Message → W × Store → (W × Store) × Bool)
    → List Bytes
    → W × Store
    → W × Store
unfolding get_messages
visit_names f [] ws = ws
visit_names f (name ∷ names) ws =
    let (s', ms) = get_messages name ws.1 in
    let (ws', more) = f ms (ws.0, s') in
    let rest = visit_names f names ws' in if more then rest else ws'

abbrev pub keys {ℓ} : {V : Type ℓ} → Dict V → List Bytes
keys [] = []
keys ((k, v) ∷ d) = k ∷ keys d

unfoldable pub visit_mailboxes {ℓ} :
    {W : Type ℓ} → (List Message → W × Store → (W × Store) × Bool) → W × Store → W × Store
unfolding visit_names
visit_mailboxes f ws = visit_names f (keys ws.1.boxes) ws
