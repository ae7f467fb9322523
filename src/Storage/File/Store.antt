-- ===== src/Storage/File/Store.antt =====
-- The operations of pkg/storage/file/fstore.go, with newMessage of fmessage.go.
use go_inbucket.Base.{
  ℕ, zero, suc, ◌+◌, ◌/◌, ◌%◌, Bool, true, false, not, ◌&&◌, Option, none, some, List, [], ◌∷◌,
  ◌++◌, map, if◌then◌else◌, Bytes, bytes_eq, txt, ltb, leb, length,
}
use go_inbucket.Storage.Dict.{lookup, insert}
use go_inbucket.Storage.File.{
  Entry, worked, failed, Host, Disk, Mbox, dir_of, entry_metadata, tick, put_dir, create_dir,
  remove_raw, load, write_index, remove_loaded, remove_message, purge,
}
use go_inbucket.Storage.Mem.{last_of, keys}
use go_inbucket.Storage.Message.{Draft}

abbrev pub digit : ℕ → ℕ
digit n = 48 + n % 10

-- `%04d` of a number below 10000.
abbrev pub four_digits : ℕ → Bytes
four_digits n = digit (n / 1000) ∷ digit (n / 100) ∷ digit (n / 10) ∷ digit n ∷ []

abbrev pub entry_for : Draft → Bytes → Bytes → Entry
entry_for m source id = record {
  id = id;
  date = m.date;
  from = m.from;
  to = m.to;
  subject = m.subject;
  size = length source;
  seen = false;
}

abbrev pub find_entry : Bytes → List Entry → Option Entry
find_entry id [] = none
find_entry id (e ∷ es) = if bytes_eq e.id id then some e else find_entry id es

-- The entries with the first one of an ID marked, and whether the index has to be written.
abbrev pub mark : Bytes → List Entry → List Entry × Bool
mark id [] = ([], true)
mark id (e ∷ es) =
    let (es', write) = mark id es in
    if bytes_eq e.id id
    then (if e.seen then (e ∷ es, false) else (record e { seen = true } ∷ es, true))
    else (e ∷ es', write)

module _ (host : Host) where
  abbrev pub mbox : Bytes → Mbox
  mbox mailbox = record {
    name = mailbox;
    dir_name = host.hash mailbox;
    index_loaded = false;
    messages = [];
  }

  abbrev pub mbox_from_hash : Bytes → Mbox
  mbox_from_hash hash = record { name = []; dir_name = hash; index_loaded = false; messages = [] }

  -- The loop of newMessage, on fuel. The error of a removal is only logged.
  unfoldable pub trim : ℕ → Mbox × Disk → Mbox × Disk
  unfolding remove_loaded
  trim zero mbd = mbd
  trim (suc fuel) (mb, d) = elim mb.messages [
    | [] ↦ (mb, d)
    | e ∷ _ ↦
        let smaller = trim fuel (remove_loaded host e.id (mb, d)).0 in
        if leb host.message_cap (length mb.messages) then smaller else (mb, d)
  ]

  -- `newMessage`, which makes room, with the ID of the new message; `none` is an error.
  unfoldable pub new_message : Mbox × Disk → (Mbox × Disk) × Option Bytes
  unfolding load trim
  new_message mbd =
      let ((mb, d), loaded) = load host mbd in
      let (mb', d') =
        if ltb 0 host.message_cap then trim (length mb.messages) (mb, d) else (mb, d) in
      if loaded
      then (
        (mb', record d' { count = (d'.count + 1) % 10000 }),
        some (host.now d'.ops ++ b'-' ∷ four_digits d'.count),
      )
      else ((mb, d), none)

  -- The writing of a message's file; one that is left unfinished is to be removed.
  unfoldable pub put_raw : Bytes → Bytes → Bytes → Disk → Disk × Bool
  unfolding dir_of remove_raw
  put_raw hash id source d = elim (host.outcome d.ops) [
    | worked ↦ (
      put_dir hash (record (dir_of hash d) { raws = insert id source (dir_of hash d).raws }) d,
      true,
    )
    | failed none ↦ (tick d, false)
    | failed (some left) ↦ (
      (remove_raw host hash id (
          put_dir hash (record (dir_of hash d) { raws = insert id left (dir_of hash d).raws })
            d)).0,
      false,
    )
  ]

  -- The end of `AddMessage`, with the ID of the new message.
  unfoldable pub add_source : Draft → Bytes → Bytes → Mbox × Disk → Disk × Option Bytes
  unfolding create_dir put_raw write_index remove_raw
  add_source m source id (mb, d) =
      let (d1, made) = create_dir host mb.dir_name d in
      let (d2, stored) = put_raw mb.dir_name id source d1 in
      let (d3, written) =
        write_index host (record mb { messages = mb.messages ++ entry_for m source id ∷ [] }) d2 in
      if not made
      then (d1, none)
      else if not stored
      then (d2, none)
      else if written
      then (d3, some id)
      else ((remove_raw host mb.dir_name id d3).0, none)

  unfoldable pub add_message : Draft → Disk → Disk × Option Bytes
  unfolding new_message add_source
  add_message m d = elim m.source [
    | none ↦ (d, none)
    | some source ↦
        let (mbd, found) = new_message (mbox m.mailbox, d) in
        elim found [ none ↦ (mbd.1, none) | some id ↦ add_source m source id mbd ]
  ]

  unfoldable pub get_messages : Bytes → Disk → Disk × Option (List Entry)
  unfolding load
  get_messages mailbox d =
      let ((mb, d'), loaded) = load host (mbox mailbox, d) in
      (d', if loaded then some mb.messages else none)

  -- `none` is an error, ErrNotExist among them.
  unfoldable pub get_message : Bytes → Bytes → Disk → Disk × Option Entry
  unfolding load bytes_eq txt
  get_message mailbox id d =
      let ((mb, d'), loaded) = load host (mbox mailbox, d) in
      (
        d',
        if not loaded
            then none
            else if bytes_eq id (txt "latest") && ltb 0 (length mb.messages)
            then last_of mb.messages
            else find_entry id mb.messages,
      )

  unfoldable pub mark_seen : Bytes → Bytes → Disk → Disk × Bool
  unfolding load write_index bytes_eq
  mark_seen mailbox id d =
      let ((mb, d'), loaded) = load host (mbox mailbox, d) in
      let (es, write) = mark id mb.messages in
      if not loaded
      then (d', false)
      else if write
      then write_index host (record mb { messages = es }) d'
      else (d', true)

  unfoldable pub remove : Bytes → Bytes → Disk → Disk × Bool
  unfolding remove_message
  remove mailbox id d =
      let ((mb, d'), removed) = remove_message host id (mbox mailbox, d) in (d', removed)

  unfoldable pub purge_messages : Bytes → Disk → Disk × Bool
  unfolding load purge
  purge_messages mailbox d =
      let ((mb, d'), loaded) = load host (mbox mailbox, d) in
      let told = record d' { deleted = d'.deleted ++ map (entry_metadata mb.name) mb.messages } in
      if loaded then purge host mb told else (d', false)

  -- The loops of `VisitMailboxes` over the names that it read; `false` is an error.
  unfoldable pub visit_names {ℓ} :
      {W : Type ℓ}
      → (List Entry → W × Disk → (W × Disk) × Bool)
      → List Bytes
      → W × Disk
      → (W × Disk) × Bool
  unfolding load
  visit_names f [] wd = (wd, true)
  visit_names f (hash ∷ hashes) (w, d) =
      let ((mb, d'), loaded) = load host (mbox_from_hash hash, d) in
      let (wd, more) = f mb.messages (w, d') in
      let rest = visit_names f hashes wd in
      if not loaded then ((w, d'), false) else if more then rest else (wd, true)

  unfoldable pub visit_mailboxes {ℓ} :
      {W : Type ℓ} → (List Entry → W × Disk → (W × Disk) × Bool) → W × Disk → (W × Disk) × Bool
  unfolding visit_names
  visit_mailboxes f wd = visit_names f (keys wd.1.dirs) wd

  -- `Source` of a message.
  unfoldable pub source_of : Bytes → Entry → Disk → Option Bytes
  unfolding dir_of
  source_of mailbox e d = lookup e.id (dir_of (host.hash mailbox) d).raws

-- The calls of a store.
pub data Call : Type 0 where
  add : Draft → Call
  list : Bytes → Call
  get : Bytes → Bytes → Call
  seen : Bytes → Bytes → Call
  drop : Bytes → Bytes → Call
  wipe : Bytes → Call

abbrev pub mailbox_of : Call → Bytes
mailbox_of (add m) = m.mailbox
mailbox_of (list mailbox) = mailbox
mailbox_of (get mailbox id) = mailbox
mailbox_of (seen mailbox id) = mailbox
mailbox_of (drop mailbox id) = mailbox
mailbox_of (wipe mailbox) = mailbox

unfoldable pub apply : Host → Call → Disk → Disk
unfolding add_message get_messages get_message mark_seen remove purge_messages
apply host (add m) d = (add_message host m d).0
apply host (list mailbox) d = (get_messages host mailbox d).0
apply host (get mailbox id) d = (get_message host mailbox id d).0
apply host (seen mailbox id) d = (mark_seen host mailbox id d).0
apply host (drop mailbox id) d = (remove host mailbox id d).0
apply host (wipe mailbox) d = (purge_messages host mailbox d).0

unfoldable pub run : Host → List Call → Disk → Disk
unfolding apply
run host [] d = d
run host (c ∷ cs) d = run host cs (apply host c d)
