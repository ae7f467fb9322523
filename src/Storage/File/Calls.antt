-- ===== src/Storage/File/Calls.antt =====
-- The calls of pkg/storage/file on a mailbox that is well kept, where no operation on files fails.
use mathlib.Core.Path.{subst}
use go_inbucket.Base.{
  ℕ, ◌≤◌, ◌<◌, ◌≡◌, refl, sym, ap, ◌∙◌, Bool, true, Option, some, List, [], ◌∷◌, ◌++◌,
  if◌then◌else◌, Bytes, ltb, length, length-append, arith,
}
use go_inbucket.Storage.File.{
  Entry, worked, Host, Disk, Mbox, dir_of, entry_metadata, load, take_entry, remove_loaded,
  remove_message,
}
use go_inbucket.Storage.File.Contents.{
  with_room, length-with_room, Trimmed, trim_if-Trimmed, room, Added, add_source-Added, Removed,
  remove_found-Removed,
}
use go_inbucket.Storage.File.Index.{IsListed, full, load-IsListed}
use go_inbucket.Storage.File.Store.{
  mbox, trim, new_message, entry_for, add_source, add_message, get_messages, remove, source_of,
}
use go_inbucket.Storage.Message.{Draft}

module _ (host : Host) (works : (n : ℕ) → host.outcome n ≡ worked)
    (law : (name : Bytes) (es : List Entry)
      → host.decode (host.encode name es) ≡ some (name, es)) where
  -- A mailbox that was loaded.
  pub record Loaded (name : Bytes) (es : List Entry) (d : Disk) (r : (Mbox × Disk) × Bool)
      : Type 0 where
    pub ok : r.1 ≡ true
    pub box : r.0.0 ≡ full host name es
    pub listed : IsListed host name es r.0.1
    pub same : r.0.1.dirs ≡ d.dirs
    pub events : r.0.1.deleted ≡ d.deleted

  pub load-Loaded :
      (name : Bytes) (es : List Entry) (d : Disk)
      → IsListed host name es d
      → Loaded name es d (load host (mbox host name, d))
  load-Loaded name es d h =
      let (n, e) = load-IsListed host works law name es d h in
      subst (Loaded name es d) (sym e)
        (record { ok = refl; box = refl; listed = unfold dir_of in h; same = refl; events = refl })

  record New (name : Bytes) (es : List Entry) (r : (Mbox × Disk) × Option Bytes) : Type 0 where
    id : Bytes
    found : r.1 ≡ some id
    pub box : r.0.0 ≡ full host name es
    pub listed : IsListed host name es r.0.1

  new_message-New :
      (name : Bytes) (es : List Entry) (d : Disk)
      → IsListed host name es d
      → New name (room host es) (new_message host (mbox host name, d))
  unfolding new_message
  new_message-New name es d h =
      let l = load-Loaded name es d h in
      let d' = (load host (mbox host name, d)).0.1 in
      let b = ltb 0 host.message_cap in
      let t =
        subst
          (λ mb.
            Trimmed host works law name (room host es)
              (if b then trim host (length mb.messages) (mb, d') else (mb, d')))
          (sym l.box) (trim_if-Trimmed host works law b name es d' l.listed) in
      rw l.ok (record { id = _; found = refl; box = t.box; listed = unfold dir_of in t.listed })

  room-bound :
      (es : List Entry) (e : Entry)
      → 0 < host.message_cap
      → length (room host es ++ e ∷ []) ≤ host.message_cap
  room-bound es e pos =
      let capped : ltb 0 host.message_cap ≡ true = ground arith in
      let fits = length-with_room host.message_cap es pos in
      rw (capped, length-append (with_room host.message_cap es) (e ∷ [])) (omega (arith, fits))

  -- What a reader finds after a delivery.
  pub record Delivered (m : Draft) (source : Bytes) (es : List Entry) (r : Disk × Option Bytes)
      : Type 0 where
    pub id : Bytes
    pub result : r.1 ≡ some id
    pub contents :
        (get_messages host m.mailbox r.0).1 ≡ some (room host es ++ entry_for m source id ∷ [])
    pub read_back : source_of host m.mailbox (entry_for m source id) r.0 ≡ some source
    pub listed : IsListed host m.mailbox (room host es ++ entry_for m source id ∷ []) r.0
    pub bound :
        0 < host.message_cap
        → length (room host es ++ entry_for m source id ∷ []) ≤ host.message_cap

  pub get_messages-IsListed :
      (name : Bytes) (es : List Entry) (d : Disk)
      → IsListed host name es d
      → ((get_messages host name d).1 ≡ some es) × ((get_messages host name d).0.dirs ≡ d.dirs)
  unfolding get_messages
  get_messages-IsListed name es d h =
      let l = load-Loaded name es d h in (rw l.ok (ap (λ mb. some mb.messages) l.box), l.same)

  -- A delivery to a mailbox whose index file holds its messages, where no operation on files fails
  -- and gob decodes what it encodes: a message that can be read is added behind the newest of the
  -- others, as many as the cap leaves room for, and its ID is returned. GetMessages then returns them
  -- all, which under a cap are no more than it; the index file holds them, and the file of the new
  -- message its source.
  pub add_message-Delivered :
      (m : Draft) (source : Bytes) (es : List Entry) (d : Disk)
      → IsListed host m.mailbox es d
      → m.source ≡ some source
      → Delivered m source es (add_message host m d)
  unfolding add_message
  add_message-Delivered m source es d h read =
      let mbd = (new_message host (mbox host m.mailbox, d)).0 in
      let n = new_message-New m.mailbox es d h in
      let a =
        subst
          (λ mb.
            Added host works law m.mailbox (room host es) m source n.id
              (add_source host m source n.id (mb, mbd.1)))
          (sym n.box)
          (add_source-Added host works law m m.mailbox source n.id (room host es) mbd.1) in
      rw (read, add_message, n.found)
        (record {
          id = n.id;
          result = a.result;
          contents = (get_messages-IsListed m.mailbox _ _ a.listed).0;
          read_back = unfold source_of in a.stored;
          listed = a.listed;
          bound = λ pos. room-bound es (entry_for m source n.id) pos;
        })

  remove_loaded-Removed :
      (name id : Bytes) (e : Entry) (es rest : List Entry) (d : Disk)
      → take_entry id es ≡ some (e, rest)
      → Removed host works law name e rest d (remove_loaded host id (full host name es, d)).0
  unfolding remove_loaded
  remove_loaded-Removed name id e es rest d found =
      rw (found, remove_loaded) (remove_found-Removed host works law name e es rest d)

  -- What a reader finds after a removal.
  pub record Gone (name : Bytes) (e : Entry) (rest : List Entry) (d : Disk) (r : Disk × Bool)
      : Type 0 where
    pub contents : (get_messages host name r.0).1 ≡ some rest
    pub listed : IsListed host name rest r.0
    pub events : r.0.deleted ≡ d.deleted ++ entry_metadata name e ∷ []

  -- RemoveMessage in a mailbox whose index file holds its messages, where no operation on files fails
  -- and gob decodes what it encodes: the first message of that ID is gone, and the others are what
  -- GetMessages then returns and what the index file holds; one event is sent, for that message.
  pub remove-Gone :
      (name id : Bytes) (e : Entry) (es rest : List Entry) (d : Disk)
      → IsListed host name es d
      → take_entry id es ≡ some (e, rest)
      → Gone name e rest d (remove host name id d)
  unfolding remove remove_message
  remove-Gone name id e es rest d h found =
      let l = load-Loaded name es d h in
      let d' = (load host (mbox host name, d)).0.1 in
      let r =
        subst (λ mb. Removed host works law name e rest d' (remove_loaded host id (mb, d')).0)
          (sym l.box) (remove_loaded-Removed name id e es rest d' found) in
      rw l.ok (record {
        contents = (get_messages-IsListed name rest _ r.listed).0;
        listed = r.listed;
        events = r.events ∙ ap (λ x. x ++ entry_metadata name e ∷ []) l.events;
      })
