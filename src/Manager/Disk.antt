-- ===== src/Manager/Disk.antt =====
-- The store on disk keeps the contract of a message store, where no operation on files fails.
use go_inbucket.Base.{
  Option-cases, ◌+◌, ℕ, ◌≡◌, refl, sym, ap, ◌∙◌, true, false, Option, none, some, List, [], ◌∷◌,
  ◌++◌, map, Bytes, bytes_eq, bytes_eq_iff, Bool-cases, inl, inr,
}
use go_inbucket.Manager.{MessageStore, IsMessageStore}
use go_inbucket.Storage.Dict.{lookup}
use go_inbucket.Storage.File.{load, read_index, Entry, Dir, no_dir, worked, Host, Disk, dir_of}
use go_inbucket.Storage.File.Calls.{add_message-Delivered}
use go_inbucket.Storage.File.Frame.Calls.{apply-Same}
use go_inbucket.Storage.File.Store.{Call, add_message, apply, entry_for, get_messages, source_of}
use go_inbucket.Storage.File.Valid.{IsKept, apply-AllKept}
use go_inbucket.Storage.Message.{Message, Draft}

abbrev or_nil : Option Bytes → Bytes
or_nil none = []
or_nil (some source) = source

-- A message as a reader finds it, with what is in its file. It has no number on disk.
abbrev message_in : Bytes → Dir → Entry → Message
message_in name dir e = record {
  index = 0;
  mailbox = name;
  id = e.id;
  from = e.from;
  to = e.to;
  date = e.date;
  subject = e.subject;
  source = or_nil (lookup e.id dir.raws);
  seen = e.seen;
}

abbrev read_all : Bytes → Dir → Option (List Entry) → List Message
read_all name dir none = []
read_all name dir (some es) = map (message_in name dir) es

abbrev pub disk_store : Host → MessageStore Disk
disk_store host = record {
  add = λ m d. add_message host m d;
  contents = λ name d. read_all name (dir_of (host.hash name) d) (get_messages host name d).1;
}

map-append : (f : Entry → Message) (xs ys : List Entry) → map f (xs ++ ys) ≡ map f xs ++ map f ys
map-append f [] ys = refl
map-append f (x ∷ xs) ys = ap (◌∷◌ (f x)) (map-append f xs ys)

abbrev or_no_dir : Option Dir → Dir
or_no_dir none = no_dir
or_no_dir (some dir) = dir

module _ (host : Host) (works : (n : ℕ) → host.outcome n ≡ worked)
    (law : (name : Bytes) (es : List Entry) → host.decode (host.encode name es) ≡ some (name, es))
    (Used : Bytes → Type 0)
    (distinct : (a b : Bytes)
      → Used a
      → Used b
      → bytes_eq (host.hash a) (host.hash b) ≡ true
      → a ≡ b) where
  -- Each mailbox in use is well kept.
  abbrev pub AllKept : Disk → Type 0
  AllKept d = (name : Bytes) → Used name → IsKept host name d

  taken :
      (m : Draft) (source : Bytes) (d : Disk)
      → Used m.mailbox
      → AllKept d
      → m.source ≡ some source
      → (n : Message) × (older : List Message) × ((add_message host m d).1 ≡ some n.id)
        × (n.source ≡ source)
        × ((disk_store host).contents m.mailbox (add_message host m d).0 ≡ older ++ n ∷ [])
  taken m source d used k read =
      let a =
        add_message-Delivered host works law m source (k m.mailbox used).messages d
          (k m.mailbox used).listed read in
      let dir = dir_of (host.hash m.mailbox) (add_message host m d).0 in
      let back : lookup a.id dir.raws ≡ some source = unfold source_of in a.read_back in
      let new = message_in m.mailbox dir (entry_for m source a.id) in
      (
        new,
        _,
        a.result,
        ap or_nil back,
        ap (read_all m.mailbox dir) a.contents
            ∙ map-append (message_in m.mailbox dir) _ (entry_for m source a.id ∷ []),
      )

  apart_hashes :
      (a b : Bytes)
      → Used a
      → Used b
      → bytes_eq a b ≡ false
      → bytes_eq (host.hash a) (host.hash b) ≡ false
  apart_hashes a b used_a used_b apart = elim (Bool-cases (bytes_eq (host.hash a) (host.hash b))) [
    | inl same ↦
        let equal : bytes_eq a b ≡ true = (bytes_eq_iff a b).1 (distinct a b used_a used_b same) in
        let no_way : true ≡ false = sym equal ∙ apart in cc
    | inr apart_too ↦ apart_too
  ]

  -- What GetMessages finds in an index file, if there is one.
  abbrev read_text : Option Bytes → Option (List Entry)
  read_text none = some []
  read_text (some text) = elim (host.decode text) [ none ↦ none | some found ↦ some found.1 ]

  get_messages-read_text :
      (name : Bytes) (d : Disk)
      → (get_messages host name d).1 ≡ read_text (dir_of (host.hash name) d).index
  unfolding get_messages load read_index
  get_messages-read_text name d = elim (Option-cases (dir_of (host.hash name) d).index) [
    | inl new ↦ rw (works d.ops, get_messages, load, read_index, new) refl
    | inr (text, there) ↦ elim (Option-cases (host.decode text)) [
      | inl corrupt ↦
          rw
            (
              works d.ops,
              get_messages,
              load,
              read_index,
              there,
              works (d.ops + 1),
              corrupt,
              read_text,
            )
            refl
      | inr (found, ok) ↦
          rw (works d.ops, get_messages, load, read_index, there, works (d.ops + 1), ok, read_text)
            refl
    ]
  ]

  contents_of-dir_of :
      (name : Bytes) (d : Disk)
      → (disk_store host).contents name d
        ≡ read_all name (dir_of (host.hash name) d) (read_text (dir_of (host.hash name) d).index)
  contents_of-dir_of name d =
      ap (read_all name (dir_of (host.hash name) d)) (get_messages-read_text name d)

  others :
      (m : Draft) (d : Disk) (other : Bytes)
      → Used m.mailbox
      → Used other
      → bytes_eq m.mailbox other ≡ false
      → (disk_store host).contents other (add_message host m d).0
        ≡ (disk_store host).contents other d
  unfolding dir_of apply
  others m d other used other_used apart =
      let h = host.hash other in
      let same : dir_of h (add_message host m d).0 ≡ dir_of h d =
        ap or_no_dir
          (apply-Same host h (Call.add m) d (apart_hashes m.mailbox other used other_used apart)) in
      contents_of-dir_of other (add_message host m d).0
      ∙ ap (λ dir. read_all other dir (read_text dir.index)) same
      ∙ sym (contents_of-dir_of other d)

  -- Where no operation on files fails, gob decodes what it encodes, and no two of the names that are in
  -- use have the same hash, the store on disk takes each message for one of these names that can be
  -- read as the newest of its mailbox, whatever its cap, and changes no other mailbox in use.
  pub disk_store-IsMessageStore : IsMessageStore (disk_store host) Used AllKept
  unfolding apply
  disk_store-IsMessageStore = record {
    add-Valid = λ m d used k. apply-AllKept host works law Used distinct (Call.add m) d used k;
    taken = λ m source d used k read. taken m source d used k read;
    others = λ m d other used other_used apart. others m d other used other_used apart;
  }
