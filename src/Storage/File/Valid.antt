-- ===== src/Storage/File/Valid.antt =====
-- The invariant of the store of pkg/storage/file, where no operation on files fails.
use mathlib.Core.Path.{subst}
use go_inbucket.Base.{
  ℕ, ◌≤◌, ◌<◌, ◌≡◌, refl, sym, ap, ◌∙◌, Bool, true, false, Option, none, some, List, [], ◌∷◌, ◌++◌,
  map, if◌then◌else◌, Bytes, bytes_eq, length, arith, Bool-cases, Option-cases, inl, inr,
}
use go_inbucket.Storage.File.{
  Entry, Dir, no_dir, worked, Host, Disk, Mbox, dir_of, entry_metadata, load, write_index,
  take_entry, remove_loaded, remove_message, purge,
}
use go_inbucket.Storage.File.Calls.{load-Loaded, add_message-Delivered, remove-Gone}
use go_inbucket.Storage.File.Frame.Calls.{apply-Same}
use go_inbucket.Storage.File.Index.{IsListed, full, write_index-Written}
use go_inbucket.Storage.File.Store.{
  mbox, add_message, get_messages, get_message, mark, mark_seen, remove, purge_messages, Call,
  mailbox_of, apply,
}
use go_inbucket.Storage.Message.{Draft}

-- The index file of a mailbox holds its messages, under the cap if there is one.
pub record IsKept (host : Host) (name : Bytes) (d : Disk) : Type 0 where
  pub messages : List Entry
  pub listed : IsListed host name messages d
  pub capped : 0 < host.message_cap → length messages ≤ host.message_cap

abbrev or_no_dir : Option Dir → Dir
or_no_dir none = no_dir
or_no_dir (some dir) = dir

length-mark : (id : Bytes) (es : List Entry) → length (mark id es).0 ≡ length es
length-mark id [] = refl
length-mark id (e ∷ es) = elim (Bool-cases (bytes_eq e.id id)) [
  | inl same ↦ elim (Bool-cases e.seen) [
    | inl before ↦ rw (same, before) refl
    | inr first ↦ rw (same, first) refl
  ]
  | inr other ↦ rw other (omega (arith, length-mark id es))
]

length-take_entry :
    (id : Bytes) (es rest : List Entry) (e : Entry)
    → take_entry id es ≡ some (e, rest)
    → length rest ≤ length es
unfolding take_entry
length-take_entry id [] rest e h = absurd (ground arith)
length-take_entry id (x ∷ es) rest e h = elim (Bool-cases (bytes_eq id x.id)) [
  | inl same ↦
      let found : some (x, es) ≡ some (e, rest) = rw same at h in
      let all : es ≡ rest = cc in omega (arith, ap (λ l. length l) all)
  | inr other ↦ elim (Option-cases (take_entry id es)) [
    | inl absent ↦ let lost : none ≡ some (e, rest) = rw (other, absent) at h in cc
    | inr ((e', later), found) ↦
        let more : some (e', x ∷ later) ≡ some (e, rest) = rw (other, found) at h in
        let all : (x ∷ later) ≡ rest = cc in
        omega (arith, ap (λ l. length l) all, length-take_entry id es later e' found)
  ]
]

module _ (host : Host) (works : (n : ℕ) → host.outcome n ≡ worked)
    (law : (name : Bytes) (es : List Entry)
      → host.decode (host.encode name es) ≡ some (name, es)) where
  add_message-IsKept :
      (m : Draft) (d : Disk)
      → IsKept host m.mailbox d
      → IsKept host m.mailbox (add_message host m d).0
  add_message-IsKept m d k = elim (Option-cases m.source) [
    | inl unread ↦ unfold add_message in rw (unread, add_message) k
    | inr (source, read) ↦
        let a = add_message-Delivered host works law m source k.messages d k.listed read in
        record { messages = _; listed = a.listed; capped = a.bound }
  ]

  load-IsKept :
      (name : Bytes) (d : Disk)
      → IsKept host name d
      → IsKept host name (load host (mbox host name, d)).0.1
  load-IsKept name d k = record {
    messages = k.messages;
    listed = (load-Loaded host works law name k.messages d k.listed).listed;
    capped = k.capped;
  }

  remove_loaded-absent :
      (id : Bytes) (mbd : Mbox × Disk)
      → take_entry id mbd.0.messages ≡ none
      → remove_loaded host id mbd ≡ (mbd, false)
  unfolding remove_loaded
  remove_loaded-absent id mbd absent = rw (absent, remove_loaded) refl

  remove-IsKept :
      (name id : Bytes) (d : Disk) → IsKept host name d → IsKept host name (remove host name id d).0
  unfolding remove remove_message
  remove-IsKept name id d k = elim (Option-cases (take_entry id k.messages)) [
    | inl absent ↦
        let l = load-Loaded host works law name k.messages d k.listed in
        let mbd = (load host (mbox host name, d)).0 in
        let none_found : take_entry id mbd.0.messages ≡ none =
          ap (λ mb. take_entry id mb.messages) l.box ∙ absent in
        rw (l.ok, remove, remove_message)
          (subst (λ r. IsKept host name r.0.1) (sym (remove_loaded-absent id mbd none_found))
            (load-IsKept name d k))
    | inr ((e, rest), found) ↦ record {
      messages = rest;
      listed = (remove-Gone host works law name id e k.messages rest d k.listed found).listed;
      capped = λ pos. omega (arith, k.capped pos, length-take_entry id k.messages rest e found);
    }
  ]

  purge_messages-IsKept :
      (name : Bytes) (d : Disk)
      → IsKept host name d
      → IsKept host name (purge_messages host name d).0
  unfolding purge_messages purge
  purge_messages-IsKept name d k =
      let l = load-Loaded host works law name k.messages d k.listed in
      let d' = (load host (mbox host name, d)).0.1 in
      let told = record d' { deleted = d'.deleted ++ map (entry_metadata name) k.messages } in
      rw l.ok (
        subst
          (λ mb.
            IsKept host name
              (write_index host (record mb { messages = [] })
                (record d' { deleted = d'.deleted ++ map (entry_metadata mb.name) mb.messages })).0)
          (sym l.box)
          (record {
            messages = [];
            listed = (write_index-Written host works law name [] told).listed;
            capped = λ pos. omega arith;
          }))

  either-IsKept :
      (name : Bytes) (b : Bool) (p q : Disk × Bool)
      → IsKept host name p.0
      → IsKept host name q.0
      → IsKept host name (if b then p else q).0
  either-IsKept name true p q hp hq = hp
  either-IsKept name false p q hp hq = hq

  mark_seen-IsKept :
      (name id : Bytes) (d : Disk)
      → IsKept host name d
      → IsKept host name (mark_seen host name id d).0
  unfolding mark_seen
  mark_seen-IsKept name id d k =
      let l = load-Loaded host works law name k.messages d k.listed in
      let d' = (load host (mbox host name, d)).0.1 in
      let marked = (mark id k.messages).0 in
      let w = write_index-Written host works law name marked d' in
      rw l.ok (
        subst
          (λ mb.
            IsKept host name
              (if◌then◌else◌ {A = Disk × Bool} (mark id mb.messages).1
                (write_index host (record mb { messages = (mark id mb.messages).0 }) d')
                (d', true)).0)
          (sym l.box)
          (either-IsKept name (mark id k.messages).1 (write_index host (full host name marked) d')
            (d', true)
            (record {
              messages = marked;
              listed = w.listed;
              capped = λ pos. omega (arith, length-mark id k.messages, k.capped pos);
            })
            (load-IsKept name d k)))

  apply-IsKept :
      (c : Call) (d : Disk)
      → IsKept host (mailbox_of c) d
      → IsKept host (mailbox_of c) (apply host c d)
  unfolding apply
  apply-IsKept (Call.add m) d k = add_message-IsKept m d k
  apply-IsKept (Call.list name) d k = unfold get_messages in load-IsKept name d k
  apply-IsKept (Call.get name id) d k = unfold get_message in load-IsKept name d k
  apply-IsKept (Call.seen name id) d k = mark_seen-IsKept name id d k
  apply-IsKept (Call.drop name id) d k = remove-IsKept name id d k
  apply-IsKept (Call.wipe name) d k = purge_messages-IsKept name d k

  -- The names in use have different directories.
  module _ (Used : Bytes → Type 0)
      (distinct : (a b : Bytes)
        → Used a
        → Used b
        → bytes_eq (host.hash a) (host.hash b) ≡ true
        → a ≡ b) where
    pub apply-AllKept :
        (c : Call) (d : Disk)
        → Used (mailbox_of c)
        → ((name : Bytes) → Used name → IsKept host name d)
        → (name : Bytes) → Used name
        → IsKept host name (apply host c d)
    unfolding dir_of
    apply-AllKept c d called k name used =
        elim (Bool-cases (bytes_eq (host.hash (mailbox_of c)) (host.hash name))) [
          | inl same ↦
              subst (λ n. IsKept host n (apply host c d))
                (distinct (mailbox_of c) name called used same)
                (apply-IsKept c d (k (mailbox_of c) called))
          | inr apart ↦ record {
            messages = (k name used).messages;
            listed =
                ap (λ o. (or_no_dir o).index) (apply-Same host (host.hash name) c d apart)
                ∙ (k name used).listed;
            capped = (k name used).capped;
          }
        ]
