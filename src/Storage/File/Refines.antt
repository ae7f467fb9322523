-- ===== src/Storage/File/Refines.antt =====
-- The store of pkg/storage/file, where no operation on files fails, against a list of messages.
use mathlib.Core.Path.{subst}
use go_inbucket.Base.{
  ℕ, ◌≡◌, refl, sym, ap, ◌∙◌, Bool, true, false, Option, none, some, List, [], ◌∷◌, ◌++◌, map, All,
  if◌then◌else◌, Bytes, bytes_eq, bytes_eq_iff, Bool-cases, Option-cases, inl, inr,
}
use go_inbucket.Storage.File.{
  Entry, Dir, no_dir, worked, Host, Disk, dir_of, entry_metadata, load, write_index, take_entry,
  remove_loaded, remove_message, purge,
}
use go_inbucket.Storage.File.Calls.{
  get_messages-IsListed, load-Loaded, add_message-Delivered, remove-Gone,
}
use go_inbucket.Storage.File.Contents.{room}
use go_inbucket.Storage.File.Frame.Calls.{apply-Same}
use go_inbucket.Storage.File.Index.{IsListed, full, write_index-Written}
use go_inbucket.Storage.File.Store.{
  mbox, add_message, get_messages, get_message, mark, mark_seen, remove, purge_messages, Call,
  mailbox_of, apply, run, entry_for,
}
use go_inbucket.Storage.Message.{Draft}

-- The first message of an ID is seen.
abbrev pub seen_first : Bytes → List Entry → List Entry
seen_first id [] = []
seen_first id (e ∷ es) =
    let rest = seen_first id es in
    if bytes_eq e.id id then record e { seen = true } ∷ es else e ∷ rest

-- The messages but the first of an ID.
abbrev pub without_first : Bytes → List Entry → List Entry
without_first id [] = []
without_first id (e ∷ es) =
    let rest = without_first id es in if bytes_eq id e.id then es else e ∷ rest

abbrev AddedBy : Host → Draft → Option Bytes → List Entry → List Entry → Type 0
AddedBy host m none es es' = es' ≡ es
AddedBy host m (some source) es es' =
    (id : Bytes) × (es' ≡ room host es ++ entry_for m source id ∷ [])

-- What a call does to the messages of its mailbox.
abbrev pub Becomes : Host → Call → List Entry → List Entry → Type 0
Becomes host (Call.add m) es es' = AddedBy host m m.source es es'
Becomes host (Call.list name) es es' = es' ≡ es
Becomes host (Call.get name id) es es' = es' ≡ es
Becomes host (Call.seen name id) es es' = es' ≡ seen_first id es
Becomes host (Call.drop name id) es es' = es' ≡ without_first id es
Becomes host (Call.wipe name) es es' = es' ≡ []

-- What some calls do to the messages of a mailbox.
abbrev pub AllBecome : Host → Bytes → List Call → List Entry → List Entry → Type 0
AllBecome host name [] es es' = es' ≡ es
AllBecome host name (c ∷ cs) es es' =
    (next : List Entry) × (if bytes_eq (mailbox_of c) name
      then Becomes host c es next
      else (next ≡ es))
    × AllBecome host name cs next es'

mark-seen_first : (id : Bytes) (es : List Entry) → (mark id es).0 ≡ seen_first id es
mark-seen_first id [] = refl
mark-seen_first id (e ∷ es) = elim (Bool-cases (bytes_eq e.id id)) [
  | inl same ↦ elim (Bool-cases e.seen) [
    | inl before ↦ rw (same, before) refl
    | inr first ↦ rw (same, first) refl
  ]
  | inr other ↦ rw other (ap (◌∷◌ e) (mark-seen_first id es))
]

abbrev rest_or : List Entry → Option (Entry × List Entry) → List Entry
rest_or es none = es
rest_or es (some found) = found.1

take_entry-without_first :
    (id : Bytes) (es : List Entry) → without_first id es ≡ rest_or es (take_entry id es)
unfolding take_entry
take_entry-without_first id [] = refl
take_entry-without_first id (e ∷ es) = elim (Bool-cases (bytes_eq id e.id)) [
  | inl same ↦ rw same refl
  | inr other ↦ elim (Option-cases (take_entry id es)) [
    | inl absent ↦
        rw (other, absent) (ap (◌∷◌ e) (take_entry-without_first id es ∙ ap (rest_or es) absent))
    | inr (found, there) ↦
        rw (other, there) (ap (◌∷◌ e) (take_entry-without_first id es ∙ ap (rest_or es) there))
  ]
]

abbrev or_no_dir : Option Dir → Dir
or_no_dir none = no_dir
or_no_dir (some dir) = dir

module _ (host : Host) (works : (n : ℕ) → host.outcome n ≡ worked)
    (law : (name : Bytes) (es : List Entry)
      → host.decode (host.encode name es) ≡ some (name, es)) where
  -- A call's effect on its mailbox is the one that the list has.
  abbrev Refined : Call → List Entry → Disk → Type 0
  Refined c es d =
      (es' : List Entry) × Becomes host c es es' × IsListed host (mailbox_of c) es' (apply host c d)

  load-listed :
      (name : Bytes) (es : List Entry) (d : Disk)
      → IsListed host name es d
      → IsListed host name es (load host (mbox host name, d)).0.1
  load-listed name es d h = (load-Loaded host works law name es d h).listed

  add-Refined :
      (m : Draft) (es : List Entry) (d : Disk)
      → IsListed host m.mailbox es d
      → Refined (Call.add m) es d
  unfolding apply
  add-Refined m es d h = elim (Option-cases m.source) [
    | inl unread ↦ (es, rw unread refl, unfold add_message in rw (unread, add_message) h)
    | inr (source, read) ↦
        let a = add_message-Delivered host works law m source es d h read in
        (_, rw read (a.id, refl), a.listed)
  ]

  either-listed :
      (name : Bytes) (es : List Entry) (b : Bool) (p q : Disk × Bool)
      → IsListed host name es p.0
      → (b ≡ false → IsListed host name es q.0)
      → IsListed host name es (if b then p else q).0
  either-listed name es true p q hp hq = hp
  either-listed name es false p q hp hq = hq refl

  -- Where nothing is written, nothing was to be marked.
  unmarked : (id : Bytes) (es : List Entry) → (mark id es).1 ≡ false → seen_first id es ≡ es
  unmarked id [] h = refl
  unmarked id (e ∷ es) h = elim (Bool-cases (bytes_eq e.id id)) [
    | inl same ↦ elim (Bool-cases e.seen) [
      | inl before ↦ rw (same, before) refl
      | inr first ↦ let no : true ≡ false = rw (same, first) at h in cc
    ]
    | inr other ↦ rw other (ap (◌∷◌ e) (unmarked id es (rw other at h)))
  ]

  seen-Refined :
      (name id : Bytes) (es : List Entry) (d : Disk)
      → IsListed host name es d
      → IsListed host name (seen_first id es) (mark_seen host name id d).0
  unfolding mark_seen
  seen-Refined name id es d h =
      let l = load-Loaded host works law name es d h in
      let d' = (load host (mbox host name, d)).0.1 in
      let w = write_index-Written host works law name (mark id es).0 d' in
      rw l.ok (
        subst
          (λ mb.
            IsListed host name (seen_first id es)
              (if◌then◌else◌ {A = Disk × Bool} (mark id mb.messages).1
                (write_index host (record mb { messages = (mark id mb.messages).0 }) d')
                (d', true)).0)
          (sym l.box)
          (either-listed name (seen_first id es) (mark id es).1
            (write_index host (full host name (mark id es).0) d') (d', true)
            (subst
              (λ x. IsListed host name x (write_index host (full host name (mark id es).0) d').0)
              (mark-seen_first id es) w.listed)
            (λ none_written.
              subst (λ x. IsListed host name x d') (sym (unmarked id es none_written)) l.listed)))

  drop-Refined :
      (name id : Bytes) (es : List Entry) (d : Disk)
      → IsListed host name es d
      → IsListed host name (without_first id es) (remove host name id d).0
  unfolding remove remove_message remove_loaded
  drop-Refined name id es d h = elim (Option-cases (take_entry id es)) [
    | inl absent ↦
        let l = load-Loaded host works law name es d h in
        let mbd = (load host (mbox host name, d)).0 in
        let none_found : take_entry id mbd.0.messages ≡ none =
          ap (λ mb. take_entry id mb.messages) l.box ∙ absent in
        let same = take_entry-without_first id es ∙ ap (rest_or es) absent in
        subst (λ x. IsListed host name x (remove host name id d).0) (sym same)
          (rw (l.ok, remove, remove_message, none_found, remove_loaded) l.listed)
    | inr ((e, rest), found) ↦
        let same = take_entry-without_first id es ∙ ap (rest_or es) found in
        subst (λ x. IsListed host name x (remove host name id d).0) (sym same)
          (remove-Gone host works law name id e es rest d h found).listed
  ]

  wipe-Refined :
      (name : Bytes) (es : List Entry) (d : Disk)
      → IsListed host name es d
      → IsListed host name [] (purge_messages host name d).0
  unfolding purge_messages purge
  wipe-Refined name es d h =
      let l = load-Loaded host works law name es d h in
      let d' = (load host (mbox host name, d)).0.1 in
      let told = record d' { deleted = d'.deleted ++ map (entry_metadata name) es } in
      rw l.ok (
        subst
          (λ mb.
            IsListed host name []
              (write_index host (record mb { messages = [] })
                (record d' { deleted = d'.deleted ++ map (entry_metadata mb.name) mb.messages })).0)
          (sym l.box) (write_index-Written host works law name [] told).listed)

  apply-Refined :
      (c : Call) (es : List Entry) (d : Disk) → IsListed host (mailbox_of c) es d → Refined c es d
  unfolding apply
  apply-Refined (Call.add m) es d h = add-Refined m es d h
  apply-Refined (Call.list name) es d h = (es, refl, unfold get_messages in load-listed name es d h)
  apply-Refined (Call.get name id) es d h =
      (es, refl, unfold get_message in load-listed name es d h)
  apply-Refined (Call.seen name id) es d h = (_, refl, seen-Refined name id es d h)
  apply-Refined (Call.drop name id) es d h = (_, refl, drop-Refined name id es d h)
  apply-Refined (Call.wipe name) es d h = (_, refl, wipe-Refined name es d h)

  -- One call, of the mailbox or of another that is kept in another directory.
  step-Refined :
      (name : Bytes) (c : Call) (es : List Entry) (d : Disk)
      → (bytes_eq (mailbox_of c) name ≡ false
          → bytes_eq (host.hash (mailbox_of c)) (host.hash name) ≡ false)
      → IsListed host name es d
      → (next : List Entry) × (if bytes_eq (mailbox_of c) name
          then Becomes host c es next
          else (next ≡ es))
        × IsListed host name next (apply host c d)
  unfolding dir_of
  step-Refined name c es d apart h = elim (Bool-cases (bytes_eq (mailbox_of c) name)) [
    | inl same ↦
        let here : mailbox_of c ≡ name = (bytes_eq_iff (mailbox_of c) name).0 same in
        let (next, goes, listed) =
          apply-Refined c es d (subst (λ n. IsListed host n es d) (sym here) h) in
        (next, rw same goes, subst (λ n. IsListed host n next (apply host c d)) here listed)
    | inr other ↦ (
      es,
      rw other refl,
      ap (λ o. (or_no_dir o).index) (apply-Same host (host.hash name) c d (apart other)) ∙ h,
    )
  ]

  -- Where no operation on files fails and gob decodes what it encodes, the store on disk is, for each
  -- mailbox, a list of messages, on which its calls have these effects: a delivery that can be read
  -- drops the oldest that leave no room under the cap, and adds the message as the newest; MarkSeen
  -- marks the first message of the ID, RemoveMessage takes it out, PurgeMessages takes out all, and
  -- the other calls change nothing; calls for other mailboxes neither, if their names have another
  -- hash. After any calls GetMessages returns that list.
  pub run-AllBecome :
      (name : Bytes) (cs : List Call) (es : List Entry) (d : Disk)
      → All
          (λ c.
            bytes_eq (mailbox_of c) name ≡ false
            → bytes_eq (host.hash (mailbox_of c)) (host.hash name) ≡ false)
          cs
      → IsListed host name es d
      → (es' : List Entry) × AllBecome host name cs es es'
        × IsListed host name es' (run host cs d)
        × ((get_messages host name (run host cs d)).1 ≡ some es')
  unfolding run
  run-AllBecome name [] es d apart h =
      (es, refl, h, (get_messages-IsListed host works law name es d h).0)
  run-AllBecome name (c ∷ cs) es d apart h =
      let (next, goes, listed) = step-Refined name c es d apart.0 h in
      let (es', later, at_end, read) = run-AllBecome name cs next (apply host c d) apart.1 listed in
      (es', (next, goes, later), at_end, read)
