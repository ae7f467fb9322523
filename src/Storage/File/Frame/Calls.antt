-- ===== src/Storage/File/Frame/Calls.antt =====
-- The calls of pkg/storage/file touch the directory of their own mailbox only.
use go_inbucket.Base.{
  ℕ, zero, suc, ◌≡◌, refl, ◌∙◌, Bool, true, false, not, none, some, List, [], ◌∷◌, ◌++◌, map,
  if◌then◌else◌, Bytes, bytes_eq, ltb, leb, length, Bool-cases, Option-cases, inl, inr,
}
use go_inbucket.Storage.Dict.{lookup}
use go_inbucket.Storage.File.{
  Entry, Host, Disk, Mbox, entry_metadata, create_dir, remove_raw, load, write_index, remove_loaded,
  remove_message, purge,
}
use go_inbucket.Storage.File.Store.{
  mbox, trim, new_message, put_raw, entry_for, add_source, add_message, get_messages, get_message,
  mark, mark_seen, remove, purge_messages, Call, mailbox_of, apply, run,
}
use go_inbucket.Storage.Message.{Draft}
use go_inbucket.Storage.File.Frame.{
  Same, Stays, either-Same, either-Stays, create_dir-Same, remove_raw-Same, put_raw-Same,
  load-Stays, write_index-Same, remove_loaded-Stays,
}

module _ (host : Host) (other : Bytes) where
  Stays-trans :
      (d d' : Disk) (mbd : Mbox × Disk) → Same other d d' → Stays other d' mbd → Stays other d mbd
  Stays-trans d d' mbd e h = record { apart = h.apart; same = h.same ∙ e }

  remove_message-Stays :
      (id : Bytes) (mb : Mbox) (d : Disk)
      → bytes_eq mb.dir_name other ≡ false
      → Stays other d (remove_message host id (mb, d)).0
  unfolding remove_message
  remove_message-Stays id mb d apart =
      let (mb', d') = (load host (mb, d)).0 in
      let h : Stays other d (mb', d') = load-Stays host other mb d apart in
      either-Stays other d (load host (mb, d)).1 (remove_loaded host id (mb', d'))
        ((mb', d'), false)
        (Stays-trans d d' _ h.same (remove_loaded-Stays host other id mb' d' h.apart)) h

  trim-Stays :
      (fuel : ℕ) (mb : Mbox) (d : Disk)
      → bytes_eq mb.dir_name other ≡ false
      → Stays other d (trim host fuel (mb, d))
  unfolding trim
  trim-Stays zero mb d apart = record { apart = apart; same = refl }
  trim-Stays (suc fuel) mb d apart = go (λ mb' d' a. trim-Stays fuel mb' d' a) mb.messages refl
    where
      go :
          ((mb' : Mbox) (d' : Disk)
            → bytes_eq mb'.dir_name other ≡ false
            → Stays other d' (trim host fuel (mb', d')))
          → (es : List Entry) → mb.messages ≡ es
          → Stays other d (trim host (suc fuel) (mb, d))
      go later [] f = rw (f, trim) (record { apart = apart; same = refl })
      go later (e ∷ es) f = elim (Bool-cases (leb host.message_cap (length mb.messages))) [
        | inl over ↦
            let (mb', d') = (remove_loaded host e.id (mb, d)).0 in
            let h : Stays other d (mb', d') = remove_loaded-Stays host other e.id mb d apart in
            rw (f, trim, over)
              (Stays-trans d d' (trim host fuel (mb', d')) h.same (later mb' d' h.apart))
        | inr under ↦ rw (f, trim, under) (record { apart = apart; same = refl })
      ]

  trim_if-Stays :
      (b : Bool) (fuel : ℕ) (mb : Mbox) (d : Disk)
      → bytes_eq mb.dir_name other ≡ false
      → Stays other d (if b then trim host fuel (mb, d) else (mb, d))
  trim_if-Stays true fuel mb d apart = trim-Stays fuel mb d apart
  trim_if-Stays false fuel mb d apart = record { apart = apart; same = refl }

  new_message-Stays :
      (mb : Mbox) (d : Disk)
      → bytes_eq mb.dir_name other ≡ false
      → Stays other d (new_message host (mb, d)).0
  unfolding new_message
  new_message-Stays mb d apart =
      let (mb', d') = (load host (mb, d)).0 in
      let h : Stays other d (mb', d') = load-Stays host other mb d apart in
      let k =
        Stays-trans d d' _ h.same
          (trim_if-Stays (ltb 0 host.message_cap) (length mb'.messages) mb' d' h.apart) in
      elim (Bool-cases (load host (mb, d)).1) [
        | inl loaded ↦ rw (loaded, new_message) (record { apart = k.apart; same = k.same })
        | inr not_loaded ↦ rw (not_loaded, new_message) h
      ]

  add_source-Same :
      (m : Draft) (source id : Bytes) (mb : Mbox) (d : Disk)
      → bytes_eq mb.dir_name other ≡ false
      → Same other d (add_source host m source id (mb, d)).0
  unfolding add_source
  add_source-Same m source id mb d apart =
      let h = mb.dir_name in
      let d1 = (create_dir host h d).0 in
      let d2 = (put_raw host h id source d1).0 in
      let mb' = record mb { messages = mb.messages ++ entry_for m source id ∷ [] } in
      let d3 = (write_index host mb' d2).0 in
      let d4 = (remove_raw host h id d3).0 in
      let e1 : Same other d d1 = create_dir-Same host h other apart d in
      let e2 : Same other d d2 = put_raw-Same host h other apart id source d1 ∙ e1 in
      let e3 : Same other d d3 = write_index-Same host other mb' d2 apart ∙ e2 in
      let e4 : Same other d d4 = remove_raw-Same host h other apart id d3 ∙ e3 in
      either-Same other d (not (create_dir host h d).1) (d1, none) _ e1
        (either-Same other d (not (put_raw host h id source d1).1) (d2, none) _ e2
          (either-Same other d (write_index host mb' d2).1 (d3, some id) (d4, none) e3 e4))

  add_message-Same :
      (m : Draft) (d : Disk)
      → bytes_eq (host.hash m.mailbox) other ≡ false
      → Same other d (add_message host m d).0
  unfolding add_message
  add_message-Same m d apart = elim (Option-cases m.source) [
    | inl unread ↦ rw (unread, add_message) refl
    | inr (source, read) ↦
        let (mb', d') = (new_message host (mbox host m.mailbox, d)).0 in
        let h : Stays other d (mb', d') = new_message-Stays (mbox host m.mailbox) d apart in
        elim (Option-cases (new_message host (mbox host m.mailbox, d)).1) [
          | inl refused ↦ rw (read, add_message, refused) h.same
          | inr (id, found) ↦
              rw (read, add_message, found) (add_source-Same m source id mb' d' h.apart ∙ h.same)
        ]
  ]

  mark_seen-Same :
      (mailbox id : Bytes) (d : Disk)
      → bytes_eq (host.hash mailbox) other ≡ false
      → Same other d (mark_seen host mailbox id d).0
  unfolding mark_seen
  mark_seen-Same mailbox id d apart =
      let (mb, d') = (load host (mbox host mailbox, d)).0 in
      let h : Stays other d (mb, d') = load-Stays host other (mbox host mailbox) d apart in
      let mb' = record mb { messages = (mark id mb.messages).0 } in
      either-Same other d (not (load host (mbox host mailbox, d)).1) (d', false) _ h.same
        (either-Same other d (mark id mb.messages).1 (write_index host mb' d') (d', true)
          (write_index-Same host other mb' d' h.apart ∙ h.same) h.same)

  purge_messages-Same :
      (mailbox : Bytes) (d : Disk)
      → bytes_eq (host.hash mailbox) other ≡ false
      → Same other d (purge_messages host mailbox d).0
  unfolding purge_messages purge
  purge_messages-Same mailbox d apart =
      let (mb, d') = (load host (mbox host mailbox, d)).0 in
      let h : Stays other d (mb, d') = load-Stays host other (mbox host mailbox) d apart in
      let told = record d' { deleted = d'.deleted ++ map (entry_metadata mb.name) mb.messages } in
      let mb' = record mb { messages = [] } in
      either-Same other d (load host (mbox host mailbox, d)).1 (write_index host mb' told)
        (d', false) (write_index-Same host other mb' told h.apart ∙ h.same) h.same

  pub apply-Same :
      (c : Call) (d : Disk)
      → bytes_eq (host.hash (mailbox_of c)) other ≡ false
      → Same other d (apply host c d)
  unfolding apply
  apply-Same (Call.add m) d apart = add_message-Same m d apart
  apply-Same (Call.list mailbox) d apart =
      unfold get_messages in (load-Stays host other (mbox host mailbox) d apart).same
  apply-Same (Call.get mailbox id) d apart =
      unfold get_message in (load-Stays host other (mbox host mailbox) d apart).same
  apply-Same (Call.seen mailbox id) d apart = mark_seen-Same mailbox id d apart
  apply-Same (Call.drop mailbox id) d apart =
      unfold remove in (remove_message-Stays id (mbox host mailbox) d apart).same
  apply-Same (Call.wipe mailbox) d apart = purge_messages-Same mailbox d apart

-- No call is on a mailbox of this hash.
abbrev pub AllApart : Host → Bytes → List Call → Type 0
AllApart host other [] = Unit {0}
AllApart host other (c ∷ cs) =
    (bytes_eq (host.hash (mailbox_of c)) other ≡ false) × AllApart host other cs

-- Whatever calls are made, and whichever operations on files fail, the directory of a mailbox stays as
-- it was, if none of the calls is on a mailbox of its hash.
pub run-Same :
    (host : Host) (other : Bytes) (cs : List Call) (d : Disk)
    → AllApart host other cs
    → lookup other (run host cs d).dirs ≡ lookup other d.dirs
unfolding run
run-Same host other [] d apart = refl
run-Same host other (c ∷ cs) d (here, later) =
    run-Same host other cs (apply host c d) later ∙ apply-Same host other c d here
