-- ===== src/Storage/File/Frame.antt =====
-- An operation of pkg/storage/file touches the directory of its own mailbox only, whatever fails.
pub mod Calls
use go_inbucket.Base.{
  ℕ, zero, suc, ◌+◌, ◌≡◌, ◌⊎◌, refl, sym, ap, ◌∙◌, Bool, true, false, not, ◌&&◌, Option, none, some,
  List, [], ◌∷◌, ◌++◌, map, if◌then◌else◌, Bytes, bytes_eq, txt, ltb, leb, length, Bool-cases,
  Option-cases, inl, inr,
}
use go_inbucket.Storage.Dict.{Dict, lookup, insert, erase, lookup-insert, lookup-erase}
use go_inbucket.Storage.File.{
  Entry, Dir, Outcome, worked, failed, Host, Disk, Mbox, dir_of, entry_metadata, tick, put_dir,
  create_dir, remove_dir, put_index, remove_raw, read_index, load, write_index, take_entry,
  remove_found, remove_loaded, remove_message, purge,
}
use go_inbucket.Storage.File.Store.{
  mbox, trim, new_message, put_raw, entry_for, add_source, add_message, get_messages, get_message,
  mark, mark_seen, remove, purge_messages, Call, mailbox_of, apply, run,
}
use go_inbucket.Storage.Message.{Draft}

-- The directory of another mailbox is the same on two disks.
abbrev pub Same : Bytes → Disk → Disk → Type 0
Same other d d' = lookup other d'.dirs ≡ lookup other d.dirs

pub either-Same :
    {A : Type 0} (other : Bytes) (d : Disk) (b : Bool) (p q : Disk × A)
    → Same other d p.0
    → Same other d q.0
    → Same other d (if b then p else q).0
either-Same other d true p q hp hq = hp
either-Same other d false p q hp hq = hq

put_dir-Same :
    (hash other : Bytes) (dir : Dir) (d : Disk)
    → bytes_eq hash other ≡ false
    → Same other d (put_dir hash dir d)
put_dir-Same hash other dir d apart = lookup-insert hash other dir d.dirs ∙ rw apart refl

module _ (host : Host) (hash other : Bytes) (apart : bytes_eq hash other ≡ false) where
  pub create_dir-Same : (d : Disk) → Same other d (create_dir host hash d).0
  unfolding create_dir
  create_dir-Same d = go (host.outcome d.ops) refl
    where
      go : (o : Outcome) → host.outcome d.ops ≡ o → Same other d (create_dir host hash d).0
      go worked e = rw (e, create_dir) (put_dir-Same hash other (dir_of hash d) d apart)
      go (failed left) e = rw (e, create_dir) refl

  pub remove_dir-Same : (d : Disk) → Same other d (remove_dir host hash d).0
  unfolding remove_dir
  remove_dir-Same d = go (host.outcome d.ops) refl
    where
      go : (o : Outcome) → host.outcome d.ops ≡ o → Same other d (remove_dir host hash d).0
      go worked e = rw (e, remove_dir) (lookup-erase hash other d.dirs ∙ rw apart refl)
      go (failed left) e = rw (e, remove_dir) refl

  pub put_index-Same : (text : Bytes) (d : Disk) → Same other d (put_index host hash text d).0
  unfolding put_index
  put_index-Same text d = go (host.outcome d.ops) refl
    where
      go : (o : Outcome) → host.outcome d.ops ≡ o → Same other d (put_index host hash text d).0
      go worked e =
          rw (e, put_index)
            (put_dir-Same hash other (record (dir_of hash d) { index = some text }) d apart)
      go (failed none) e = rw (e, put_index) refl
      go (failed (some left)) e =
          rw (e, put_index)
            (put_dir-Same hash other (record (dir_of hash d) { index = some left }) d apart)

  pub remove_raw-Same : (id : Bytes) (d : Disk) → Same other d (remove_raw host hash id d).0
  unfolding remove_raw
  remove_raw-Same id d =
      go (host.outcome d.ops) refl (Option-cases (lookup id (dir_of hash d).raws))
    where
      go :
          (o : Outcome)
          → host.outcome d.ops ≡ o
          → (lookup id (dir_of hash d).raws ≡ none)
            ⊎ ((raw : Bytes) × (lookup id (dir_of hash d).raws ≡ some raw))
          → Same other d (remove_raw host hash id d).0
      go worked e (inl absent) = rw (e, remove_raw, absent) refl
      go worked e (inr (raw, found)) =
          rw (e, remove_raw, found)
            (put_dir-Same hash other
              (record (dir_of hash d) { raws = erase id (dir_of hash d).raws }) d apart)
      go (failed left) e f = rw (e, remove_raw) refl

  pub put_raw-Same : (id source : Bytes) (d : Disk) → Same other d (put_raw host hash id source d).0
  unfolding put_raw
  put_raw-Same id source d = go (host.outcome d.ops) refl
    where
      go : (o : Outcome) → host.outcome d.ops ≡ o → Same other d (put_raw host hash id source d).0
      go worked e =
          rw (e, put_raw)
            (put_dir-Same hash other
              (record (dir_of hash d) { raws = insert id source (dir_of hash d).raws }) d apart)
      go (failed none) e = rw (e, put_raw) refl
      go (failed (some left)) e =
          let d' =
            put_dir hash (record (dir_of hash d) { raws = insert id left (dir_of hash d).raws })
              d in
          rw (e, put_raw)
            (remove_raw-Same id d'
              ∙ put_dir-Same hash other
                  (record (dir_of hash d) { raws = insert id left (dir_of hash d).raws }) d apart)

-- A mailbox that is not the other one, on a disk that has not changed for the other one.
pub record Stays (other : Bytes) (d : Disk) (mbd : Mbox × Disk) : Type 0 where
  pub apart : bytes_eq mbd.0.dir_name other ≡ false
  pub same : Same other d mbd.1

pub either-Stays :
    {A : Type 0} (other : Bytes) (d : Disk) (b : Bool) (p q : (Mbox × Disk) × A)
    → Stays other d p.0
    → Stays other d q.0
    → Stays other d (if b then p else q).0
either-Stays other d true p q hp hq = hp
either-Stays other d false p q hp hq = hq

module _ (host : Host) (other : Bytes) where
  read_index-Stays :
      (mb : Mbox) (d : Disk)
      → bytes_eq mb.dir_name other ≡ false
      → Stays other d (read_index host (mb, d)).0
  unfolding read_index
  read_index-Stays mb d apart = go (host.outcome d.ops) refl
    where
      decoded :
          (text : Bytes)
          → host.outcome d.ops ≡ worked
          → (dir_of mb.dir_name d).index ≡ some text
          → host.outcome (d.ops + 1) ≡ worked
          → Stays other d (read_index host (mb, d)).0
      decoded text e f g = elim (Option-cases (host.decode text)) [
        | inl corrupt ↦ rw (e, read_index, f, g, corrupt) (record { apart = apart; same = refl })
        | inr (found, ok) ↦ rw (e, read_index, f, g, ok) (record { apart = apart; same = refl })
      ]

      opened :
          (text : Bytes) (o : Outcome)
          → host.outcome d.ops ≡ worked
          → (dir_of mb.dir_name d).index ≡ some text
          → host.outcome (d.ops + 1) ≡ o
          → Stays other d (read_index host (mb, d)).0
      opened text worked e f g = decoded text e f g
      opened text (failed left) e f g =
          rw (e, read_index, f, g) (record { apart = apart; same = refl })

      go : (o : Outcome) → host.outcome d.ops ≡ o → Stays other d (read_index host (mb, d)).0
      go (failed left) e = rw (e, read_index) (record { apart = apart; same = refl })
      go worked e = elim (Option-cases (dir_of mb.dir_name d).index) [
        | inl new ↦ rw (e, read_index, new) (record { apart = apart; same = refl })
        | inr (text, there) ↦ opened text (host.outcome (d.ops + 1)) e there refl
      ]

  pub load-Stays :
      (mb : Mbox) (d : Disk)
      → bytes_eq mb.dir_name other ≡ false
      → Stays other d (load host (mb, d)).0
  unfolding load
  load-Stays mb d apart =
      either-Stays other d mb.index_loaded ((mb, d), true) (read_index host (mb, d))
        (record { apart = apart; same = refl }) (read_index-Stays mb d apart)

  pub write_index-Same :
      (mb : Mbox) (d : Disk)
      → bytes_eq mb.dir_name other ≡ false
      → Same other d (write_index host mb d).0
  unfolding write_index
  write_index-Same mb d apart = go mb.messages refl
    where
      go : (es : List Entry) → mb.messages ≡ es → Same other d (write_index host mb d).0
      go [] e = rw (e, write_index) (remove_dir-Same host mb.dir_name other apart d)
      go (x ∷ es) e =
          let made = create_dir-Same host mb.dir_name other apart d in
          let text = host.encode mb.name mb.messages in
          elim (Bool-cases (create_dir host mb.dir_name d).1) [
            | inl ready ↦
                rw (e, write_index, ready)
                  (put_index-Same host mb.dir_name other apart text
                      (create_dir host mb.dir_name d).0
                    ∙ made)
            | inr not_ready ↦ rw (e, write_index, not_ready) made
          ]

  remove_found-Stays :
      (e : Entry) (es : List Entry) (mb : Mbox) (d : Disk)
      → bytes_eq mb.dir_name other ≡ false
      → Stays other d (remove_found host e es (mb, d)).0
  unfolding remove_found
  remove_found-Stays e es mb d apart =
      let told = record d { deleted = d.deleted ++ entry_metadata mb.name e ∷ [] } in
      let (d', written) = write_index host (record mb { messages = es }) told in
      let step : Same other d d' = write_index-Same (record mb { messages = es }) told apart in
      let mb' = record mb { messages = es } in
      let (d'', removed) = remove_raw host mb.dir_name e.id d' in
      let step' : Same other d d'' = remove_raw-Same host mb.dir_name other apart e.id d' ∙ step in
      go es d' d'' removed written step step'
    where
      go :
          (rest : List Entry) (p q : Disk) (removed written : Bool)
          → Same other d p
          → Same other d q
          → Stays other d
              (if◌then◌else◌ {A = (Mbox × Disk) × Bool} written
                (elim rest [
                  | [] ↦ ((record mb { messages = es }, p), true)
                  | _ ↦ ((record mb { messages = es }, q), removed)
                ])
                ((record mb { messages = es }, p), false)).0
      go rest p q removed false hp hq = record { apart = apart; same = hp }
      go [] p q removed true hp hq = record { apart = apart; same = hp }
      go (x ∷ rest) p q removed true hp hq = record { apart = apart; same = hq }

  pub remove_loaded-Stays :
      (id : Bytes) (mb : Mbox) (d : Disk)
      → bytes_eq mb.dir_name other ≡ false
      → Stays other d (remove_loaded host id (mb, d)).0
  unfolding remove_loaded
  remove_loaded-Stays id mb d apart = elim (Option-cases (take_entry id mb.messages)) [
    | inl absent ↦ rw (absent, remove_loaded) (record { apart = apart; same = refl })
    | inr ((e, es), found) ↦ rw (found, remove_loaded) (remove_found-Stays e es mb d apart)
  ]
