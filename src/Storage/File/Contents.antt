-- ===== src/Storage/File/Contents.antt =====
-- What AddMessage, GetMessages and RemoveMessage of pkg/storage/file do to a mailbox, where no operation
-- on files fails.
use mathlib.Core.Path.{subst}
use go_inbucket.Base.{
  ℕ, zero, suc, ◌≤◌, ◌<◌, ◌≡◌, ◌≢◌, refl, sym, ap, ◌∙◌, Bool, true, false, Option, some, List, [],
  ◌∷◌, ◌++◌, if◌then◌else◌, Bytes, bytes_eq_refl, ltb, leb, length, arith, Bool-cases, Option-cases,
  inl, inr,
}
use go_inbucket.Storage.Dict.{lookup, insert, erase, lookup-insert}
use go_inbucket.Storage.File.{
  Entry, worked, Host, Disk, Mbox, dir_of, entry_metadata, put_dir, create_dir, remove_raw,
  write_index, take_entry, remove_found, remove_loaded,
}
use go_inbucket.Storage.File.Index.{
  IsListed, full, write_index-Written, create_dir-works, dir_of-put_dir,
}
use go_inbucket.Storage.File.Store.{trim, put_raw, entry_for, add_source}
use go_inbucket.Storage.Message.{Draft}

-- The entries that leave room for one more under the cap, the oldest gone first.
abbrev pub with_room : ℕ → List Entry → List Entry
with_room cap [] = []
with_room cap (e ∷ es) = if leb cap (length (e ∷ es)) then with_room cap es else e ∷ es

-- Nothing goes where there is no cap.
abbrev pub room : Host → List Entry → List Entry
room host es = if ltb 0 host.message_cap then with_room host.message_cap es else es

pub length-with_room : (cap : ℕ) (es : List Entry) → 0 < cap → length (with_room cap es) < cap
length-with_room cap [] h = omega arith
length-with_room cap (e ∷ es) h = ground (arith, length-with_room cap es h)

append-ne_nil : (es : List Entry) (e : Entry) → (es ++ e ∷ []) ≢ []
append-ne_nil [] e = λ h. cc
append-ne_nil (x ∷ es) e = λ h. cc

module _ (host : Host) (works : (n : ℕ) → host.outcome n ≡ worked) where
  remove_raw-index :
      (h id : Bytes) (d : Disk) → (dir_of h (remove_raw host h id d).0).index ≡ (dir_of h d).index
  unfolding remove_raw
  remove_raw-index h id d = elim (Option-cases (lookup id (dir_of h d).raws)) [
    | inl absent ↦ rw (works d.ops, remove_raw, absent) (unfold dir_of in refl)
    | inr (raw, found) ↦
        rw (works d.ops, remove_raw, found)
          (ap (λ x. x.index)
            (dir_of-put_dir h (record (dir_of h d) { raws = erase id (dir_of h d).raws }) d))
  ]

  remove_raw-deleted : (h id : Bytes) (d : Disk) → (remove_raw host h id d).0.deleted ≡ d.deleted
  unfolding remove_raw
  remove_raw-deleted h id d = elim (Option-cases (lookup id (dir_of h d).raws)) [
    | inl absent ↦ rw (works d.ops, remove_raw, absent) refl
    | inr (raw, found) ↦ rw (works d.ops, remove_raw, found) refl
  ]

  put_raw-works :
      (h id source : Bytes) (d : Disk)
      → put_raw host h id source d
        ≡ (put_dir h (record (dir_of h d) { raws = insert id source (dir_of h d).raws }) d, true)
  unfolding put_raw
  put_raw-works h id source d = rw (works d.ops, put_raw) refl

module _ (host : Host) (works : (n : ℕ) → host.outcome n ≡ worked)
    (law : (name : Bytes) (es : List Entry)
      → host.decode (host.encode name es) ≡ some (name, es)) where
  -- A mailbox from which a message was removed, and the disk.
  pub record Removed (name : Bytes) (e : Entry) (rest : List Entry) (d : Disk) (mbd : Mbox × Disk)
      : Type 0 where
    pub box : mbd.0 ≡ full host name rest
    pub listed : IsListed host name rest mbd.1
    pub events : mbd.1.deleted ≡ d.deleted ++ entry_metadata name e ∷ []

  pub remove_found-Removed :
      (name : Bytes) (e : Entry) (es rest : List Entry) (d : Disk)
      → Removed name e rest d (remove_found host e rest (full host name es, d)).0
  unfolding remove_found
  remove_found-Removed name e es [] d =
      let told = record d { deleted = d.deleted ++ entry_metadata name e ∷ [] } in
      let w = write_index-Written host works law name [] told in
      rw (w.ok, remove_found) (record { box = refl; listed = w.listed; events = w.events })
  remove_found-Removed name e es (x ∷ rest) d =
      let told = record d { deleted = d.deleted ++ entry_metadata name e ∷ [] } in
      let w = write_index-Written host works law name (x ∷ rest) told in
      let d' = (write_index host (full host name (x ∷ rest)) told).0 in
      rw (w.ok, remove_found)
        (record {
          box = refl;
          listed = remove_raw-index host works (host.hash name) e.id d' ∙ w.listed;
          events = remove_raw-deleted host works (host.hash name) e.id d' ∙ w.events;
        })

  remove_first-Removed :
      (name : Bytes) (e : Entry) (es : List Entry) (d : Disk)
      → Removed name e es d (remove_loaded host e.id (full host name (e ∷ es), d)).0
  unfolding remove_loaded take_entry
  remove_first-Removed name e es d =
      rw (bytes_eq_refl e.id, remove_loaded, take_entry) (remove_found-Removed name e (e ∷ es) es d)

  -- The loop of newMessage.
  pub record Trimmed (name : Bytes) (es : List Entry) (mbd : Mbox × Disk) : Type 0 where
    pub box : mbd.0 ≡ full host name es
    pub listed : IsListed host name es mbd.1

  trim-Trimmed :
      (fuel : ℕ) (name : Bytes) (es : List Entry) (d : Disk)
      → length es ≤ fuel
      → IsListed host name es d
      → Trimmed name (with_room host.message_cap es) (trim host fuel (full host name es, d))
  unfolding trim
  trim-Trimmed zero name [] d le h = record { box = refl; listed = h }
  trim-Trimmed zero name (e ∷ es) d le h = absurd (omega (arith, le))
  trim-Trimmed (suc fuel) name [] d le h = record { box = refl; listed = h }
  trim-Trimmed (suc fuel) name (e ∷ es) d le h =
      elim (Bool-cases (leb host.message_cap (length (e ∷ es)))) [
        | inl over ↦
            let mbd = (remove_loaded host e.id (full host name (e ∷ es), d)).0 in
            let r = remove_first-Removed name e es d in
            rw (over, trim)
              (subst
                (λ mb. Trimmed name (with_room host.message_cap es) (trim host fuel (mb, mbd.1)))
                (sym r.box) (trim-Trimmed fuel name es mbd.1 (omega (arith, le)) r.listed))
        | inr under ↦ rw (under, trim) (record { box = refl; listed = h })
      ]

  pub trim_if-Trimmed :
      (b : Bool) (name : Bytes) (es : List Entry) (d : Disk)
      → IsListed host name es d
      → Trimmed name
          (if b then with_room host.message_cap es else es)
          (if b then trim host (length es) (full host name es, d) else (full host name es, d))
  trim_if-Trimmed true name es d h = trim-Trimmed (length es) name es d (omega arith) h
  trim_if-Trimmed false name es d h = record { box = refl; listed = h }

  -- A message that was added to these entries.
  pub record Added (name : Bytes) (es : List Entry) (m : Draft) (source id : Bytes)
      (r : Disk × Option Bytes) : Type 0 where
    pub result : r.1 ≡ some id
    pub listed : IsListed host name (es ++ entry_for m source id ∷ []) r.0
    pub stored : lookup id (dir_of (host.hash name) r.0).raws ≡ some source

  pub add_source-Added :
      (m : Draft) (name source id : Bytes) (es : List Entry) (d : Disk)
      → Added name es m source id (add_source host m source id (full host name es, d))
  unfolding add_source
  add_source-Added m name source id es d =
      let h = host.hash name in
      let d1 = (create_dir host h d).0 in
      let d2 = (put_raw host h id source d1).0 in
      let dir2 = record (dir_of h d1) { raws = insert id source (dir_of h d1).raws } in
      let all = es ++ entry_for m source id ∷ [] in
      let w = write_index-Written host works law name all d2 in
      let made : (create_dir host h d).1 ≡ true =
        ap (λ x. x.1) (create_dir-works host works law h d) in
      let put : (put_raw host h id source d1).1 ≡ true =
        ap (λ x. x.1) (put_raw-works host works h id source d1) in
      rw (made, put, w.ok)
        (record {
          result = refl;
          listed = w.listed;
          stored =
              ap (lookup id) (w.raws (append-ne_nil es (entry_for m source id)))
              ∙ ap (λ x. lookup id (dir_of h x.0).raws) (put_raw-works host works h id source d1)
              ∙ ap (λ x. lookup id x.raws) (dir_of-put_dir h dir2 d1)
              ∙ lookup-insert id id source (dir_of h d1).raws
              ∙ rw (bytes_eq_refl id) refl;
        })
