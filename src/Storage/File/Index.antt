-- ===== src/Storage/File/Index.antt =====
-- The index of a mailbox of pkg/storage/file, as it is written and read where no operation on files
-- fails, and gob decodes what it encoded.
use mathlib.Core.Path.{subst}
use go_inbucket.Base.{
  ℕ, ◌+◌, ◌≡◌, ◌≢◌, refl, sym, ap, ◌∙◌, Bool, true, Option, none, some, List, [], ◌∷◌, Bytes,
  bytes_eq_refl,
}
use go_inbucket.Storage.Dict.{lookup, insert, erase, lookup-insert, lookup-erase}
use go_inbucket.Storage.File.{
  Entry, Dir, worked, Host, Disk, Mbox, no_dir, dir_of, put_dir, create_dir, remove_dir, put_index,
  read_index, load, write_index,
}
use go_inbucket.Storage.File.Store.{mbox}

pub dir_of-put_dir : (h : Bytes) (dir : Dir) (d : Disk) → dir_of h (put_dir h dir d) ≡ dir
unfolding dir_of
dir_of-put_dir h dir d =
    let there : lookup h (insert h dir d.dirs) ≡ some dir =
      lookup-insert h h dir d.dirs ∙ rw (bytes_eq_refl h) refl in
    rw (there, dir_of) refl

dir_of-erase :
    (h : Bytes) (d : Disk) (n : ℕ) → dir_of h (record d { dirs = erase h d.dirs; ops = n }) ≡ no_dir
unfolding dir_of
dir_of-erase h d n =
    let gone : lookup h (erase h d.dirs) ≡ none =
      lookup-erase h h d.dirs ∙ rw (bytes_eq_refl h) refl in
    rw (gone, dir_of) refl

-- What is in the index file for some entries; there is none for none.
abbrev pub index_for : Host → Bytes → List Entry → Option Bytes
index_for host name [] = none
index_for host name (e ∷ es) = some (host.encode name (e ∷ es))

-- A mailbox of this name, loaded with these entries.
abbrev pub full : Host → Bytes → List Entry → Mbox
full host name es = record {
  name = name;
  dir_name = host.hash name;
  index_loaded = true;
  messages = es;
}

-- On the disk the mailbox of this name holds these entries.
abbrev pub IsListed : Host → Bytes → List Entry → Disk → Type 0
IsListed host name es d = (dir_of (host.hash name) d).index ≡ index_for host name es

module _ (host : Host) (works : (n : ℕ) → host.outcome n ≡ worked)
    (law : (name : Bytes) (es : List Entry)
      → host.decode (host.encode name es) ≡ some (name, es)) where
  -- Reading back what was written.
  pub load-IsListed :
      (name : Bytes) (es : List Entry) (d : Disk)
      → IsListed host name es d
      → (n : ℕ) × (load host (mbox host name, d)
          ≡ ((full host name es, record d { ops = n }), true))
  unfolding load read_index
  load-IsListed name [] d h = (d.ops + 1, rw (works d.ops, load, read_index, h) refl)
  load-IsListed name (e ∷ es) d h = (
    d.ops + 1 + 1,
    rw (works d.ops, load, read_index, h, works (d.ops + 1), law name (e ∷ es)) refl,
  )

  pub create_dir-works :
      (h : Bytes) (d : Disk) → create_dir host h d ≡ (put_dir h (dir_of h d) d, true)
  unfolding create_dir
  create_dir-works h d = rw (works d.ops, create_dir) refl

  put_index-works :
      (h text : Bytes) (d : Disk)
      → put_index host h text d ≡ (put_dir h (record (dir_of h d) { index = some text }) d, true)
  unfolding put_index
  put_index-works h text d = rw (works d.ops, put_index) refl

  abbrev pub with_dir : Bytes → Disk → Disk
  with_dir h d = put_dir h (dir_of h d) d

  abbrev with_index : Bytes → Bytes → Disk → Disk
  with_index h text d = put_dir h (record (dir_of h d) { index = some text }) d

  -- What a write leaves: the new index, and the messages' files as they were unless it was the last.
  pub record Written (name : Bytes) (es : List Entry) (d : Disk) (r : Disk × Bool) : Type 0 where
    pub ok : r.1 ≡ true
    pub listed : IsListed host name es r.0
    pub raws : es ≢ [] → (dir_of (host.hash name) r.0).raws ≡ (dir_of (host.hash name) d).raws
    pub events : r.0.deleted ≡ d.deleted

  write_index-works :
      (name : Bytes) (e : Entry) (es : List Entry) (d : Disk)
      → write_index host (full host name (e ∷ es)) d ≡ (
        with_index (host.hash name) (host.encode name (e ∷ es)) (with_dir (host.hash name) d),
        true,
      )
  unfolding write_index
  write_index-works name e es d =
      let h = host.hash name in
      rw (create_dir-works h d, put_index-works h (host.encode name (e ∷ es)) (with_dir h d)) refl

  pub write_index-Written :
      (name : Bytes) (es : List Entry) (d : Disk)
      → Written name es d (write_index host (full host name es) d)
  write_index-Written name [] d =
      unfold write_index remove_dir in
      rw (works d.ops, remove_dir)
        (record {
          ok = refl;
          listed = ap (λ x. x.index) (dir_of-erase (host.hash name) d (d.ops + 1));
          raws = λ ne. absurd (ne refl);
          events = refl;
        })
  write_index-Written name (e ∷ es) d =
      let h = host.hash name in
      let text = host.encode name (e ∷ es) in
      let d1 = with_dir h d in
      subst (Written name (e ∷ es) d) (sym (write_index-works name e es d)) (record {
        ok = refl;
        listed =
            ap (λ x. x.index) (dir_of-put_dir h (record (dir_of h d1) { index = some text }) d1);
        raws = λ ne.
            ap (λ x. x.raws) (dir_of-put_dir h (record (dir_of h d1) { index = some text }) d1)
            ∙ ap (λ x. x.raws) (dir_of-put_dir h (dir_of h d) d);
        events = refl;
      })
