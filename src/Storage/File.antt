-- ===== src/Storage/File.antt =====
-- pkg/storage/file: the store on disk. mbox.go is here, the index of a mailbox; Store is fstore.go
-- and newMessage of fmessage.go.
--
-- A mailbox's directory is known by the hash of its name, of which its two parents are prefixes, so
-- the parents, which are there exactly while they hold something, are left out. Each operation runs
-- under the lock of its mailbox, so it is one step.
pub mod Store
pub mod Frame
pub mod Index
pub mod Contents
pub mod Calls
pub mod Valid
pub mod Refines
use go_inbucket.Base.{
  ℕ, zero, suc, ◌+◌, Bool, true, false, ◌&&◌, Option, none, some, List, [], ◌∷◌, ◌++◌,
  if◌then◌else◌, Bytes, bytes_eq,
}
use go_inbucket.Storage.Dict.{Dict, lookup, insert, erase}
use go_inbucket.Storage.Message.{Metadata}
use go_inbucket.StringUtil.{Address}

-- What the index keeps of a message.
pub record Entry : Type 0 where
  pub id : Bytes
  pub date : ℕ
  pub from : Option Address
  pub to : List Address
  pub subject : Bytes
  pub size : ℕ
  pub seen : Bool

-- The directory of a mailbox: the index file, and the files of the messages by ID.
pub record Dir : Type 0 where
  pub index : Option Bytes
  pub raws : Dict Bytes

-- How an operation on files ends. One that fails to write may leave something else in the file, or,
-- with `none`, leave it as it was.
pub data Outcome : Type 0 where
  worked : Outcome
  failed : Option Bytes → Outcome

-- What is around the store: HashMailboxName; gob, whose `decode` is `none` for a corrupt index; how the
-- n-th operation on files ends; and the text of the time then, without the counter of generateID.
pub record Host : Type 0 where
  pub hash : Bytes → Bytes
  pub encode : Bytes → List Entry → Bytes
  pub decode : Bytes → Option (Bytes × List Entry)
  pub outcome : ℕ → Outcome
  pub now : ℕ → Bytes
  pub message_cap : ℕ

-- The disk by hashes, the number of operations on it, countChannel, and the sequence of the
-- `AfterMessageDeleted` events.
pub record Disk : Type 0 where
  pub dirs : Dict Dir
  pub ops : ℕ
  pub count : ℕ
  pub deleted : List Metadata

pub record Mbox : Type 0 where
  pub name : Bytes
  pub dir_name : Bytes
  pub index_loaded : Bool
  pub messages : List Entry

abbrev pub no_dir : Dir
no_dir = record { index = none; raws = [] }

unfoldable pub dir_of : Bytes → Disk → Dir
dir_of hash d = elim (lookup hash d.dirs) [ none ↦ no_dir | some dir ↦ dir ]

-- `MakeMetadata` of such a message.
abbrev pub entry_metadata : Bytes → Entry → Metadata
entry_metadata mailbox e = record {
  mailbox = mailbox;
  id = e.id;
  from = e.from;
  to = e.to;
  date = e.date;
  subject = e.subject;
  size = e.size;
  seen = e.seen;
}

abbrev pub tick : Disk → Disk
tick d = record d { ops = d.ops + 1 }

abbrev pub put_dir : Bytes → Dir → Disk → Disk
put_dir hash dir d = record d { dirs = insert hash dir d.dirs; ops = d.ops + 1 }

module _ (host : Host) where
  -- `createDir`.
  unfoldable pub create_dir : Bytes → Disk → Disk × Bool
  unfolding dir_of
  create_dir hash d = elim (host.outcome d.ops) [
    | worked ↦ (put_dir hash (dir_of hash d) d, true)
    | failed left ↦ (tick d, false)
  ]

  -- `removeDir`; a failure is taken to remove nothing.
  unfoldable pub remove_dir : Bytes → Disk → Disk × Bool
  remove_dir hash d = elim (host.outcome d.ops) [
    | worked ↦ (record d { dirs = erase hash d.dirs; ops = d.ops + 1 }, true)
    | failed left ↦ (tick d, false)
  ]

  -- The writing of the index file, which is opened for it and truncated.
  unfoldable pub put_index : Bytes → Bytes → Disk → Disk × Bool
  unfolding dir_of
  put_index hash text d = elim (host.outcome d.ops) [
    | worked ↦ (put_dir hash (record (dir_of hash d) { index = some text }) d, true)
    | failed none ↦ (tick d, false)
    | failed (some left) ↦ (put_dir hash (record (dir_of hash d) { index = some left }) d, false)
  ]

  -- `os.Remove` of the file of a message.
  unfoldable pub remove_raw : Bytes → Bytes → Disk → Disk × Bool
  unfolding dir_of
  remove_raw hash id d = elim (host.outcome d.ops) [
    | worked ↦ elim (lookup id (dir_of hash d).raws) [
      | none ↦ (tick d, false)
      | some raw ↦
          (put_dir hash (record (dir_of hash d) { raws = erase id (dir_of hash d).raws }) d, true)
    ]
    | failed left ↦ (tick d, false)
  ]

  -- `readIndex`. An index that cannot be looked at is taken for none.
  unfoldable pub read_index : Mbox × Disk → (Mbox × Disk) × Bool
  unfolding dir_of
  read_index (mb, d) = elim (host.outcome d.ops) [
    | failed left ↦ ((record mb { messages = []; index_loaded = true }, tick d), true)
    | worked ↦ elim (dir_of mb.dir_name d).index [
      | none ↦ ((record mb { messages = []; index_loaded = true }, tick d), true)
      | some text ↦ elim (host.outcome (d.ops + 1)) [
        | failed left ↦ ((mb, tick (tick d)), false)
        | worked ↦ elim (host.decode text) [
          | none ↦ ((mb, tick (tick d)), false)
          | some found ↦ (
            (record mb { name = found.0; messages = found.1; index_loaded = true }, tick (tick d)),
            true,
          )
        ]
      ]
    ]
  ]

  -- The test of `indexLoaded` before each use of the index.
  unfoldable pub load : Mbox × Disk → (Mbox × Disk) × Bool
  unfolding read_index
  load (mb, d) = if mb.index_loaded then ((mb, d), true) else read_index (mb, d)

  unfoldable pub write_index : Mbox → Disk → Disk × Bool
  unfolding create_dir remove_dir put_index
  write_index mb d = elim mb.messages [
    | [] ↦ remove_dir mb.dir_name d
    | _ ↦
        let (d', made) = create_dir mb.dir_name d in
        if made then put_index mb.dir_name (host.encode mb.name mb.messages) d' else (d', false)
  ]

-- The first entry of an ID, and the entries without it.
unfoldable pub take_entry : Bytes → List Entry → Option (Entry × List Entry)
unfolding bytes_eq
take_entry id [] = none
take_entry id (e ∷ es) =
    if bytes_eq id e.id
    then some (e, es)
    else elim (take_entry id es) [ none ↦ none | some found ↦ some (found.0, e ∷ found.1) ]

module _ (host : Host) where
  -- The rest of `removeMessage`, for the message found and the others. With the last message
  -- writeIndex has removed the directory.
  unfoldable pub remove_found : Entry → List Entry → Mbox × Disk → (Mbox × Disk) × Bool
  unfolding write_index remove_raw
  remove_found e es (mb, d) =
      let mb' = record mb { messages = es } in
      let (d', written) =
        write_index host mb' (record d { deleted = d.deleted ++ entry_metadata mb.name e ∷ [] }) in
      let (d'', removed) = remove_raw host mb.dir_name e.id d' in
      if written
      then elim es [ [] ↦ ((mb', d'), true) | _ ↦ ((mb', d''), removed) ]
      else ((mb', d'), false)

  -- `removeMessage`, of a mailbox whose index is loaded.
  unfoldable pub remove_loaded : Bytes → Mbox × Disk → (Mbox × Disk) × Bool
  unfolding take_entry remove_found
  remove_loaded id mbd = elim (take_entry id mbd.0.messages) [
    | none ↦ (mbd, false)
    | some found ↦ remove_found found.0 found.1 mbd
  ]

  unfoldable pub remove_message : Bytes → Mbox × Disk → (Mbox × Disk) × Bool
  unfolding load remove_loaded
  remove_message id mbd =
      let (mbd', loaded) = load host mbd in if loaded then remove_loaded id mbd' else (mbd', false)

  unfoldable pub purge : Mbox → Disk → Disk × Bool
  unfolding write_index
  purge mb d = write_index host (record mb { messages = [] }) d
