-- ===== src/Storage/Mem/Enforcer.antt =====
-- pkg/storage/mem/maxsize.go, and the operations of store.go that send to it. The store waits for each
-- answer, and a call and its answer are one step here: what other calls do between the change of the
-- mailbox and the answer of the enforcer is not represented. An element of the list `all` is the entry of a
-- message: what the enforcer reads of it never changes.
pub mod Quota
pub mod Add
use go_inbucket.Base.{
  ◌≡◌, refl, inl, inr, Option-cases, ℕ, suc, ◌+◌, ◌-◌, ◌≡◌, Bool, true, false, ◌&&◌, Option, none,
  some, List, [], ◌∷◌, ◌++◌, ltb, if◌then◌else◌, Bytes, bytes_eq, length,
}
use go_inbucket.Storage.Mem.{Store, add_message, remove_message, purge_messages}
use go_inbucket.Storage.Message.{Message, Draft, size}

pub record Entry : Type 0 where
  pub mailbox : Bytes
  pub id : Bytes
  pub size : ℕ

pub record Enforcer : Type 0 where
  pub max_size : ℕ
  pub all : List Entry
  pub cur_size : ℕ

abbrev pub entry_of : Message → Entry
entry_of m = record { mailbox = m.mailbox; id = m.id; size = length m.source }

-- The inner loop of `maxSizeEnforcer`. `none` is the panic of `all.Remove(nil)`, when the list is
-- empty and the size is still too large.
unfoldable pub shrink : ℕ → List Entry → ℕ → Store → Option (Enforcer × Store)
unfolding remove_message
shrink max [] cur s =
    if ltb max cur then none else some (record { max_size = max; all = []; cur_size = cur }, s)
shrink max (e ∷ all) cur s =
    let smaller =
      shrink max all
        (elim (remove_message e.mailbox e.id s).1 [ none ↦ cur | some _ ↦ cur - e.size ])
        (remove_message e.mailbox e.id s).0 in
    if ltb max cur
    then smaller
    else some (record { max_size = max; all = e ∷ all; cur_size = cur }, s)

-- The case `<-s.incoming`.
unfoldable pub deliver : Message → Enforcer → Store → Option (Enforcer × Store)
unfolding shrink
deliver m enf = shrink enf.max_size (enf.all ++ entry_of m ∷ []) (enf.cur_size + size m)

abbrev pub is_entry : Bytes → Bytes → Entry → Bool
is_entry mailbox id e = bytes_eq e.mailbox mailbox && bytes_eq e.id id

-- `all.Remove(m.el)`.
unfoldable pub drop_entry : Bytes → Bytes → List Entry → List Entry
drop_entry mailbox id [] = []
drop_entry mailbox id (e ∷ all) =
    let later = drop_entry mailbox id all in if is_entry mailbox id e then all else e ∷ later

-- The case `<-s.remove`.
unfoldable pub forget : Message → Enforcer → Enforcer
unfolding drop_entry
forget m enf = record enf {
  all = drop_entry m.mailbox m.id enf.all;
  cur_size = enf.cur_size - size m;
}

unfoldable pub forget_all : List Message → Enforcer → Enforcer
unfolding forget
forget_all [] enf = enf
forget_all (m ∷ ms) enf = forget_all ms (forget m enf)

-- A store with its enforcer, which runs if `maxkb` is set.
pub record Limited : Type 0 where
  pub store : Store
  pub enforcer : Option Enforcer

-- `AddMessage` whole: the new state with the ID of the message, or a panic.
unfoldable pub add : Draft → Limited → Option (Limited × Option Bytes)
unfolding add_message deliver
add d l =
    let (s, added) = add_message d l.store in
    elim added [
      | none ↦ some (record l { store = s }, none)
      | some m ↦ elim l.enforcer [
        | none ↦ some (record l { store = s }, some m.id)
        | some enf ↦ elim (deliver m enf s) [
          | none ↦ none
          | some (enf', s') ↦ some (record { store = s'; enforcer = some enf' }, some m.id)
        ]
      ]
    ]

abbrev unlimited : Store → Option Bytes → Option (Limited × Option Bytes)
unlimited s id = some (record { store = s; enforcer = none }, id)

abbrev id_if : Option Message → Option Bytes
id_if none = none
id_if (some m) = some m.id

-- Without a limit on the bytes, `AddMessage` is `add_message`.
pub add-unlimited :
    (d : Draft) (s : Store)
    → add d (record { store = s; enforcer = none })
      ≡ unlimited (add_message d s).0 (id_if (add_message d s).1)
unfolding add
add-unlimited d s = elim (Option-cases (add_message d s).1) [
  | inl unread ↦ rw (unread, add) refl
  | inr (m, read) ↦ rw (read, add) refl
]

-- `RemoveMessage` and `PurgeMessages` whole.
unfoldable pub remove : Bytes → Bytes → Limited → Limited
unfolding remove_message forget
remove mailbox id l =
    let (s, removed) = remove_message mailbox id l.store in
    record {
      store = s;
      enforcer = elim removed [
        | none ↦ l.enforcer
        | some m ↦ elim l.enforcer [ none ↦ none | some enf ↦ some (forget m enf) ]
      ];
    }

unfoldable pub purge : Bytes → Limited → Limited
unfolding purge_messages forget_all
purge mailbox l =
    let (s, removed) = purge_messages mailbox l.store in
    record {
      store = s;
      enforcer = elim l.enforcer [ none ↦ none | some enf ↦ some (forget_all removed enf) ];
    }
