-- ===== src/Storage/Mem/Enforcer/Quota.antt =====
-- The size that the enforcer keeps, and the bound that it enforces.
use go_inbucket.Base.{
  ℕ, suc, ◌+◌, ◌-◌, ◌≤◌, ◌≡◌, refl, sym, ap, ◌∙◌, true, false, ◌&&◌, Option, none, some, List, [],
  ◌∷◌, arith, ltb, if◌then◌else◌, Bytes, bytes_eq, bytes_eq_iff, bytes_eq_refl, Bool-cases,
  Option-cases, inl, inr, drop,
}
use go_inbucket.Storage.Dict.{Dict, lookup, erase, lookup-erase}
use go_inbucket.Storage.Mem.Contents.{messages_if, remove_message_lem}
use go_inbucket.Storage.Mem.Valid.{messages_of}
use go_inbucket.Storage.Mem.Enforcer.{Entry, Enforcer, shrink, is_entry}
use go_inbucket.Storage.Mem.{Store, remove_message}
use go_inbucket.Storage.Message.{Message, size}

abbrev pub size_of : Option Message → Option ℕ
size_of none = none
size_of (some m) = some (size m)

abbrev pub size_in : Bytes → Dict Message → Option ℕ
size_in id d = size_of (lookup id d)

-- The size of a stored message.
abbrev pub stored : Bytes → Bytes → Store → Option ℕ
stored mailbox id s = size_in id (messages_of mailbox s)

abbrev pub entered : Bytes → Bytes → List Entry → Option ℕ
entered mailbox id [] = none
entered mailbox id (e ∷ all) = if is_entry mailbox id e then some e.size else entered mailbox id all

abbrev pub total : List Entry → ℕ
total [] = 0
total (e ∷ all) = e.size + total all

-- No message has two entries.
abbrev pub IsDistinct : List Entry → Type 0
IsDistinct [] = Unit {0}
IsDistinct (e ∷ all) = (entered e.mailbox e.id all ≡ none) × IsDistinct all

-- The entries are exactly the stored messages, with their sizes, and `cur` is their sum.
pub record Agrees (all : List Entry) (cur : ℕ) (s : Store) : Type 0 where
  pub same : (mailbox id : Bytes) → stored mailbox id s ≡ entered mailbox id all
  pub distinct : IsDistinct all
  pub summed : cur ≡ total all

size_in-erase :
    (k i : Bytes) (d : Dict Message)
    → size_in i (erase k d) ≡ (if bytes_eq k i then none else size_in i d)
size_in-erase k i d = elim (Bool-cases (bytes_eq k i)) [
  | inl gone ↦ rw gone (ap size_of (rw gone at (lookup-erase k i d)))
  | inr kept ↦ rw kept (ap size_of (rw kept at (lookup-erase k i d)))
]

size_in_if :
    (name id mailbox i : Bytes) (s : Store)
    → size_in i (messages_if name mailbox (erase id (messages_of name s)) s)
      ≡ (if bytes_eq name mailbox && bytes_eq id i then none else stored mailbox i s)
size_in_if name id mailbox i s = elim (Bool-cases (bytes_eq name mailbox)) [
  | inl same ↦ rw same (
      size_in-erase id i (messages_of name s)
      ∙ ap (λ n. if bytes_eq id i then none else stored n i s) ((bytes_eq_iff name mailbox).0 same))
  | inr apart ↦ rw apart
]

pub stored-remove_message :
    (name id mailbox i : Bytes) (s : Store)
    → stored mailbox i (remove_message name id s).0
      ≡ (if bytes_eq name mailbox && bytes_eq id i then none else stored mailbox i s)
stored-remove_message name id mailbox i s =
    ap (size_in i) (remove_message_lem name id mailbox s).1 ∙ size_in_if name id mailbox i s

entered_miss :
    (e : Entry) (all : List Entry) (mailbox id : Bytes)
    → entered e.mailbox e.id all ≡ none
    → is_entry mailbox id e ≡ true
    → entered mailbox id all ≡ none
entered_miss e all mailbox id h k =
    ground (arith, bytes_eq_iff e.mailbox mailbox, bytes_eq_iff e.id id)

-- To take the first entry's message out of the store keeps the agreement with the other entries.
Agrees-tail :
    (e : Entry) (all : List Entry) (cur : ℕ) (s : Store)
    → Agrees (e ∷ all) cur s
    → ((m : Message) × ((remove_message e.mailbox e.id s).1 ≡ some m))
      × Agrees all (cur - e.size) (remove_message e.mailbox e.id s).0
Agrees-tail e all cur s h = (
  removed,
  record {
    same = λ mailbox id.
        stored-remove_message e.mailbox e.id mailbox id s ∙ left mailbox id (h.same mailbox id);
    distinct = h.distinct.1;
    summed = omega (arith, h.summed);
  },
)
  where
    removed : (m : Message) × ((remove_message e.mailbox e.id s).1 ≡ some m)
    removed =
        let is_stored : stored e.mailbox e.id s ≡ some e.size =
          rw (bytes_eq_refl e.mailbox, bytes_eq_refl e.id) at (h.same e.mailbox e.id) in
        elim (Option-cases (lookup e.id (messages_of e.mailbox s))) [
          | inl absent ↦
              let clash : none ≡ some e.size = sym (ap size_of absent) ∙ is_stored in absurd (cc)
          | inr (m, found) ↦ (m, (remove_message_lem e.mailbox e.id e.mailbox s).0 ∙ found)
        ]

    left :
        (mailbox id : Bytes)
        → stored mailbox id s ≡ entered mailbox id (e ∷ all)
        → (if is_entry mailbox id e then none else stored mailbox id s) ≡ entered mailbox id all
    left mailbox id f = elim (Bool-cases (is_entry mailbox id e)) [
      | inl hit ↦ rw hit (sym (entered_miss e all mailbox id h.distinct.0 hit))
      | inr miss ↦ rw miss (rw miss at f)
    ]

-- What the loop leaves: the newest entries, in agreement with the store, within the bound.
pub record IsShrunk (max : ℕ) (all : List Entry) (enf : Enforcer) (s : Store) : Type 0 where
  pub agrees : Agrees enf.all enf.cur_size s
  pub within : enf.cur_size ≤ max
  pub max_size : enf.max_size ≡ max
  pub dropped : ℕ
  pub newest : enf.all ≡ drop dropped all

pub shrink-IsShrunk :
    (max : ℕ) (all : List Entry) (cur : ℕ) (s : Store)
    → Agrees all cur s
    → (enf : Enforcer) × (s' : Store) × (shrink max all cur s ≡ some (enf, s'))
      × IsShrunk max all enf s'
unfolding shrink
shrink-IsShrunk max [] cur s h =
    let empty : ltb max cur ≡ false = ground (arith, h.summed) in
    (
      record { max_size = max; all = []; cur_size = cur },
      s,
      rw empty,
      record { agrees = h; within = omega arith; max_size = refl; dropped = 0; newest = refl },
    )
shrink-IsShrunk max (e ∷ all) cur s h = elim (Bool-cases (ltb max cur)) [
  | inr fits ↦ (
    record { max_size = max; all = e ∷ all; cur_size = cur },
    s,
    rw fits,
    record { agrees = h; within = ground arith; max_size = refl; dropped = 0; newest = refl },
  )
  | inl over ↦
      let ((m, gone), h') = Agrees-tail e all cur s h in
      let (enf, s', ran, out) =
        shrink-IsShrunk max all (cur - e.size) (remove_message e.mailbox e.id s).0 h' in
      (
        enf,
        s',
        rw (over, gone) ran,
        record {
          agrees = out.agrees;
          within = out.within;
          max_size = out.max_size;
          dropped = suc out.dropped;
          newest = out.newest;
        },
      )
]
