-- ===== src/Storage/Mem/Valid.antt =====
-- The invariant of the memory store, kept by every operation, and what the operations do to the
-- contents of each mailbox.
use mathlib.Core.Path.{subst}
use go_inbucket.Base.{
  ℕ, ◌+◌, ◌≤◌, ◌<◌, ◌≡◌, inl, inr, refl, sym, Bool, true, false, some, List, [], ◌∷◌, arith,
  if◌then◌else◌, Bytes, bytes_eq, Bool-cases, Option-cases, length, txt,
}
use go_inbucket.Storage.Dict.{Dict, lookup, insert, erase, lookup-insert}
use go_inbucket.Storage.Mem.Cap.{
  IsOrdered, IsValid, IsOrdered-weaken, add_to_mailbox-newest, add_to_mailbox-le-cap,
}
use go_inbucket.Storage.Mem.{
  Mailbox, Store, mailbox_of, with_mailbox, add_to_mailbox, add_message, get_messages, get_message,
  mark_seen, remove_message, purge_messages, list_all, find, mark, take_out, clear, emit_deleted,
}
use go_inbucket.Storage.Message.{Message, Draft}

-- What a reader of a mailbox sees.
abbrev pub messages_of : Bytes → Store → Dict Message
messages_of name s = (mailbox_of name s).messages

-- `withMailbox` changes one mailbox.
pub mailbox_of-with_mailbox {ℓ} :
    {R : Type ℓ} (name other : Bytes) (f : Mailbox → Mailbox × R) (s : Store)
    → mailbox_of other (with_mailbox name f s).0
      ≡ (if bytes_eq name other then (f (mailbox_of name s)).0 else mailbox_of other s)
unfolding with_mailbox mailbox_of
mailbox_of-with_mailbox name other f s = elim (Bool-cases (bytes_eq name other)) [
  | inl same ↦
      rw (same, lookup-insert name other (f (mailbox_of name s)).0 s.boxes, mailbox_of) (rw same)
  | inr apart ↦
      rw (apart, lookup-insert name other (f (mailbox_of name s)).0 s.boxes, mailbox_of) (rw apart)
]

erase-IsOrdered :
    (lo hi : ℕ) (k : Bytes) (d : Dict Message) → IsOrdered lo hi d → IsOrdered lo hi (erase k d)
erase-IsOrdered lo hi k [] h = tt
erase-IsOrdered lo hi k ((j, m) ∷ d) (e, i, l, u, r) = elim (Bool-cases (bytes_eq j k)) [
  | inl same ↦ rw same (
      IsOrdered-weaken (m.index + 1) lo hi hi (erase k d) (omega arith) (omega arith)
        (erase-IsOrdered (m.index + 1) hi k d r))
  | inr other ↦ rw other (e, i, l, u, erase-IsOrdered (m.index + 1) hi k d r)
]

abbrev seen_message : Message → Message
seen_message m = record m { seen = true }

mark-IsOrdered :
    (lo hi : ℕ) (k : Bytes) (d : Dict Message) (m : Message)
    → lookup k d ≡ some m
    → IsOrdered lo hi d
    → IsOrdered lo hi (insert k (seen_message m) d)
mark-IsOrdered lo hi k [] m f h = cc
mark-IsOrdered lo hi k ((j, n) ∷ d) m f (e, i, l, u, r) = elim (Bool-cases (bytes_eq j k)) [
  | inl same ↦
      let found : some n ≡ some m = rw same at f in
      let is_m : n ≡ m = cc in
      rw same (subst (λ x. IsOrdered lo hi ((j, seen_message x) ∷ d)) is_m (e, i, l, u, r))
  | inr other ↦ rw other (e, i, l, u, mark-IsOrdered (n.index + 1) hi k d m (rw other at f) r)
]

abbrev Fits : ℕ → Mailbox → Type 0
Fits cap mb = 0 < cap → length mb.messages ≤ cap

-- Every mailbox is valid, and none holds more than the cap.
pub record IsStore (s : Store) : Type 0 where
  pub valid : (name : Bytes) → IsValid (mailbox_of name s)
  pub capped : (name : Bytes) → Fits s.cap (mailbox_of name s)

choose {ℓ} : {A : Type ℓ} (P : A → Type 0) (b : Bool) {x y : A} → P x → P y → P (if b then x else y)
choose P true p q = p
choose P false p q = q

cap-with_mailbox {ℓ} :
    {R : Type ℓ} (name : Bytes) (f : Mailbox → Mailbox × R) (s : Store)
    → (with_mailbox name f s).0.cap ≡ s.cap
unfolding with_mailbox
cap-with_mailbox name f s = refl

with_mailbox-IsStore {ℓ} :
    {R : Type ℓ} (name : Bytes) (f : Mailbox → Mailbox × R) (s : Store)
    → IsStore s
    → IsValid (f (mailbox_of name s)).0
    → Fits s.cap (f (mailbox_of name s)).0
    → IsStore (with_mailbox name f s).0
with_mailbox-IsStore name f s h v l = record {
  valid = λ other.
      subst IsValid (sym (mailbox_of-with_mailbox name other f s))
        (choose (IsValid) (bytes_eq name other) v (h.valid other));
  capped = λ other. rw (cap-with_mailbox name f s) (
      subst (Fits s.cap) (sym (mailbox_of-with_mailbox name other f s))
        (choose (Fits s.cap) (bytes_eq name other) l (h.capped other)));
}

length-erase-le : (k : Bytes) (d : Dict Message) → length (erase k d) ≤ length d
length-erase-le k [] = omega arith
length-erase-le k ((j, m) ∷ d) = ground (arith, length-erase-le k d)

length-insert_known :
    (k : Bytes) (m n : Message) (d : Dict Message)
    → lookup k d ≡ some m
    → length (insert k n d) ≡ length d
length-insert_known k m n [] h = cc
length-insert_known k m n ((j, o) ∷ d) h = ground (arith, length-insert_known k m n d)

add_to_mailbox-Fits :
    (cap : ℕ) (d : Draft) (source : Bytes) (mb : Mailbox)
    → IsValid mb
    → Fits cap (add_to_mailbox cap d source mb).0
add_to_mailbox-Fits cap d source mb v = add_to_mailbox-le-cap cap d source mb v

pub add_message-IsStore : (d : Draft) (s : Store) → IsStore s → IsStore (add_message d s).0
unfolding add_message
add_message-IsStore d s h = elim (Option-cases d.source) [
  | inl unread ↦ rw (unread, add_message) h
  | inr (source, read) ↦
      rw (read, add_message)
        (with_mailbox-IsStore d.mailbox (add_to_mailbox s.cap d source) s h
          ((add_to_mailbox-newest s.cap d source (mailbox_of d.mailbox s) (h.valid d.mailbox)).3)
          (add_to_mailbox-le-cap s.cap d source (mailbox_of d.mailbox s) (h.valid d.mailbox)))
]

pub get_messages-IsStore : (n : Bytes) (s : Store) → IsStore s → IsStore (get_messages n s).0
unfolding get_messages
get_messages-IsStore n s h = with_mailbox-IsStore n list_all s h (h.valid n) (h.capped n)

get_message-IsStore : (n id : Bytes) (s : Store) → IsStore s → IsStore (get_message n id s).0
unfolding get_message
get_message-IsStore n id s h = elim (Bool-cases (bytes_eq id (txt "latest"))) [
  | inl latest ↦ rw latest (with_mailbox-IsStore n list_all s h (h.valid n) (h.capped n))
  | inr named ↦ rw named (with_mailbox-IsStore n (find id) s h (h.valid n) (h.capped n))
]

mark-IsValid : (id : Bytes) (mb : Mailbox) → IsValid mb → IsValid (mark id mb).0
mark-IsValid id mb v = elim (Option-cases (lookup id mb.messages)) [
  | inl absent ↦ rw (absent, mark) v
  | inr (m, found) ↦
      rw (found, mark)
        (record {
          ordered = mark-IsOrdered mb.first mb.last id mb.messages m found v.ordered;
          within = v.within;
        })
]

mark-Fits : (cap : ℕ) (id : Bytes) (mb : Mailbox) → Fits cap mb → Fits cap (mark id mb).0
mark-Fits cap id mb l = elim (Option-cases (lookup id mb.messages)) [
  | inl absent ↦ rw (absent, mark) l
  | inr (m, found) ↦
      rw (found, mark)
        (λ pos. rw (length-insert_known id m (seen_message m) mb.messages found) (l pos))
]

pub mark_seen-IsStore : (n id : Bytes) (s : Store) → IsStore s → IsStore (mark_seen n id s)
unfolding mark_seen
mark_seen-IsStore n id s h =
    with_mailbox-IsStore n (mark id) s h (mark-IsValid id _ (h.valid n))
      (mark-Fits s.cap id _ (h.capped n))

take_out-IsValid : (id : Bytes) (mb : Mailbox) → IsValid mb → IsValid (take_out id mb).0
take_out-IsValid id mb v = elim (Option-cases (lookup id mb.messages)) [
  | inl absent ↦ rw (absent, take_out) v
  | inr (m, found) ↦
      rw (found, take_out)
        (record {
          ordered = erase-IsOrdered mb.first mb.last id mb.messages v.ordered;
          within = v.within;
        })
]

take_out-Fits : (cap : ℕ) (id : Bytes) (mb : Mailbox) → Fits cap mb → Fits cap (take_out id mb).0
take_out-Fits cap id mb l = elim (Option-cases (lookup id mb.messages)) [
  | inl absent ↦ rw (absent, take_out) l
  | inr (m, found) ↦
      rw (found, take_out) (λ pos. omega (arith, length-erase-le id mb.messages, l pos))
]

-- An event changes no mailbox.
emit_deleted-IsStore : (ms : List Message) (s : Store) → IsStore s → IsStore (emit_deleted ms s)
unfolding mailbox_of
emit_deleted-IsStore ms s h = record { valid = h.valid; capped = h.capped }

pub remove_message-IsStore :
    (n id : Bytes) (s : Store) → IsStore s → IsStore (remove_message n id s).0
unfolding remove_message
remove_message-IsStore n id s h =
    let h' =
      with_mailbox-IsStore n (take_out id) s h (take_out-IsValid id _ (h.valid n))
        (take_out-Fits s.cap id _ (h.capped n)) in
    elim (Option-cases (with_mailbox n (take_out id) s).1) [
      | inl absent ↦ rw (absent, remove_message) h'
      | inr (m, found) ↦ rw (found, remove_message) (emit_deleted-IsStore (m ∷ []) _ h')
    ]

purge_messages-IsStore : (n : Bytes) (s : Store) → IsStore s → IsStore (purge_messages n s).0
unfolding purge_messages
purge_messages-IsStore n s h = emit_deleted-IsStore _ _ (
    with_mailbox-IsStore n clear s h (record { ordered = tt; within = (h.valid n).within })
      (λ pos. omega arith))

-- The calls that change the store; a call that reads creates the mailbox that it asks for.
pub data Call : Type 0 where
  add : Draft → Call
  list : Bytes → Call
  get : Bytes → Bytes → Call
  seen : Bytes → Bytes → Call
  remove : Bytes → Bytes → Call
  purge : Bytes → Call

unfoldable pub apply : Call → Store → Store
unfolding add_message get_messages get_message mark_seen remove_message purge_messages
apply (add d) s = (add_message d s).0
apply (list n) s = (get_messages n s).0
apply (get n id) s = (get_message n id s).0
apply (seen n id) s = mark_seen n id s
apply (remove n id) s = (remove_message n id s).0
apply (purge n) s = (purge_messages n s).0

unfoldable pub run : List Call → Store → Store
unfolding apply
run [] s = s
run (c ∷ cs) s = run cs (apply c s)

apply-IsStore : (c : Call) (s : Store) → IsStore s → IsStore (apply c s)
unfolding apply
apply-IsStore (add d) s h = add_message-IsStore d s h
apply-IsStore (list n) s h = get_messages-IsStore n s h
apply-IsStore (get n id) s h = get_message-IsStore n id s h
apply-IsStore (seen n id) s h = mark_seen-IsStore n id s h
apply-IsStore (remove n id) s h = remove_message-IsStore n id s h
apply-IsStore (purge n) s h = purge_messages-IsStore n s h

abbrev pub empty_store : ℕ → Store
empty_store cap = record { boxes = []; cap = cap; deleted = [] }

empty_store-IsStore : (cap : ℕ) → IsStore (empty_store cap)
unfolding mailbox_of
empty_store-IsStore cap = record {
  valid = λ name. record { ordered = tt; within = omega arith };
  capped = λ name pos. omega arith;
}

run_from-IsStore : (cs : List Call) (s : Store) → IsStore s → IsStore (run cs s)
unfolding run
run_from-IsStore [] s h = h
run_from-IsStore (c ∷ cs) s h = run_from-IsStore cs (apply c s) (apply-IsStore c s h)

-- After any sequence of calls on an empty store every mailbox keeps its messages under their own
-- numbers, in the order of these, between `first` and `last`, and, where there is a cap, holds at
-- most so many.
pub run-IsStore : (cs : List Call) (cap : ℕ) → IsStore (run cs (empty_store cap))
run-IsStore cs cap = run_from-IsStore cs (empty_store cap) (empty_store-IsStore cap)
