-- ===== src/Storage/Retention/Home.antt =====
-- Each message of the memory store names the mailbox that it is in.
use mathlib.Core.Path.{subst}
use go_inbucket.GoText.Decimal.{itoa}
use go_inbucket.Base.{
  bytes_eq_iff, ◌+◌, ℕ, zero, suc, ◌≡◌, refl, sym, ap, ◌∙◌, true, some, List, [], ◌∷◌, ltb, Bytes,
  bytes_eq, Bool-cases, Option-cases, inl, inr, length, txt,
}
use go_inbucket.Storage.Dict.{Dict, lookup, insert, erase}
use go_inbucket.Storage.Mem.{
  Mailbox, Store, mailbox_of, with_mailbox, add_to_mailbox, enforce_cap, message_of, add_message,
  get_messages, get_message, mark_seen, remove_message, purge_messages, list_all, find, mark,
  take_out, clear,
}
use go_inbucket.Storage.Mem.Valid.{
  Call, apply, run, empty_store, messages_of, mailbox_of-with_mailbox,
}
use go_inbucket.Storage.Message.{Message, Draft}

abbrev pub IsHome : Bytes → Dict Message → Type 0
IsHome name [] = Unit {0}
IsHome name ((k, m) ∷ d) = (m.mailbox ≡ name) × IsHome name d

erase-IsHome : (name k : Bytes) (d : Dict Message) → IsHome name d → IsHome name (erase k d)
erase-IsHome name k [] h = tt
erase-IsHome name k ((j, m) ∷ d) (e, r) = elim (Bool-cases (bytes_eq j k)) [
  | inl same ↦ rw same (erase-IsHome name k d r)
  | inr other ↦ rw other (e, erase-IsHome name k d r)
]

insert-IsHome :
    (name k : Bytes) (m : Message) (d : Dict Message)
    → m.mailbox ≡ name
    → IsHome name d
    → IsHome name (insert k m d)
insert-IsHome name k m [] e h = (e, tt)
insert-IsHome name k m ((j, n) ∷ d) e (f, r) = elim (Bool-cases (bytes_eq j k)) [
  | inl same ↦ rw same (e, r)
  | inr other ↦ rw other (f, insert-IsHome name k m d e r)
]

lookup-IsHome :
    (name k : Bytes) (m : Message) (d : Dict Message)
    → lookup k d ≡ some m
    → IsHome name d
    → m.mailbox ≡ name
lookup-IsHome name k m [] e h = cc
lookup-IsHome name k m ((j, n) ∷ d) e (f, r) = elim (Bool-cases (bytes_eq j k)) [
  | inl same ↦
      let found : some n ≡ some m = rw same at e in
      let is_m : n ≡ m = cc in sym (ap (λ x. x.mailbox) is_m) ∙ f
  | inr other ↦ lookup-IsHome name k m d (rw other at e) r
]

enforce_cap-IsHome :
    (fuel cap : ℕ) (name : Bytes) (mb : Mailbox)
    → IsHome name mb.messages
    → IsHome name (enforce_cap fuel cap mb).messages
unfolding enforce_cap
enforce_cap-IsHome zero cap name mb h = h
enforce_cap-IsHome (suc fuel) cap name mb h = elim (Bool-cases (ltb cap (length mb.messages))) [
  | inl over ↦
      rw (over, enforce_cap)
        (enforce_cap-IsHome fuel cap name
          (record mb { messages = erase (itoa mb.first) mb.messages; first = mb.first + 1 })
          (erase-IsHome name (itoa mb.first) mb.messages h))
  | inr within ↦ rw (within, enforce_cap) h
]

add_to_mailbox-IsHome :
    (cap : ℕ) (d : Draft) (source : Bytes) (mb : Mailbox)
    → IsHome d.mailbox mb.messages
    → IsHome d.mailbox (add_to_mailbox cap d source mb).0.messages
unfolding add_to_mailbox
add_to_mailbox-IsHome cap d source mb h =
    let m = message_of d source (mb.last + 1) in
    let mb' = record mb {
      last = mb.last + 1;
      messages = insert (itoa (mb.last + 1)) m mb.messages;
    } in
    let h' : IsHome d.mailbox mb'.messages =
      insert-IsHome d.mailbox (itoa (mb.last + 1)) m mb.messages refl h in
    elim (Bool-cases (ltb 0 cap)) [
      | inl capped ↦
          rw (capped, add_to_mailbox) (enforce_cap-IsHome (mb.last + 3) cap d.mailbox mb' h')
      | inr open_ended ↦ rw (open_ended, add_to_mailbox) h'
    ]

mark-IsHome :
    (name id : Bytes) (mb : Mailbox) → IsHome name mb.messages → IsHome name (mark id mb).0.messages
mark-IsHome name id mb h = elim (Option-cases (lookup id mb.messages)) [
  | inl absent ↦ rw (absent, mark) h
  | inr (m, found) ↦
      rw (found, mark)
        (insert-IsHome name id (record m { seen = true }) mb.messages
          (lookup-IsHome name id m mb.messages found h) h)
]

take_out-IsHome :
    (name id : Bytes) (mb : Mailbox)
    → IsHome name mb.messages
    → IsHome name (take_out id mb).0.messages
take_out-IsHome name id mb h = elim (Option-cases (lookup id mb.messages)) [
  | inl absent ↦ rw (absent, take_out) h
  | inr (m, found) ↦ rw (found, take_out) (erase-IsHome name id mb.messages h)
]

-- In every mailbox.
abbrev pub AllHome : Store → Type 0
AllHome s = (name : Bytes) → IsHome name (messages_of name s)

with_mailbox-AllHome {ℓ} :
    {R : Type ℓ} (name : Bytes) (f : Mailbox → Mailbox × R) (s : Store)
    → AllHome s
    → IsHome name (f (mailbox_of name s)).0.messages
    → AllHome (with_mailbox name f s).0
with_mailbox-AllHome name f s h v other =
    subst (λ mb. IsHome other mb.messages) (sym (mailbox_of-with_mailbox name other f s))
      (elim (Bool-cases (bytes_eq name other)) [
        | inl same ↦ rw same (
            subst (λ n. IsHome n (f (mailbox_of name s)).0.messages)
              ((bytes_eq_iff name other).0 same) v)
        | inr apart ↦ rw apart (h other)
      ])

add_message-AllHome : (d : Draft) (s : Store) → AllHome s → AllHome (add_message d s).0
unfolding add_message
add_message-AllHome d s h = elim (Option-cases d.source) [
  | inl unread ↦ rw (unread, add_message) h
  | inr (source, read) ↦
      rw (read, add_message)
        (with_mailbox-AllHome d.mailbox (add_to_mailbox s.cap d source) s h
          (add_to_mailbox-IsHome s.cap d source (mailbox_of d.mailbox s) (h d.mailbox)))
]

pub get_messages-AllHome : (n : Bytes) (s : Store) → AllHome s → AllHome (get_messages n s).0
unfolding get_messages
get_messages-AllHome n s h = with_mailbox-AllHome n list_all s h (h n)

pub remove_message-AllHome :
    (n id : Bytes) (s : Store) → AllHome s → AllHome (remove_message n id s).0
unfolding remove_message
remove_message-AllHome n id s h =
    let h' =
      with_mailbox-AllHome n (take_out id) s h (take_out-IsHome n id (mailbox_of n s) (h n)) in
    elim (Option-cases (with_mailbox n (take_out id) s).1) [
      | inl absent ↦ rw (absent, remove_message) h'
      | inr (m, found) ↦ rw (found, remove_message) (unfold mailbox_of in h')
    ]

get_message-AllHome : (n id : Bytes) (s : Store) → AllHome s → AllHome (get_message n id s).0
unfolding get_message
get_message-AllHome n id s h = elim (Bool-cases (bytes_eq id (txt "latest"))) [
  | inl newest ↦ rw (newest, get_message) (get_messages-AllHome n s h)
  | inr by_id ↦ rw (by_id, get_message) (with_mailbox-AllHome n (find id) s h (h n))
]

apply-AllHome : (c : Call) (s : Store) → AllHome s → AllHome (apply c s)
unfolding apply
apply-AllHome (Call.add d) s h = add_message-AllHome d s h
apply-AllHome (Call.list n) s h = get_messages-AllHome n s h
apply-AllHome (Call.get n id) s h = get_message-AllHome n id s h
apply-AllHome (Call.seen n id) s h =
    unfold mark_seen in
    with_mailbox-AllHome n (mark id) s h (mark-IsHome n id (mailbox_of n s) (h n))
apply-AllHome (Call.remove n id) s h = remove_message-AllHome n id s h
apply-AllHome (Call.purge n) s h =
    unfold purge_messages mailbox_of in with_mailbox-AllHome n clear s h tt

run_from-AllHome : (cs : List Call) (s : Store) → AllHome s → AllHome (run cs s)
unfolding run
run_from-AllHome [] s h = h
run_from-AllHome (c ∷ cs) s h = run_from-AllHome cs (apply c s) (apply-AllHome c s h)

pub run-AllHome : (cs : List Call) (cap : ℕ) → AllHome (run cs (empty_store cap))
run-AllHome cs cap = run_from-AllHome cs (empty_store cap) (unfold mailbox_of in (λ name. tt))
