-- ===== src/Storage/Mem/Contents.antt =====
-- What each operation of the memory store does to the contents of every mailbox.
use mathlib.Core.Path.{subst}
use go_inbucket.Base.{
  ℕ, zero, suc, ◌-◌, length-append, ◌+◌, ◌≤◌, ◌≡◌, ◌⊎◌, ◌&&◌, inl, inr, refl, sym, ap, ◌∙◌, Bool,
  true, false, Option, none, some, List, [], ◌∷◌, ◌++◌, map, arith, ltb, if◌then◌else◌, Bytes,
  bytes_eq, bytes_eq_iff, bytes_eq_refl, Bool-cases, Option-cases, txt, append-nil, drop, length,
}
use go_inbucket.GoText.Decimal.{itoa, itoa-injective, itoa-ne-latest}
use go_inbucket.Storage.Dict.{Dict, lookup, erase, values, erase_absent, lookup-erase}
use go_inbucket.Storage.Mem.Cap.{IsOrdered, newest, add_to_mailbox-newest}
use go_inbucket.Storage.Mem.Order.{sort_by_index-ordered}
use go_inbucket.Storage.Mem.Valid.{
  IsStore, add_message-IsStore, messages_of, mailbox_of-with_mailbox,
}
use go_inbucket.Storage.Mem.{
  Mailbox, Store, mailbox_of, with_mailbox, add_to_mailbox, message_of, add_message, get_messages,
  get_message, remove_message, purge_messages, last_of, list_all, find, take_out, clear,
}
use go_inbucket.Storage.Message.{Message, Draft, make_metadata}

abbrev pub messages_if : Bytes → Bytes → Dict Message → Store → Dict Message
messages_if name other d s = if bytes_eq name other then d else messages_of other s

pub messages_of-with_mailbox {ℓ} :
    {R : Type ℓ} (name other : Bytes) (f : Mailbox → Mailbox × R) (s : Store)
    → messages_of other (with_mailbox name f s).0
      ≡ messages_if name other (f (mailbox_of name s)).0.messages s
messages_of-with_mailbox name other f s =
    ap (λ mb. mb.messages) (mailbox_of-with_mailbox name other f s) ∙ both (bytes_eq name other)
  where
    both :
        (b : Bool)
        → (if b then (f (mailbox_of name s)).0 else mailbox_of other s).messages
          ≡ (if b then (f (mailbox_of name s)).0.messages else messages_of other s)
    both true = refl
    both false = refl

messages_if_self :
    (name other : Bytes) (s : Store)
    → messages_if name other (messages_of name s) s ≡ messages_of other s
messages_if_self name other s = elim (Bool-cases (bytes_eq name other)) [
  | inl same ↦ rw same (ap (λ n. messages_of n s) ((bytes_eq_iff name other).0 same))
  | inr apart ↦ rw apart
]

abbrev pub next_message : Draft → Bytes → Store → Message
next_message d source s = message_of d source ((mailbox_of d.mailbox s).last + 1)

-- In a store without a limit on its bytes that meets the invariant, a message that can be read is appended
-- to its mailbox and returned, the oldest messages beyond the cap go, and no other mailbox changes.
pub add_message_lem :
    (d : Draft) (source : Bytes) (s : Store) (other : Bytes)
    → IsStore s
    → d.source ≡ some source
    → ((add_message d s).1 ≡ some (next_message d source s))
      × (messages_of other (add_message d s).0
          ≡ messages_if d.mailbox other
              (newest s.cap (
                messages_of d.mailbox s
                ++ ((next_message d source s).id, next_message d source s) ∷ []))
              s)
unfolding add_message with_mailbox
add_message_lem d source s other h read =
    let new = add_to_mailbox-newest s.cap d source (mailbox_of d.mailbox s) (h.valid d.mailbox) in
    rw (read, add_message)
      (
        ap some new.1,
        messages_of-with_mailbox d.mailbox other (add_to_mailbox s.cap d source) s
            ∙ ap (λ x. messages_if d.mailbox other x s) new.0,
      )

pub messages_of-get_messages :
    (name other : Bytes) (s : Store)
    → messages_of other (get_messages name s).0 ≡ messages_of other s
unfolding get_messages
messages_of-get_messages name other s =
    messages_of-with_mailbox name other list_all s ∙ messages_if_self name other s

-- In a store that meets the invariant, `GetMessages` returns what the mailbox holds, in the order in
-- which it was stored, and changes no mailbox.
pub get_messages_lem :
    (name other : Bytes) (s : Store)
    → IsStore s
    → ((get_messages name s).1 ≡ values (messages_of name s))
      × (messages_of other (get_messages name s).0 ≡ messages_of other s)
unfolding get_messages
get_messages_lem name other s h = (
  unfold with_mailbox in sort_by_index-ordered _ _ _ (h.valid name).ordered,
  messages_of-get_messages name other s,
)

-- The messages that a call removes, as a list.
abbrev pub to_list {ℓ} : {A : Type ℓ} → Option A → List A
to_list none = []
to_list (some a) = a ∷ []

take_out-erase : (id : Bytes) (mb : Mailbox) → (take_out id mb).0.messages ≡ erase id mb.messages
take_out-erase id mb = elim (Option-cases (lookup id mb.messages)) [
  | inl absent ↦ rw (absent, take_out) (sym (erase_absent id mb.messages absent))
  | inr (m, found) ↦ rw (found, take_out)
]

-- `RemoveMessage` takes the message of that ID out of that mailbox, changes no other message, returns
-- the message if there was one, and sends one event for it, or none if there was none.
pub remove_message_lem :
    (name id other : Bytes) (s : Store)
    → ((remove_message name id s).1 ≡ lookup id (messages_of name s))
      × (messages_of other (remove_message name id s).0
          ≡ messages_if name other (erase id (messages_of name s)) s)
      × ((remove_message name id s).0.deleted
          ≡ s.deleted ++ map make_metadata (to_list (lookup id (messages_of name s))))
unfolding remove_message
remove_message_lem name id other s =
    let left =
      messages_of-with_mailbox name other (take_out id) s
      ∙ ap (λ x. messages_if name other x s) (take_out-erase id (mailbox_of name s)) in
    elim (Option-cases (lookup id (messages_of name s))) [
      | inl absent ↦ (
        refl,
        rw (absent, remove_message) left,
        rw (absent, remove_message) (sym (append-nil s.deleted)),
      )
      | inr (m, found) ↦ (refl, rw (found, remove_message) left, rw (found, remove_message))
    ]

pub remove_message-lookup :
    (mailbox other i id : Bytes) (s : Store)
    → lookup id (messages_of other (remove_message mailbox i s).0)
      ≡ (if bytes_eq mailbox other && bytes_eq i id then none else lookup id (messages_of other s))
remove_message-lookup mailbox other i id s =
    ap (lookup id) (remove_message_lem mailbox i other s).1
    ∙ here (Bool-cases (bytes_eq mailbox other))
  where
    here :
        (bytes_eq mailbox other ≡ true) ⊎ (bytes_eq mailbox other ≡ false)
        → lookup id (messages_if mailbox other (erase i (messages_of mailbox s)) s) ≡ (
            if bytes_eq mailbox other && bytes_eq i id
            then none
            else lookup id (messages_of other s))
    here (inl same) = rw same (
        lookup-erase i id (messages_of mailbox s)
        ∙ ap (λ n. if bytes_eq i id then none else lookup id (messages_of n s))
            ((bytes_eq_iff mailbox other).0 same))
    here (inr apart) = rw apart

-- `PurgeMessages` empties that mailbox and no other, and sends one event for each of its messages.
purge_messages_lem :
    (name other : Bytes) (s : Store)
    → (messages_of other (purge_messages name s).0 ≡ messages_if name other [] s)
      × ((purge_messages name s).0.deleted
          ≡ s.deleted ++ map make_metadata (values (messages_of name s)))
unfolding purge_messages
purge_messages_lem name other s = (messages_of-with_mailbox name other clear s, refl)

drop_snoc {ℓ} :
    {A : Type ℓ} (n : ℕ) (xs : List A) (x : A)
    → n ≤ length xs
    → drop n (xs ++ x ∷ []) ≡ drop n xs ++ x ∷ []
drop_snoc zero xs x h = refl
drop_snoc (suc n) [] x h = absurd (omega arith)
drop_snoc (suc n) (y ∷ xs) x h = drop_snoc n xs x (omega arith)

-- The cap never drops the message that was just added.
pub newest_snoc :
    (cap : ℕ) (d : Dict Message) (e : Bytes × Message)
    → (r : Dict Message) × (newest cap (d ++ e ∷ []) ≡ r ++ e ∷ [])
newest_snoc cap d e = elim (Bool-cases (ltb 0 cap)) [
  | inr uncapped ↦ (d, rw uncapped)
  | inl capped ↦
      let n = length (d ++ e ∷ []) - cap in
      (drop n d, rw capped (drop_snoc n d e (ground (arith, length-append d (e ∷ [])))))
]

bound_last :
    (lo hi : ℕ) (d : Dict Message) (k : Bytes) (m : Message)
    → IsOrdered lo hi (d ++ (k, m) ∷ [])
    → lo ≤ m.index
bound_last lo hi [] k m (e, i, l, u, r) = l
bound_last lo hi ((j, n) ∷ d) k m (e, i, l, u, r) =
    omega (arith, bound_last (n.index + 1) hi d k m r)

lookup_last :
    (lo hi : ℕ) (d : Dict Message) (m : Message)
    → IsOrdered lo hi (d ++ (itoa m.index, m) ∷ [])
    → lookup (itoa m.index) (d ++ (itoa m.index, m) ∷ []) ≡ some m
lookup_last lo hi [] m h = rw (bytes_eq_refl (itoa m.index))
lookup_last lo hi ((k, n) ∷ d) m (e, i, l, u, r) = ground (
  arith,
  bytes_eq_iff k (itoa m.index),
  itoa-injective n.index m.index,
  bound_last (n.index + 1) hi d (itoa m.index) m r,
  lookup_last (n.index + 1) hi d m r,
)

pub values-append : (d e : Dict Message) → values (d ++ e) ≡ values d ++ values e
values-append [] e = refl
values-append ((k, m) ∷ d) e = ap (◌∷◌ m) (values-append d e)

last_of-snoc {ℓ} : {A : Type ℓ} (xs : List A) (x : A) → last_of (xs ++ x ∷ []) ≡ some x
last_of-snoc [] x = refl
last_of-snoc (y ∷ []) x = refl
last_of-snoc (y ∷ z ∷ xs) x = last_of-snoc (z ∷ xs) x

-- In a store that meets the invariant, `GetMessage` looks the ID up, or returns the newest message for
-- `latest`, and changes no mailbox.
pub get_message_lem :
    (name id other : Bytes) (s : Store)
    → IsStore s
    → ((get_message name id s).1 ≡ (
        if bytes_eq id (txt "latest")
        then last_of (values (messages_of name s))
        else lookup id (messages_of name s)))
      × (messages_of other (get_message name id s).0 ≡ messages_of other s)
unfolding get_message
get_message_lem name id other s h = elim (Bool-cases (bytes_eq id (txt "latest"))) [
  | inl latest ↦
      rw latest
        (ap last_of (get_messages_lem name other s h).0, (get_messages_lem name other s h).1)
  | inr named ↦ rw named (
    unfold with_mailbox in refl,
    messages_of-with_mailbox name other (find id) s ∙ messages_if_self name other s,
  )
]

add_message_last :
    (d : Draft) (source : Bytes) (s : Store)
    → IsStore s
    → d.source ≡ some source
    → let m = next_message d source s in
      (r : Dict Message) × (messages_of d.mailbox (add_message d s).0 ≡ r ++ (itoa m.index, m) ∷ [])
add_message_last d source s h read =
    let m = next_message d source s in
    let (r, e) = newest_snoc s.cap (messages_of d.mailbox s) (itoa m.index, m) in
    (r, (add_message_lem d source s d.mailbox h read).1 ∙ rw (bytes_eq_refl d.mailbox) e)

-- In a store without a limit on its bytes that meets the invariant, a readable message just delivered is
-- read back under its own ID, and as `latest`.
pub get_message-add_message :
    (d : Draft) (source : Bytes) (s : Store)
    → IsStore s
    → d.source ≡ some source
    → let s' = (add_message d s).0 in
      let m = next_message d source s in
      ((get_message d.mailbox m.id s').1 ≡ some m)
      × ((get_message d.mailbox (txt "latest") s').1 ≡ some m)
get_message-add_message d source s h read =
    let s' = (add_message d s).0 in
    let m = next_message d source s in
    let h' = add_message-IsStore d s h in
    let (r, e) = add_message_last d source s h read in
    let ordered = subst (IsOrdered _ _) e (h'.valid d.mailbox).ordered in
    let by_id : lookup (itoa m.index) (messages_of d.mailbox s') ≡ some m =
      rw e (lookup_last _ _ r m ordered) in
    let as_last : last_of (values (messages_of d.mailbox s')) ≡ some m =
      rw (e, values-append r ((itoa m.index, m) ∷ [])) (last_of-snoc (values r) m) in
    (
      ground (
        arith,
        (get_message_lem d.mailbox m.id d.mailbox s' h').0,
        bytes_eq_iff m.id (txt "latest"),
        itoa-ne-latest m.index,
        by_id,
      ),
      (get_message_lem d.mailbox (txt "latest") d.mailbox s' h').0
          ∙ rw (bytes_eq_refl (txt "latest")) as_last,
    )
