-- ===== src/Storage/Retention/Scan.antt =====
-- What a scan of pkg/storage/retention.go does to one mailbox.
use mathlib.Core.Path.{subst}
use go_inbucket.Base.{
  ℕ, ◌+◌, ◌≡◌, inl, inr, refl, sym, ap, ◌∙◌, Bool, true, false, ◌&&◌, ◌||◌, Option, some, none,
  List, [], ◌∷◌, arith, ltb, if◌then◌else◌, Bytes, bytes_eq, bytes_eq_iff, Bool-cases,
}
use go_inbucket.GoText.Decimal.{itoa}
use go_inbucket.Storage.Dict.{Dict, lookup, values}
use go_inbucket.Storage.Mem.{Store, mailbox_of, get_messages}
use go_inbucket.Storage.Mem.Cap.{IsOrdered, lookup_outside}
use go_inbucket.Storage.Mem.Contents.{get_messages_lem, remove_message-lookup}
use go_inbucket.Storage.Mem.Valid.{
  IsStore, messages_of, remove_message-IsStore, get_messages-IsStore,
}
use go_inbucket.Storage.Message.{Message}
use go_inbucket.Storage.Retention.{Totals, scan_message, scan_messages, scan_mailbox}
use go_inbucket.Storage.Retention.Home.{
  IsHome, AllHome, get_messages-AllHome, remove_message-AllHome,
}

abbrev expired : ℕ → Option Message → Bool
expired cutoff none = false
expired cutoff (some m) = ltb m.date cutoff

-- What a mailbox should have under an ID after a scan.
abbrev pub unexpired : ℕ → Option Message → Option Message
unexpired cutoff none = none
unexpired cutoff (some m) = if ltb m.date cutoff then none else some m

abbrev doomed : ℕ → Bytes → Bytes → List Message → Bool
doomed cutoff other id [] = false
doomed cutoff other id (m ∷ ms) =
    (ltb m.date cutoff && (bytes_eq m.mailbox other && bytes_eq m.id id))
    || doomed cutoff other id ms

pub record Fine (s : Store) : Type 0 where
  pub good : IsStore s
  pub home : AllHome s

scan_message-Fine :
    (cutoff : ℕ) (m : Message) (t : Totals) (s : Store)
    → Fine s
    → Fine (scan_message cutoff m (t, s)).1
unfolding scan_message
scan_message-Fine cutoff m t s h = elim (Bool-cases (ltb m.date cutoff)) [
  | inl old ↦
      rw (old, scan_message)
        (record {
          good = remove_message-IsStore m.mailbox m.id s h.good;
          home = remove_message-AllHome m.mailbox m.id s h.home;
        })
  | inr young ↦ rw (young, scan_message) h
]

scan_messages-Fine :
    (cutoff : ℕ) (ms : List Message) (ts : Totals × Store)
    → Fine ts.1
    → Fine (scan_messages cutoff ms ts).1
unfolding scan_messages
scan_messages-Fine cutoff [] ts h = h
scan_messages-Fine cutoff (m ∷ ms) ts h =
    scan_messages-Fine cutoff ms (scan_message cutoff m ts) (scan_message-Fine cutoff m ts.0 ts.1 h)

scan_message-lookup :
    (cutoff : ℕ) (m : Message) (t : Totals) (s : Store) (other id : Bytes)
    → lookup id (messages_of other (scan_message cutoff m (t, s)).1) ≡ (
        if ltb m.date cutoff && (bytes_eq m.mailbox other && bytes_eq m.id id)
        then none
        else lookup id (messages_of other s))
unfolding scan_message
scan_message-lookup cutoff m t s other id = elim (Bool-cases (ltb m.date cutoff)) [
  | inl old ↦ rw (old, scan_message) (remove_message-lookup m.mailbox other m.id id s)
  | inr young ↦ rw (young, scan_message) refl
]

scan_messages-lookup :
    (cutoff : ℕ) (ms : List Message) (ts : Totals × Store) (other id : Bytes)
    → lookup id (messages_of other (scan_messages cutoff ms ts).1)
      ≡ (if doomed cutoff other id ms then none else lookup id (messages_of other ts.1))
unfolding scan_messages
scan_messages-lookup cutoff [] ts other id = refl
scan_messages-lookup cutoff (m ∷ ms) ts other id =
    scan_messages-lookup cutoff ms (scan_message cutoff m ts) other id
    ∙ ap (λ x. if doomed cutoff other id ms then none else x)
        (scan_message-lookup cutoff m ts.0 ts.1 other id)
    ∙ merge (ltb m.date cutoff && (bytes_eq m.mailbox other && bytes_eq m.id id))
        (doomed cutoff other id ms)
  where
    merge :
        (b d : Bool)
        → (if d then none else if b then none else lookup id (messages_of other ts.1))
          ≡ (if b || d then none else lookup id (messages_of other ts.1))
    merge true true = refl
    merge true false = refl
    merge false true = refl
    merge false false = refl

-- Of the messages of a mailbox, exactly the one under an ID is removed under that ID.
doomed-values :
    (cutoff lo hi : ℕ) (name other id : Bytes) (d : Dict Message)
    → IsOrdered lo hi d
    → IsHome name d
    → doomed cutoff other id (values d) ≡ (bytes_eq name other && expired cutoff (lookup id d))
doomed-values cutoff lo hi name other id [] h e = ground arith
doomed-values cutoff lo hi name other id ((k, m) ∷ d) (e, i, l, u, r) (at, rest) =
    let old = ltb m.date cutoff in
    let here = bytes_eq name other in
    ap (λ x. (old && (bytes_eq x other && bytes_eq m.id id)) || doomed cutoff other id (values d))
      at
    ∙ ap (λ x. (old && (here && bytes_eq x id)) || doomed cutoff other id (values d)) i
    ∙ ap (λ x. (old && (here && bytes_eq k id)) || x)
        (doomed-values cutoff (m.index + 1) hi name other id d r rest)
    ∙ (elim (Bool-cases (bytes_eq k id)) [
      | inl same ↦
          let absent = lookup_outside (m.index + 1) hi m.index d r (inl (omega arith)) in
          let is_key : itoa m.index ≡ id = sym e ∙ (bytes_eq_iff k id).0 same in
          let gone : lookup id d ≡ none = subst (λ x. lookup x d ≡ none) is_key absent in
          rw (same, gone) (this_one old here)
      | inr apart ↦ rw apart (another old here (expired cutoff (lookup id d)))
    ])
  where
    this_one : (b c : Bool) → ((b && (c && true)) || (c && false)) ≡ (c && b)
    this_one true true = refl
    this_one true false = refl
    this_one false true = refl
    this_one false false = refl

    another : (b c d : Bool) → ((b && (c && false)) || (c && d)) ≡ (c && d)
    another true true d = refl
    another true false d = refl
    another false c d = refl

-- The visit of one mailbox.
pub scan_mailbox-lookup :
    (done : ℕ → Bool) (cutoff : ℕ) (name : Bytes) (t : Totals) (s : Store) (other id : Bytes)
    → Fine s
    → lookup id (
        messages_of other
          (scan_mailbox done cutoff (get_messages name s).1 (t, (get_messages name s).0)).0.1)
      ≡ (if bytes_eq name other
          then unexpired cutoff (lookup id (messages_of other s))
          else lookup id (messages_of other s))
unfolding scan_mailbox
scan_mailbox-lookup done cutoff name t s other id h =
    let (all, same) = get_messages_lem name other s h.good in
    let valid = h.good.valid name in
    let s' = (get_messages name s).0 in
    scan_messages-lookup cutoff (get_messages name s).1 (t, s') other id
    ∙ ap (λ x. if doomed cutoff other id x then none else lookup id (messages_of other s')) all
    ∙ ap (λ x. if doomed cutoff other id (values (messages_of name s)) then none else lookup id x)
        same
    ∙ ap (λ b. if b then none else lookup id (messages_of other s))
        (doomed-values cutoff (mailbox_of name s).first (mailbox_of name s).last name other id
          (messages_of name s) valid.ordered (h.home name))
    ∙ (elim (Bool-cases (bytes_eq name other)) [
      | inl here ↦ rw here (
          ap
            (λ n.
              if expired cutoff (lookup id (messages_of n s))
              then none
              else lookup id (messages_of other s))
            ((bytes_eq_iff name other).0 here)
          ∙ removed (lookup id (messages_of other s)))
      | inr elsewhere ↦ rw elsewhere refl
    ])
  where
    removed : (o : Option Message) → (if expired cutoff o then none else o) ≡ unexpired cutoff o
    removed none = refl
    removed (some m) = refl

pub scan_mailbox-Fine :
    (done : ℕ → Bool) (cutoff : ℕ) (name : Bytes) (t : Totals) (s : Store)
    → Fine s
    → Fine (scan_mailbox done cutoff (get_messages name s).1 (t, (get_messages name s).0)).0.1
unfolding scan_mailbox
scan_mailbox-Fine done cutoff name t s h =
    scan_messages-Fine cutoff (get_messages name s).1 (t, (get_messages name s).0)
      (record {
        good = get_messages-IsStore name s h.good;
        home = get_messages-AllHome name s h.home;
      })
