-- ===== src/Storage/Retention/Visits.antt =====
-- What a scan of pkg/storage/retention.go removes, and what it keeps.
use go_inbucket.Base.{
  ℕ, ◌-◌, ◌≤◌, ◌≡◌, ◌⊎◌, inl, inr, refl, sym, ap, ◌∙◌, Bool, true, false, not, ◌||◌, Option, some,
  none, List, [], ◌∷◌, arith, ltb, if◌then◌else◌, Bytes, bytes_eq, Bool-cases,
}
use go_inbucket.Storage.Dict.{Dict, lookup}
use go_inbucket.Storage.Mem.{
  Mailbox, Store, mailbox_of, get_messages, visit_names, visit_mailboxes, keys,
}
use go_inbucket.Storage.Mem.Valid.{IsStore, messages_of}
use go_inbucket.Storage.Message.{Message}
use go_inbucket.Storage.Retention.{Totals, scan_mailbox, no_totals, do_scan}
use go_inbucket.Storage.Retention.Home.{AllHome}
use go_inbucket.Storage.Retention.Scan.{unexpired, Fine, scan_mailbox-lookup, scan_mailbox-Fine}

unexpired_idem :
    (cutoff : ℕ) (o : Option Message) → unexpired cutoff (unexpired cutoff o) ≡ unexpired cutoff o
unexpired_idem cutoff none = refl
unexpired_idem cutoff (some m) = elim (Bool-cases (ltb m.date cutoff)) [
  | inl old ↦ rw old refl
  | inr young ↦ rw young (rw young refl)
]

-- A mailbox that the visit came to, or that it did not.
abbrev Partly : ℕ → Option Message → Option Message → Type 0
Partly cutoff o o' = (o' ≡ o) ⊎ (o' ≡ unexpired cutoff o)

Partly-trans :
    (cutoff : ℕ) (a b c : Option Message)
    → Partly cutoff a b
    → Partly cutoff b c
    → Partly cutoff a c
Partly-trans cutoff a b c (inl e) (inl f) = inl (f ∙ e)
Partly-trans cutoff a b c (inl e) (inr f) = inr (f ∙ ap (unexpired cutoff) e)
Partly-trans cutoff a b c (inr e) (inl f) = inr (f ∙ e)
Partly-trans cutoff a b c (inr e) (inr f) =
    inr (f ∙ ap (unexpired cutoff) e ∙ unexpired_idem cutoff a)

either-Partly :
    (cutoff : ℕ) (b : Bool) (o x : Option Message)
    → x ≡ (if b then unexpired cutoff o else o)
    → Partly cutoff o x
either-Partly cutoff true o x e = inr e
either-Partly cutoff false o x e = inl e

module _ (done : ℕ → Bool) (cutoff : ℕ) (other id : Bytes) where
  abbrev seen_in : Totals × Store → Option Message
  seen_in ts = lookup id (messages_of other ts.1)

  visit_names-Partly :
      (names : List Bytes) (t : Totals) (s : Store)
      → Fine s
      → Partly cutoff
          (seen_in (t, s))
          (seen_in (visit_names (scan_mailbox done cutoff) names (t, s)))
  unfolding visit_names
  visit_names-Partly [] t s h = inl refl
  visit_names-Partly (name ∷ names) t s h =
      let ms = (get_messages name s).1 in
      let ((t', s'), more) = scan_mailbox done cutoff ms (t, (get_messages name s).0) in
      let step : Partly cutoff (seen_in (t, s)) (seen_in (t', s')) =
        either-Partly cutoff (bytes_eq name other) (seen_in (t, s)) (seen_in (t', s'))
          (scan_mailbox-lookup done cutoff name t s other id h) in
      let later = visit_names-Partly names t' s' (scan_mailbox-Fine done cutoff name t s h) in
      stop more (visit_names (scan_mailbox done cutoff) names (t', s')) (t', s') step
        (Partly-trans cutoff (seen_in (t, s)) (seen_in (t', s'))
          (seen_in (visit_names (scan_mailbox done cutoff) names (t', s'))) step later)
    where
      stop :
          (b : Bool) (p q : Totals × Store)
          → Partly cutoff (seen_in (t, s)) (seen_in q)
          → Partly cutoff (seen_in (t, s)) (seen_in p)
          → Partly cutoff (seen_in (t, s)) (seen_in (if b then p else q))
      stop true p q hq hp = hp
      stop false p q hq hp = hq

  abbrev among : List Bytes → Bool
  among [] = false
  among (name ∷ names) = bytes_eq name other || among names

  scan_mailbox-more :
      (ms : List Message) (ts : Totals × Store)
      → ((n : ℕ) → done n ≡ false)
      → (scan_mailbox done cutoff ms ts).1 ≡ true
  unfolding scan_mailbox
  scan_mailbox-more ms ts going = ap not (going _)

  visit_names-lookup :
      (names : List Bytes) (t : Totals) (s : Store)
      → ((n : ℕ) → done n ≡ false)
      → Fine s
      → seen_in (visit_names (scan_mailbox done cutoff) names (t, s))
        ≡ (if among names then unexpired cutoff (seen_in (t, s)) else seen_in (t, s))
  unfolding visit_names
  visit_names-lookup [] t s going h = refl
  visit_names-lookup (name ∷ names) t s going h =
      let ts : Totals × Store = (t, (get_messages name s).0) in
      let ms = (get_messages name s).1 in
      let (t', s') = (scan_mailbox done cutoff ms ts).0 in
      let step : seen_in (t', s')
          ≡ (if bytes_eq name other then unexpired cutoff (seen_in (t, s)) else seen_in (t, s)) =
        scan_mailbox-lookup done cutoff name t s other id h in
      rw (scan_mailbox-more ms ts going, visit_names)
        (visit_names-lookup names t' s' going (scan_mailbox-Fine done cutoff name t s h)
          ∙ ap (λ x. if among names then unexpired cutoff x else x) step
          ∙ merge (bytes_eq name other) (among names))
    where
      merge :
          (b c : Bool)
          → (if c
              then unexpired cutoff
                  (if b then unexpired cutoff (seen_in (t, s)) else seen_in (t, s))
              else if b
              then unexpired cutoff (seen_in (t, s))
              else seen_in (t, s))
            ≡ (if b || c then unexpired cutoff (seen_in (t, s)) else seen_in (t, s))
      merge true true = unexpired_idem cutoff (seen_in (t, s))
      merge true false = refl
      merge false true = refl
      merge false false = refl

  lookup-keys : (d : Dict Mailbox) → among (keys d) ≡ false → lookup other d ≡ none
  lookup-keys [] e = refl
  lookup-keys ((name, mb) ∷ d) e = elim (Bool-cases (bytes_eq name other)) [
    | inl same ↦ let no : true ≡ false = (rw same at e) in cc
    | inr apart ↦ rw apart (lookup-keys d (rw apart at e))
  ]

  -- A mailbox that is not in the store is empty.
  messages_of-keys : (s : Store) → among (keys s.boxes) ≡ false → messages_of other s ≡ []
  unfolding mailbox_of
  messages_of-keys s e = rw (lookup-keys s.boxes e, messages_of, mailbox_of) refl

-- A scan of the memory store, of which each mailbox is well formed and holds the messages that name it: if the
-- context is not done before its end, then exactly the messages from before the cutoff are gone from
-- every mailbox, and all others are as they were.
pub do_scan-lookup :
    (done : ℕ → Bool) (period now : ℕ) (s : Store) (other id : Bytes)
    → IsStore s
    → AllHome s
    → ((n : ℕ) → done n ≡ false)
    → lookup id (messages_of other (do_scan done period now s).1)
      ≡ unexpired (now - period) (lookup id (messages_of other s))
unfolding do_scan visit_mailboxes
do_scan-lookup done period now s other id good home going =
    visit_names-lookup done (now - period) other id (keys s.boxes) no_totals s going
      (record { good = good; home = home })
    ∙ (elim (Bool-cases (among done (now - period) other id (keys s.boxes))) [
      | inl there ↦ rw there refl
      | inr absent ↦
          let empty = messages_of-keys done (now - period) other id s absent in
          rw absent
            (ap (lookup id) empty ∙ sym (ap (λ d. unexpired (now - period) (lookup id d)) empty))
    ])

-- Also a scan that is cut short removes no message from the cutoff on, and changes none, in the
-- memory store, of which each mailbox is well formed and holds the messages that name it.
pub do_scan-keeps :
    (done : ℕ → Bool) (period now : ℕ) (s : Store) (other id : Bytes) (m : Message)
    → IsStore s
    → AllHome s
    → lookup id (messages_of other s) ≡ some m
    → now - period ≤ m.date
    → lookup id (messages_of other (do_scan done period now s).1) ≡ some m
unfolding do_scan visit_mailboxes
do_scan-keeps done period now s other id m good home found young =
    elim (visit_names-Partly done (now - period) other id (keys s.boxes) no_totals s
      (record { good = good; home = home })) [
        | inl same ↦ same ∙ found
        | inr cleaned ↦
            let late : ltb m.date (now - period) ≡ false = ground arith in
            cleaned ∙ ap (unexpired (now - period)) found ∙ rw late refl
      ]
