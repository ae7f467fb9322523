-- ===== src/Msghub/Deletion.antt =====
-- What a deletion does to the history of the hub.
use go_inbucket.Base.{
  ℕ, ◌+◌, ◌≤◌, ◌≡◌, refl, sym, ap, ◌∙◌, Bool, true, false, not, ◌&&◌, Option, none, some, List, [],
  ◌∷◌, arith, keep, if◌then◌else◌, Bytes, bytes_eq, Bool-cases, inl, inr,
}
use go_inbucket.Msghub.{Told, Hub, entries, is_entry, clear_first, clear_entry, delete}
use go_inbucket.Storage.Message.{Metadata}

module _ (mailbox id : Bytes) where
  abbrev pub is_message : Metadata → Bool
  is_message m = bytes_eq mailbox m.mailbox && bytes_eq id m.id

  -- How often the message is in the history.
  abbrev pub copies : List (Option Metadata) → ℕ
  copies [] = 0
  copies (v ∷ h) = (if is_entry mailbox id v then 1 else 0) + copies h

  abbrev pub others : List Metadata → List Metadata
  others = keep (λ m. not (is_message m))

  no_copies : (h : List (Option Metadata)) → copies h ≡ 0 → others (entries h) ≡ entries h
  no_copies [] e = refl
  no_copies (none ∷ h) e = no_copies h (omega (arith, e))
  no_copies (some m ∷ h) e = elim (Bool-cases (is_message m)) [
    | inl same ↦ absurd (omega (arith, rw same at e))
    | inr other ↦ rw other (ap (◌∷◌ m) (no_copies h (omega (arith, rw other at e))))
  ]

  -- What the search leaves: nothing to clear, or all but the message.
  abbrev Cleared : List (Option Metadata) → Option (List (Option Metadata)) → Type 0
  Cleared h none = copies h ≡ 0
  Cleared h (some h') = (entries h' ≡ others (entries h)) × (1 ≤ copies h)

  -- An entry that is kept in front.
  keep_front :
      (v : Option Metadata) (h h' : List (Option Metadata))
      → is_entry mailbox id v ≡ false
      → entries h' ≡ others (entries h)
      → entries (v ∷ h') ≡ others (entries (v ∷ h))
  keep_front none h h' other e = e
  keep_front (some m) h h' other e = rw other (ap (◌∷◌ m) e)

  drop_front :
      (v : Option Metadata) (h : List (Option Metadata))
      → is_entry mailbox id v ≡ true
      → copies h ≡ 0
      → entries h ≡ others (entries (v ∷ h))
  drop_front none h same e = absurd (ground arith)
  drop_front (some m) h same e = rw same (sym (no_copies h e))

  clear_first-Cleared :
      (h : List (Option Metadata)) → copies h ≤ 1 → Cleared h (clear_first mailbox id h)
  unfolding clear_first
  clear_first-Cleared [] u = refl
  clear_first-Cleared (v ∷ h) u = elim (Bool-cases (is_entry mailbox id v)) [
    | inl same ↦
        let one : 1 + copies h ≤ 1 = rw same at u in
        let here : 1 ≤ copies (v ∷ h) = rw same (omega arith) in
        rw same (drop_front v h same (omega (arith, one)), here)
    | inr other ↦
        let rest : 0 + copies h ≤ 1 = rw other at u in
        rw other (go other (clear_first mailbox id h) (clear_first-Cleared h (omega (arith, rest))))
  ]
    where
      go :
          is_entry mailbox id v ≡ false
          → (r : Option (List (Option Metadata))) → Cleared h r
          → Cleared (v ∷ h) (elim r [ none ↦ none | some h' ↦ some (v ∷ h') ])
      go other none e = rw other (omega (arith, e))
      go other (some h') (e, n) = (keep_front v h h' other e, rw other (omega (arith, n)))

  clear_entry-others :
      (h : List (Option Metadata))
      → copies h ≤ 1
      → entries (clear_entry mailbox id h) ≡ others (entries h)
  unfolding clear_entry
  clear_entry-others [] u = refl
  clear_entry-others (v ∷ h) u = elim (Bool-cases (is_entry mailbox id v)) [
    | inl same ↦
        let one : 1 + copies h ≤ 1 = rw same at u in
        go_same same (omega (arith, one)) (clear_first mailbox id h)
          (clear_first-Cleared h (omega (arith, one)))
    | inr other ↦
        let rest : 0 + copies h ≤ 1 = rw other at u in
        go_other other (clear_first mailbox id h) (clear_first-Cleared h (omega (arith, rest)))
  ]
    where
      go_same :
          is_entry mailbox id v ≡ true
          → copies h ≡ 0
          → (r : Option (List (Option Metadata))) → Cleared h r
          → entries
              (elim r [ some h' ↦ v ∷ h' | none ↦ (if is_entry mailbox id v then none else v) ∷ h ])
            ≡ others (entries (v ∷ h))
      go_same same z none e = rw same (drop_front v h same z)
      go_same same z (some h') (e, n) = absurd (omega (arith, z, n))

      go_other :
          is_entry mailbox id v ≡ false
          → (r : Option (List (Option Metadata))) → Cleared h r
          → entries
              (elim r [ some h' ↦ v ∷ h' | none ↦ (if is_entry mailbox id v then none else v) ∷ h ])
            ≡ others (entries (v ∷ h))
      go_other other none e = rw other (keep_front v h h other (sym (no_copies h e)))
      go_other other (some h') (e, n) = keep_front v h h' other e

  -- If the history holds a message at most once, a deletion takes it out of the history and leaves the
  -- others, in their order.
  pub delete-others :
      (accepts : ℕ → Told → Bool) (h : Hub)
      → copies h.history ≤ 1
      → entries (delete accepts mailbox id h).history ≡ others (entries h.history)
  unfolding delete
  delete-others accepts h u = go h.history refl
    where
      go :
          (r : List (Option Metadata))
          → h.history ≡ r
          → entries (delete accepts mailbox id h).history ≡ others (entries h.history)
      go [] e = rw (e, delete) (ap entries e)
      go (v ∷ rest) e =
          rw (e, delete) (clear_entry-others h.history u ∙ ap (λ x. others (entries x)) e)
