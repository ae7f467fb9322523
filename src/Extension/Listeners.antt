-- ===== src/Extension/Listeners.antt =====
-- The brokers of pkg/extension against a list of named listeners.
use go_inbucket.Base.{
  ◌≡◌, refl, sym, ap, ◌∙◌, Bool, true, false, Option, none, some, List, [], ◌∷◌, ◌++◌,
  if◌then◌else◌, Bytes, bytes_eq, bytes_eq_iff, Bool-cases, Option-cases, inl, inr, arith,
}
use go_inbucket.Extension.{
  Broker, new_broker, emit_to, emit, remove_entry, remove_listener, add_listener,
}

-- Listeners with their names, in the order in which they are asked.
abbrev pub Listeners {ℓ} : Type ℓ → Type ℓ
Listeners F = List (Bytes × F)

-- The calls that change a broker.
pub data Change {ℓ} (F : Type ℓ) : Type ℓ where
  adding : Bytes → F → Change F
  removing : Bytes → Change F

module _ {ℓ} {F : Type ℓ} where
  abbrev pub names_of : Listeners F → List Bytes
  names_of [] = []
  names_of ((n, f) ∷ ls) = n ∷ names_of ls

  abbrev pub funcs_of : Listeners F → List F
  funcs_of [] = []
  funcs_of ((n, f) ∷ ls) = f ∷ funcs_of ls

  abbrev pub is_named : Bytes → Listeners F → Bool
  is_named name [] = false
  is_named name ((n, f) ∷ ls) = if bytes_eq n name then true else is_named name ls

  abbrev pub IsUnique : Listeners F → Type 0
  IsUnique [] = Unit {0}
  IsUnique ((n, f) ∷ ls) = (is_named n ls ≡ false) × IsUnique ls

  -- The listeners but that of a name.
  abbrev pub except : Bytes → Listeners F → Listeners F
  except name [] = []
  except name ((n, f) ∷ ls) = if bytes_eq n name then except name ls else (n, f) ∷ except name ls

  -- A broker that holds these listeners.
  abbrev pub broker_of : Listeners F → Broker F
  broker_of ls = record { names = names_of ls; funcs = funcs_of ls }

  except_absent : (name : Bytes) (ls : Listeners F) → is_named name ls ≡ false → except name ls ≡ ls
  except_absent name [] h = refl
  except_absent name ((n, f) ∷ ls) h = ground (arith, except_absent name ls)

  remove_entry-except :
      (name : Bytes) (ls : Listeners F)
      → IsUnique ls
      → remove_entry name (names_of ls) (funcs_of ls)
        ≡ some (names_of (except name ls), funcs_of (except name ls))
  unfolding remove_entry
  remove_entry-except name [] u = refl
  remove_entry-except name ((n, f) ∷ ls) (new, u) = elim (Bool-cases (bytes_eq n name)) [
    | inl same ↦
        let gone : except name ls ≡ ls =
          except_absent name ls
            (ap (λ x. is_named x ls) (sym ((bytes_eq_iff n name).0 same)) ∙ new) in
        rw (same, gone) refl
    | inr other ↦ rw (other, remove_entry-except name ls u) refl
  ]

  abbrev pub change : Change F → Broker F → Option (Broker F)
  change (adding name f) b = add_listener name f b
  change (removing name) b = remove_listener name b

  abbrev pub after : Change F → Listeners F → Listeners F
  after (adding name f) ls = except name ls ++ (name, f) ∷ []
  after (removing name) ls = except name ls

  pub remove_listener-except :
      (name : Bytes) (ls : Listeners F)
      → IsUnique ls
      → remove_listener name (broker_of ls) ≡ some (broker_of (except name ls))
  unfolding remove_listener
  remove_listener-except name ls u = rw (remove_entry-except name ls u, remove_listener) refl

  names_of-append :
      (ls : Listeners F) (n : Bytes) (f : F) → names_of (ls ++ (n, f) ∷ []) ≡ names_of ls ++ n ∷ []
  names_of-append [] n f = refl
  names_of-append ((m, g) ∷ ls) n f = ap (◌∷◌ m) (names_of-append ls n f)

  funcs_of-append :
      (ls : Listeners F) (n : Bytes) (f : F) → funcs_of (ls ++ (n, f) ∷ []) ≡ funcs_of ls ++ f ∷ []
  funcs_of-append [] n f = refl
  funcs_of-append ((m, g) ∷ ls) n f = ap (◌∷◌ g) (funcs_of-append ls n f)

  add_listener-except :
      (name : Bytes) (f : F) (ls : Listeners F)
      → IsUnique ls
      → add_listener name f (broker_of ls) ≡ some (broker_of (except name ls ++ (name, f) ∷ []))
  unfolding add_listener
  add_listener-except name f ls u =
      rw
        (
          remove_listener-except name ls u,
          add_listener,
          names_of-append (except name ls) name f,
          funcs_of-append (except name ls) name f,
        )
        refl

  change-after :
      (c : Change F) (ls : Listeners F)
      → IsUnique ls
      → change c (broker_of ls) ≡ some (broker_of (after c ls))
  change-after (removing name) ls u = remove_listener-except name ls u
  change-after (adding name f) ls u = add_listener-except name f ls u

  is_named-except :
      (name other : Bytes) (ls : Listeners F)
      → is_named other ls ≡ false
      → is_named other (except name ls) ≡ false
  is_named-except name other [] h = refl
  is_named-except name other ((n, f) ∷ ls) h = ground (arith, is_named-except name other ls)

  except-IsUnique : (name : Bytes) (ls : Listeners F) → IsUnique ls → IsUnique (except name ls)
  except-IsUnique name [] u = tt
  except-IsUnique name ((n, f) ∷ ls) (new, u) = elim (Bool-cases (bytes_eq n name)) [
    | inl same ↦ rw same (except-IsUnique name ls u)
    | inr other ↦ rw other (is_named-except name n ls new, except-IsUnique name ls u)
  ]

  is_named-append :
      (other n : Bytes) (f : F) (ls : Listeners F)
      → is_named other ls ≡ false
      → bytes_eq n other ≡ false
      → is_named other (ls ++ (n, f) ∷ []) ≡ false
  is_named-append other n f [] h e = ground arith
  is_named-append other n f ((m, g) ∷ ls) h e = ground (arith, is_named-append other n f ls)

  append-IsUnique :
      (n : Bytes) (f : F) (ls : Listeners F)
      → is_named n ls ≡ false
      → IsUnique ls
      → IsUnique (ls ++ (n, f) ∷ [])
  append-IsUnique n f [] h u = (refl, tt)
  append-IsUnique n f ((m, g) ∷ ls) h (new, u) =
      let apart : bytes_eq n m ≡ false = ground (arith, bytes_eq_iff n m, bytes_eq_iff m n) in
      let absent : is_named n ls ≡ false = ground arith in
      (is_named-append m n f ls new apart, append-IsUnique n f ls absent u)

  is_named_self : (name : Bytes) (ls : Listeners F) → is_named name (except name ls) ≡ false
  is_named_self name [] = refl
  is_named_self name ((n, f) ∷ ls) = ground (arith, is_named_self name ls)

  after-IsUnique : (c : Change F) (ls : Listeners F) → IsUnique ls → IsUnique (after c ls)
  after-IsUnique (removing name) ls u = except-IsUnique name ls u
  after-IsUnique (adding name f) ls u =
      append-IsUnique name f (except name ls) (is_named_self name ls) (except-IsUnique name ls u)

  -- A sequence of calls, on a broker and on a list of listeners.
  abbrev pub changes : List (Change F) → Broker F → Option (Broker F)
  changes [] b = some b
  changes (c ∷ cs) b = elim (change c b) [ none ↦ none | some b' ↦ changes cs b' ]

  abbrev pub after_all : List (Change F) → Listeners F → Listeners F
  after_all [] ls = ls
  after_all (c ∷ cs) ls = after_all cs (after c ls)

  changes-from :
      (cs : List (Change F)) (ls : Listeners F)
      → IsUnique ls
      → changes cs (broker_of ls) ≡ some (broker_of (after_all cs ls))
  changes-from [] ls u = refl
  changes-from (c ∷ cs) ls u =
      rw (change-after c ls u, changes) (changes-from cs (after c ls) (after-IsUnique c ls u))

  -- Any sequence of calls of `AddListener` and `RemoveListener` on a new broker returns, without a
  -- slice out of range, and leaves the two slices as the names and the functions of one list: that in
  -- which a removal leaves out the listeners of the name and an addition also puts the new one last.
  pub changes-after_all :
      (cs : List (Change F)) → changes cs (new_broker {F = F}) ≡ some (broker_of (after_all cs []))
  changes-after_all cs = changes-from cs [] tt

emit_to-append {ℓ} :
    {E R : Type ℓ} (event : E) (f : E → Option R) (fs : List (E → Option R))
    → emit_to event (fs ++ f ∷ [])
      ≡ elim (emit_to event fs) [ none ↦ f event | some result ↦ some result ]
unfolding emit_to
emit_to-append event f [] = elim (Option-cases (f event)) [
  | inl silent ↦ rw silent refl
  | inr (r, e) ↦ rw e refl
]
emit_to-append event f (g ∷ fs) = elim (Option-cases (g event)) [
  | inl silent ↦ rw (silent, emit_to) (emit_to-append event f fs)
  | inr (r, e) ↦ rw (e, emit_to) refl
]

-- A listener that is added is asked after the other listeners, if none of them has a result, and in
-- place of one that had its name, in a broker whose listeners have different names.
pub emit-add_listener {ℓ} :
    {E R : Type ℓ} (event : E) (name : Bytes) (f : E → Option R) (ls : Listeners (E → Option R))
    → IsUnique ls
    → (b : Broker (E → Option R)) × (add_listener name f (broker_of ls) ≡ some b)
      × (emit event b ≡ elim (emit event (broker_of (except name ls))) [
        | none ↦ f event
        | some result ↦ some result
      ])
unfolding emit
emit-add_listener event name f ls u = (
  broker_of (except name ls ++ (name, f) ∷ []),
  add_listener-except name f ls u,
  ap (emit_to event) (funcs_of-append (except name ls) name f)
      ∙ emit_to-append event f (funcs_of (except name ls)),
)
