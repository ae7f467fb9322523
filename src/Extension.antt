-- ===== src/Extension.antt =====
-- pkg/extension/broker.go and async_broker.go: the listeners for an event. A listener is a name and a
-- function; the two brokers differ in the functions and in `Emit`.
pub mod Listeners
use go_inbucket.Base.{
  Bool, Option, none, some, List, [], ◌∷◌, ◌++◌, map, if◌then◌else◌, Bytes, bytes_eq,
}

-- The two slices of a broker, for functions of the type `F`.
pub record Broker {ℓ} (F : Type ℓ) : Type ℓ where
  pub names : List Bytes
  pub funcs : List F

abbrev pub new_broker {ℓ} : {F : Type ℓ} → Broker F
new_broker = record { names = []; funcs = [] }

-- `EventBroker.Emit`: the first result that is not nil.
unfoldable pub emit_to {ℓ} : {E R : Type ℓ} → E → List (E → Option R) → Option R
emit_to event [] = none
emit_to event (l ∷ ls) =
    let later = emit_to event ls in elim (l event) [ none ↦ later | some result ↦ some result ]

unfoldable pub emit {ℓ} : {E R : Type ℓ} → E → Broker (E → Option R) → Option R
unfolding emit_to
emit event eb = emit_to event eb.funcs

-- `AsyncEventBroker.Emit`: what it starts, in parallel.
abbrev pub emit_all {ℓ} : {E R : Type ℓ} → E → Broker (E → R) → List R
emit_all event eb = map (λ l. l event) eb.funcs

module _ {ℓ} {F : Type ℓ} where
  -- The two slices without the first entry of that name; `none` is a slice that is out of range.
  unfoldable pub remove_entry : Bytes → List Bytes → List F → Option (List Bytes × List F)
  remove_entry name [] funcs = some ([], funcs)
  remove_entry name (entry ∷ names) [] =
      if bytes_eq entry name then none else elim (remove_entry name names []) [
        | none ↦ none
        | some rest ↦ some (entry ∷ rest.0, rest.1)
      ]
  remove_entry name (entry ∷ names) (f ∷ funcs) =
      if bytes_eq entry name then some (names, funcs) else elim (remove_entry name names funcs) [
        | none ↦ none
        | some rest ↦ some (entry ∷ rest.0, f ∷ rest.1)
      ]

  -- `lockedRemoveListener`, which is all of `RemoveListener`; `none` is a panic.
  unfoldable pub remove_listener : Bytes → Broker F → Option (Broker F)
  unfolding remove_entry
  remove_listener name eb = elim (remove_entry name eb.names eb.funcs) [
    | none ↦ none
    | some kept ↦ some (record { names = kept.0; funcs = kept.1 })
  ]

  unfoldable pub add_listener : Bytes → F → Broker F → Option (Broker F)
  unfolding remove_listener
  add_listener name listener eb = elim (remove_listener name eb) [
    | none ↦ none
    | some eb' ↦
        some (record { names = eb'.names ++ name ∷ []; funcs = eb'.funcs ++ listener ∷ [] })
  ]
