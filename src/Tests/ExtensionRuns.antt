-- ===== src/Tests/ExtensionRuns.antt =====
-- The brokers of pkg/extension on some listeners.
use go_inbucket.Base.{
  ◌≡◌, refl, ◌+◌, ℕ, Option, none, some, List, [], ◌∷◌, ◌==◌, bytes_eq, txt, if◌then◌else◌,
}
use go_inbucket.Extension.{Broker, new_broker, emit, add_listener}
use go_inbucket.Extension.Listeners.{
  Listeners, Change, adding, removing, broker_of, except, changes, after_all, changes-after_all,
  emit-add_listener,
}

abbrev even_only : ℕ → Option ℕ
even_only n = if n == 2 then some 20 else none

abbrev always : ℕ → Option ℕ
always n = some (n + 1)

abbrev some_changes : List (Change (ℕ → Option ℕ))
some_changes =
    adding (txt "a") always
    ∷ adding (txt "b") even_only
    ∷ removing (txt "c")
    ∷ adding (txt "a") always
    ∷ []

changes-after_all_example :
    changes some_changes (new_broker {F = ℕ → Option ℕ})
    ≡ some (broker_of (after_all some_changes []))
changes-after_all_example = changes-after_all some_changes

abbrev two_listeners : Listeners (ℕ → Option ℕ)
two_listeners = (txt "a", always) ∷ (txt "b", even_only) ∷ []

asked_last :
    (b : Broker (ℕ → Option ℕ)) × (add_listener (txt "a") always (broker_of two_listeners) ≡ some b)
    × (emit 2 b ≡ elim (emit 2 (broker_of (except (txt "a") two_listeners))) [
      | none ↦ always 2
      | some result ↦ some result
    ])
unfolding txt bytes_eq
asked_last = emit-add_listener 2 (txt "a") always two_listeners (refl, (refl, tt))

-- The listener that was asked first is asked last after it is added again.
order_runs :
    (elim (changes some_changes (new_broker {F = ℕ → Option ℕ})) [
      | none ↦ none
      | some b ↦ emit 2 b
    ])
    ≡ some 20
unfolding emit add_listener txt bytes_eq
order_runs = refl
