-- ===== src/Tests/ListenerRuns.antt =====
-- Accept loops and drains on concrete runs: the listeners of pkg/server/smtp and pkg/server/pop3.
use go_inbucket.Base.{ℕ, ◌+◌, ◌≡◌, refl, true, false, List, [], ◌∷◌, arith}
use go_inbucket.Listener.Drain.{
  Group, no_session, accept, spawn, begin, finish, Steps, here, then_step, pop3-drained,
  smtp-drained,
}
use go_inbucket.Listener.{
  Accept, connection, timeout, failure, IsServed, start, start-IsServed, next_delay,
}

abbrev accepts : List (Accept ℕ)
accepts =
    connection 7 ∷ timeout ∷ timeout ∷ connection 8 ∷ timeout ∷ failure false ∷ connection 9 ∷ []

start-IsServed_example : IsServed 1 accepts (start true true accepts)
start-IsServed_example = start-IsServed accepts

served :
    start true true accepts
    ≡ record { sessions = (1, 7) ∷ (4, 8) ∷ []; delays = 5 ∷ 10 ∷ 5 ∷ []; notified = 1 }
unfolding start next_delay
served = refl

-- One session has begun and ended.
drained : (no_session.running ≡ 0) × (no_session.started ≡ 0)
drained =
    pop3-drained no_session
      (then_step
        (then_step (then_step (then_step here (accept refl)) (spawn (omega arith)))
          (begin (omega arith)))
        (finish (omega arith)))
      refl

-- One connection was accepted.
abbrev one : Group
one = record no_session { waiting = 1 }

missed : (h : Group) × Steps false one h × (h.count ≡ 0) × (h.started ≡ one.started + 1)
missed = (smtp-drained one (then_step here (accept refl)) refl (omega arith)).1
