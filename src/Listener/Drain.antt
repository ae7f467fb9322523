-- ===== src/Listener/Drain.antt =====
-- `Drain` waits until the counter of a wait group is zero. The POP3 server counts a session before it starts
-- its goroutine, the SMTP server in the goroutine.
use go_inbucket.Base.{ℕ, ◌+◌, ◌-◌, ◌<◌, ◌≡◌, refl, arith, Bool, true, false, if◌then◌else◌}

-- The connections that `Accept` returned and `serve` has not passed on yet, the sessions whose goroutine has
-- not run yet, those that run, and the counter of the group.
pub record Group : Type 0 where
  pub waiting : ℕ
  pub started : ℕ
  pub running : ℕ
  pub count : ℕ

abbrev pub no_session : Group
no_session = record { waiting = 0; started = 0; running = 0; count = 0 }

-- `early` is the POP3 server.
pub data Step (early : Bool) (g : Group) : Group → Type 0 where
  accept : g.waiting ≡ 0 → Step early g (record g { waiting = 1 })
  spawn :
      0 < g.waiting
      → Step early g (record g {
        waiting = g.waiting - 1;
        started = g.started + 1;
        count = g.count + (if early then 1 else 0);
      })
  begin :
      0 < g.started
      → Step early g (record g {
        started = g.started - 1;
        running = g.running + 1;
        count = g.count + (if early then 0 else 1);
      })
  finish : 0 < g.running → Step early g (record g { running = g.running - 1; count = g.count - 1 })

pub data Steps (early : Bool) (g : Group) : Group → Type 0 where
  here : Steps early g g
  then_step : {h k : Group} → Steps early g h → Step early h k → Steps early g k

abbrev IsCounted : Bool → Group → Type 0
IsCounted early g = g.count ≡ g.running + (if early then g.started else 0)

Step-IsCounted :
    (early : Bool) {g h : Group} → Step early g h → IsCounted early g → IsCounted early h
Step-IsCounted true (accept p) e = omega (arith, e)
Step-IsCounted true (spawn p) e = omega (arith, e)
Step-IsCounted true (begin p) e = omega (arith, e, p)
Step-IsCounted true (finish p) e = omega (arith, e, p)
Step-IsCounted false (accept p) e = omega (arith, e)
Step-IsCounted false (spawn p) e = omega (arith, e)
Step-IsCounted false (begin p) e = omega (arith, e, p)
Step-IsCounted false (finish p) e = omega (arith, e, p)

Steps-IsCounted : (early : Bool) {g : Group} → Steps early no_session g → IsCounted early g
Steps-IsCounted true here = refl
Steps-IsCounted false here = refl
Steps-IsCounted early (then_step s t) = Step-IsCounted early t (Steps-IsCounted early s)

-- Whatever connections are accepted and sessions begin and end: where `Drain` of the POP3 server would return, no session
-- runs, and no goroutine of a session has been started that has not begun.
pub pop3-drained :
    (g : Group) → Steps true no_session g → g.count ≡ 0 → (g.running ≡ 0) × (g.started ≡ 0)
pop3-drained g s e = let c = Steps-IsCounted true s in (omega (arith, c, e), omega (arith, c, e))

-- Where `Drain` of the SMTP server would return, no session runs. But once a connection was accepted, its
-- goroutine may be started, and `Drain` still returns before the session runs.
pub smtp-drained :
    (g : Group)
    → Steps false no_session g
    → g.count ≡ 0
    → 0 < g.waiting
    → (g.running ≡ 0)
      × ((h : Group) × Steps false g h × (h.count ≡ 0) × (h.started ≡ g.started + 1))
smtp-drained g s e p =
    let c = Steps-IsCounted false s in
    (
      omega (arith, c, e),
      (
        record g { waiting = g.waiting - 1; started = g.started + 1; count = g.count + 0 },
        then_step here (spawn p),
        omega (arith, e),
        refl,
      ),
    )
