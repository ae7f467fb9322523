-- ===== src/Listener.antt =====
-- pkg/server/smtp/listener.go and pkg/server/pop3/listener.go: the accept loop, which is the same in both,
-- and the drain of the sessions, which is not.
pub mod Drain
use go_inbucket.Base.{
  ℕ, ◌+◌, ◌*◌, ◌≤◌, ◌<◌, ◌≡◌, ◌⊎◌, inl, inr, refl, ap, arith, Bool, true, false, List, [], ◌∷◌,
  ◌==◌, ltb, if◌then◌else◌, All, map, length, suc, zero,
}

-- What `Accept` returns: a connection, a timeout, or another error, with whether the server is
-- shutting down then.
pub data Accept (C : Type 0) : Type 0 where
  connection : C → Accept C
  timeout : Accept C
  failure : Bool → Accept C

-- The sessions that the loop starts, each with its number, the milliseconds that it sleeps, and how
-- often it sends an error to the notify channel.
pub record Served (C : Type 0) : Type 0 where
  pub sessions : List (ℕ × C)
  pub delays : List ℕ
  pub notified : ℕ

-- `tempDelay` after a timeout.
unfoldable pub next_delay : ℕ → ℕ
next_delay d = let longer = if d == 0 then 5 else d * 2 in if ltb 1000 longer then 1000 else longer

next_delay-le : (d : ℕ) → (d ≡ 0) ⊎ (5 ≤ d) → (5 ≤ next_delay d) × (next_delay d ≤ 1000)
unfolding next_delay
next_delay-le d h = ground (arith, h)

module _ {C : Type 0} where
  abbrev pub nothing_served : ℕ → Served C
  nothing_served notified = record { sessions = []; delays = []; notified = notified }

  -- The loop of `serve`, from a session number and a delay.
  unfoldable pub serve : ℕ → ℕ → List (Accept C) → Served C
  serve id delay [] = nothing_served 0
  serve id delay (connection c ∷ accepts) =
      let rest = serve (id + 1) 0 accepts in record rest { sessions = (id, c) ∷ rest.sessions }
  serve id delay (timeout ∷ accepts) =
      let d = next_delay delay in
      let rest = serve (id + 1) d accepts in record rest { delays = d ∷ rest.delays }
  serve id delay (failure done ∷ accepts) = nothing_served (if done then 0 else 1)

  -- `Start`, with whether the address can be resolved and listened on.
  unfoldable pub start : Bool → Bool → List (Accept C) → Served C
  unfolding serve
  start resolved listening accepts =
      let served = serve 1 0 accepts in
      if resolved then (if listening then served else nothing_served 1) else nothing_served 1

  -- The connections before the first error that is no timeout.
  abbrev pub connections : List (Accept C) → List C
  connections [] = []
  connections (connection c ∷ accepts) = c ∷ connections accepts
  connections (timeout ∷ accepts) = connections accepts
  connections (failure done ∷ accepts) = []

  -- The timeouts before the first error that is no timeout.
  abbrev pub timeouts : List (Accept C) → ℕ
  timeouts [] = 0
  timeouts (connection c ∷ accepts) = timeouts accepts
  timeouts (timeout ∷ accepts) = suc (timeouts accepts)
  timeouts (failure done ∷ accepts) = 0

  -- The numbers grow, from the first.
  abbrev pub Grows : ℕ → List (ℕ × C) → Type 0
  Grows from [] = Unit
  Grows from ((id, c) ∷ more) = (from ≤ id) × Grows (id + 1) more

  pub record IsServed (from : ℕ) (accepts : List (Accept C)) (s : Served C) : Type 0 where
    pub all : map (λ p. p.1) s.sessions ≡ connections accepts
    pub numbered : Grows from s.sessions
    pub sleeps : length s.delays ≡ timeouts accepts
    pub slept : All (λ d. (5 ≤ d) × (d ≤ 1000)) s.delays
    pub notified_once : s.notified ≤ 1

  Grows-from : (a b : ℕ) (l : List (ℕ × C)) → a ≤ b → Grows b l → Grows a l
  Grows-from a b [] h g = tt
  Grows-from a b ((id, c) ∷ l) h g = (omega (arith, h, g.0), g.1)

  serve-IsServed :
      (id delay : ℕ) (accepts : List (Accept C))
      → (delay ≡ 0) ⊎ (5 ≤ delay)
      → IsServed id accepts (serve id delay accepts)
  unfolding serve
  serve-IsServed id delay [] slow = record {
    all = refl;
    numbered = tt;
    sleeps = refl;
    slept = tt;
    notified_once = omega arith;
  }
  serve-IsServed id delay (connection c ∷ accepts) slow =
      let h = serve-IsServed (id + 1) 0 accepts (inl refl) in
      record {
        all = ap (◌∷◌ c) h.all;
        numbered = (omega arith, h.numbered);
        sleeps = h.sleeps;
        slept = h.slept;
        notified_once = h.notified_once;
      }
  serve-IsServed id delay (timeout ∷ accepts) slow =
      let bounds = next_delay-le delay slow in
      let h = serve-IsServed (id + 1) (next_delay delay) accepts (inr bounds.0) in
      record {
        all = h.all;
        numbered = Grows-from id (id + 1) _ (omega arith) h.numbered;
        sleeps = ap (λ n. suc n) h.sleeps;
        slept = (bounds, h.slept);
        notified_once = h.notified_once;
      }
  serve-IsServed id delay (failure done ∷ accepts) slow = record {
    all = refl;
    numbered = tt;
    sleeps = refl;
    slept = tt;
    notified_once = ground arith;
  }

  -- A server that can listen on its address starts a session for each connection that it accepts
  -- before the first error that is no timeout, in their order, under numbers that grow from 1. After
  -- each of those timeouts it sleeps once, at least 5 milliseconds and at most a second, and it sends at most one error
  -- to the notify channel.
  pub start-IsServed : (accepts : List (Accept C)) → IsServed 1 accepts (start true true accepts)
  unfolding start
  start-IsServed accepts = serve-IsServed 1 0 accepts (inl refl)
