-- ===== src/Lua/Pool/Ready.antt =====
-- No two handlers share a Lua state, and none gets a state that is closed.
use go_inbucket.Base.{
  ℕ, suc, ◌+◌, ◌≤◌, ◌≡◌, ◌⊎◌, inl, inr, refl, ap, arith, Bool, true, false, Option, none, some,
  List, [], ◌∷◌, ◌==◌, if◌then◌else◌, Bytes, Bool-cases,
}
use go_inbucket.Lua.Pool.{
  LuaState, StatePool, new_state_pool, write, new_state, get_state, put_state, create_channel,
}

-- The pool, and the states that handlers hold.
pub record World : Type 0 where
  pub pool : StatePool
  pub held : List ℕ

abbrev pub times : ℕ → List ℕ → ℕ
times n [] = 0
times n (m ∷ ms) = if n == m then suc (times n ms) else times n ms

abbrev pub drop_one : ℕ → List ℕ → List ℕ
drop_one n [] = []
drop_one n (m ∷ ms) = if n == m then ms else m ∷ drop_one n ms

abbrev pub with_held : Option ℕ → List ℕ → List ℕ
with_held none held = held
with_held (some id) held = id ∷ held

abbrev on_heap : ℕ → LuaState → StatePool → StatePool
on_heap id l p = record p { heap = write id l p.heap }

-- A handler gets a state, uses the stack of one that it holds, closes it, or puts it back; or someone
-- creates a channel.
pub data Step (w : World) : World → Type 0 where
  get_step :
      (left : ℕ) (runs : Bool)
      → Step w (record {
        pool = (get_state left runs w.pool).0;
        held = with_held (get_state left runs w.pool).1 w.held;
      })
  use_step :
      (id top : ℕ)
      → times id w.held ≡ 1
      → Step w (record w { pool = on_heap id (record (w.pool.heap id) { top = top }) w.pool })
  close_step :
      (id : ℕ)
      → times id w.held ≡ 1
      → Step w (record w { pool = on_heap id (record (w.pool.heap id) { closed = true }) w.pool })
  put_step :
      (id : ℕ)
      → times id w.held ≡ 1
      → Step w (record { pool = put_state id w.pool; held = drop_one id w.held })
  channel_step : (name : Bytes) → Step w (record w { pool = create_channel name w.pool })

pub data Steps (w : World) : World → Type 0 where
  here : Steps w w
  then_step : {u v : World} → Steps w u → Step u v → Steps w v

pub record IsShared (w : World) : Type 0 where
  pub once : (n : ℕ) → times n w.pool.states + times n w.held ≤ 1
  pub fresh : (n : ℕ) → w.pool.next ≤ n → times n w.pool.states + times n w.held ≡ 0
  pub ready :
      (n : ℕ)
      → times n w.pool.states ≡ 1
      → ((w.pool.heap n).closed ≡ false) × ((w.pool.heap n).top ≡ 0)

times-drop_one :
    (n id : ℕ) (l : List ℕ)
    → times id l ≡ 1
    → times n (drop_one id l) + (if n == id then 1 else 0) ≡ times n l
times-drop_one n id [] h = absurd (omega (arith, h))
times-drop_one n id (m ∷ ms) h = elim (Bool-cases (id == m)) [
  | inl p ↦ ground (arith, p)
  | inr p ↦ ground (arith, p, times-drop_one n id ms)
]

new-IsShared :
    (left : ℕ) (runs : Bool) (w : World)
    → IsShared w
    → w.pool.states ≡ []
    → IsShared (record {
      pool = (new_state left runs w.pool).0;
      held = with_held (new_state left runs w.pool).1 w.held;
    })
unfolding new_state
new-IsShared left true w h e = record {
  once = λ n. ground (arith, h.once n, h.fresh n);
  fresh = λ n lt. ground (arith, h.fresh n (omega (arith, lt)));
  ready = λ n in'. absurd (omega (arith, in', ap (times n) e));
}
new-IsShared left false w h e = record {
  once = h.once;
  fresh = λ n lt. h.fresh n (omega (arith, lt));
  ready = h.ready;
}

get-IsShared :
    (left : ℕ) (runs : Bool) (w : World)
    → IsShared w
    → IsShared (record {
      pool = (get_state left runs w.pool).0;
      held = with_held (get_state left runs w.pool).1 w.held;
    })
unfolding get_state new_state
get-IsShared left runs w h = go w.pool.states refl
  where
    go :
        (l : List ℕ)
        → w.pool.states ≡ l
        → let g : StatePool × Option ℕ = elim l [
          | [] ↦ new_state left runs w.pool
          | id ∷ rest ↦ (record w.pool { states = rest }, some id)
        ] in
          IsShared (record { pool = g.0; held = with_held g.1 w.held })
    go [] e = new-IsShared left runs w h e
    go (id ∷ rest) e = record {
      once = λ n. ground (arith, h.once n, ap (times n) e);
      fresh = λ n lt. ground (arith, h.fresh n lt, ap (times n) e);
      ready = λ n in'. h.ready n (ground (arith, in', h.once n, ap (times n) e));
    }

held_step :
    (id : ℕ) (l : LuaState) (w : World)
    → times id w.held ≡ 1
    → IsShared w
    → IsShared (record w { pool = on_heap id l w.pool })
held_step id l w holds h = record {
  once = h.once;
  fresh = h.fresh;
  ready = λ n in'. ground (arith, h.ready n in', h.once n, holds, in');
}

put-IsShared :
    (id : ℕ) (w : World)
    → times id w.held ≡ 1
    → IsShared w
    → IsShared (record { pool = put_state id w.pool; held = drop_one id w.held })
unfolding put_state
put-IsShared id w holds h = go (w.pool.heap id).closed refl
  where
    go :
        (b : Bool)
        → (w.pool.heap id).closed ≡ b
        → IsShared (record {
          pool = if b then w.pool else record w.pool {
            heap = write id (record (w.pool.heap id) { top = 0 }) w.pool.heap;
            states = id ∷ w.pool.states;
          };
          held = drop_one id w.held;
        })
    go true shut = record {
      once = λ n. ground (arith, h.once n, times-drop_one n id w.held holds);
      fresh = λ n lt. ground (arith, h.fresh n lt, times-drop_one n id w.held holds);
      ready = h.ready;
    }
    go false open' = record {
      once = λ n. ground (arith, h.once n, times-drop_one n id w.held holds);
      fresh =
          λ n lt. ground (arith, h.fresh n lt, times-drop_one n id w.held holds, holds, h.fresh id);
      ready = λ n in'. ground (arith, h.ready n, in', open');
    }

channel-IsShared :
    (name : Bytes) (w : World)
    → IsShared w
    → IsShared (record w { pool = create_channel name w.pool })
unfolding create_channel
channel-IsShared name w h = record {
  once = λ n. omega (arith, h.once n);
  fresh = λ n lt. omega (arith, h.fresh n lt);
  ready = λ n in'. absurd (omega (arith, in'));
}

Step-IsShared : {w w' : World} → Step w w' → IsShared w → IsShared w'
Step-IsShared {w} (get_step left runs) h = get-IsShared left runs w h
Step-IsShared {w} (use_step id top holds) h =
    held_step id (record (w.pool.heap id) { top = top }) w holds h
Step-IsShared {w} (close_step id holds) h =
    held_step id (record (w.pool.heap id) { closed = true }) w holds h
Step-IsShared {w} (put_step id holds) h = put-IsShared id w holds h
Step-IsShared {w} (channel_step name) h = channel-IsShared name w h

Steps-IsShared : {w w' : World} → IsShared w → Steps w w' → IsShared w'
Steps-IsShared h here = h
Steps-IsShared h (then_step s t) = Step-IsShared t (Steps-IsShared h s)

abbrev pub empty_world : World
empty_world = record { pool = new_state_pool; held = [] }

empty_world-IsShared : IsShared empty_world
unfolding new_state_pool
empty_world-IsShared = record {
  once = λ n. omega arith;
  fresh = λ n lt. refl;
  ready = λ n in'. absurd (omega (arith, in'));
}

write_self : (id : ℕ) (l : LuaState) (heap : ℕ → LuaState) → write id l heap id ≡ l
write_self id l heap = ground arith

-- What a handler is given: no other has it, and it is open; its stack is empty, or it is new, with all channels and what the script left on the stack.
abbrev pub IsGiven : ℕ → World → StatePool × Option ℕ → Type 0
IsGiven left w (p, none) = Unit
IsGiven left w (p, some id) =
    (times id w.held ≡ 0)
    × (times id p.states ≡ 0)
    × ((p.heap id).closed ≡ false)
    × (((p.heap id).top ≡ 0) ⊎ (((p.heap id).top ≡ left) × ((p.heap id).globals ≡ w.pool.channels)))

-- Whatever handlers do with the states that they hold, and whenever channels are created: a state that
-- the pool gives to a handler is held by no other and is no longer in the pool, it is not closed,
-- and its stack is empty, or it has all channels that were created and on its stack what the script left there.
pub get_state-IsGiven :
    (left : ℕ) (runs : Bool) (w : World)
    → Steps empty_world w
    → IsGiven left w (get_state left runs w.pool)
unfolding get_state new_state
get_state-IsGiven left runs w s = go w.pool.states refl (Steps-IsShared empty_world-IsShared s)
  where
    new : (b : Bool) → w.pool.states ≡ [] → IsShared w → IsGiven left w (new_state left b w.pool)
    new true e h =
        let l : LuaState = record { closed = false; top = left; globals = w.pool.channels } in
        let mine = write_self w.pool.next l w.pool.heap in
        let none_yet = h.fresh w.pool.next (omega arith) in
        (
          omega (arith, none_yet),
          omega (arith, none_yet),
          ap (λ (x : LuaState). x.closed) mine,
          inr (ap (λ (x : LuaState). x.top) mine, ap (λ (x : LuaState). x.globals) mine),
        )
    new false e h = tt

    go :
        (l : List ℕ)
        → w.pool.states ≡ l
        → IsShared w
        → IsGiven left w (elim l [
          | [] ↦ new_state left runs w.pool
          | id ∷ rest ↦ (record w.pool { states = rest }, some id)
        ])
    go [] e h = new runs e h
    go (id ∷ rest) e h =
        let one = ap (times id) e in
        let (open', empty) = h.ready id (ground (arith, one, h.once id)) in
        (ground (arith, one, h.once id), ground (arith, one, h.once id), open', inl empty)
