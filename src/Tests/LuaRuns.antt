-- ===== src/Tests/LuaRuns.antt =====
-- The pool of Lua states on a concrete run: pkg/extension/luahost/pool.go.
use go_inbucket.Base.{◌≡◌, refl, ◌==◌, if◌then◌else◌, true, some, [], ◌∷◌, txt}
use go_inbucket.Lua.Pool.Ready.{
  World, Steps, here, then_step, get_step, use_step, put_step, empty_world, IsGiven,
  get_state-IsGiven,
}
use go_inbucket.Lua.Pool.{get_state, put_state, new_state_pool, create_channel}

-- A handler gets a new state, leaves three values on its stack, and puts it back.
abbrev got : World
got = record { pool = (get_state 0 true new_state_pool).0; held = 0 ∷ [] }

abbrev used : World
used = record got {
  pool = record got.pool {
    heap = λ n. if n == 0 then record (got.pool.heap 0) { top = 3 } else got.pool.heap n;
  };
}

abbrev returned : World
returned = record { pool = put_state 0 used.pool; held = [] }

to_returned : Steps empty_world returned
unfolding get_state new_state_pool
to_returned =
    then_step (then_step (then_step here (get_step 0 true)) (use_step 0 3 refl)) (put_step 0 refl)

get_state-IsGiven_example : IsGiven 0 returned (get_state 0 true returned.pool)
get_state-IsGiven_example = get_state-IsGiven 0 true returned to_returned

-- The same state is given again, with an empty stack; after a channel was created, a new one.
given_again :
    ((get_state 0 true returned.pool).1 ≡ some 0)
    × ((get_state 0 true (create_channel (txt "c") returned.pool)).1 ≡ some 1)
unfolding get_state put_state create_channel new_state_pool
given_again = (refl, refl)
