-- ===== src/Lua/Pool.antt =====
-- pkg/extension/luahost/pool.go. A Lua state is known by a number; what the program and the scripts do to
-- it is in the heap. That a new state runs the script without an error is a parameter of each call.
pub mod Ready
use go_inbucket.Base.{
  ℕ, ◌+◌, ◌≡◌, Bool, true, false, not, ◌||◌, ◌&&◌, Option, none, some, List, [], ◌∷◌, ◌++◌, ◌==◌,
  if◌then◌else◌, Bytes, bytes_eq,
}

-- What the pool sees of an `LState`: whether it is closed, how many values are on its stack, and the
-- channels among its global variables.
pub record LuaState : Type 0 where
  pub closed : Bool
  pub top : ℕ
  pub globals : List Bytes

-- `states` has the state to hand out next first; the source keeps it at the end of a slice.
pub record StatePool : Type 0 where
  pub states : List ℕ
  pub channels : List Bytes
  pub heap : ℕ → LuaState
  pub next : ℕ

abbrev pub closed_state : LuaState
closed_state = record { closed = true; top = 0; globals = [] }

unfoldable pub new_state_pool : StatePool
new_state_pool = record { states = []; channels = []; heap = λ n. closed_state; next = 0 }

abbrev pub write : ℕ → LuaState → (ℕ → LuaState) → ℕ → LuaState
write id l heap n = if n == id then l else heap n

-- `newState`; what the script leaves on the stack stays there.
unfoldable pub new_state : (left : ℕ) → Bool → StatePool → StatePool × Option ℕ
new_state left runs p =
    if runs
    then (
      record p {
        heap = write p.next (record { closed = false; top = left; globals = p.channels }) p.heap;
        next = p.next + 1;
      },
      some p.next,
    )
    else (record p { next = p.next + 1 }, none)

unfoldable pub get_state : ℕ → Bool → StatePool → StatePool × Option ℕ
unfolding new_state
get_state left runs p = elim p.states [
  | [] ↦ new_state left runs p
  | id ∷ rest ↦ (record p { states = rest }, some id)
]

unfoldable pub put_state : ℕ → StatePool → StatePool
put_state id p = if (p.heap id).closed then p else record p {
  heap = write id (record (p.heap id) { top = 0 }) p.heap;
  states = id ∷ p.states;
}

abbrev pub is_in : ℕ → List ℕ → Bool
is_in n [] = false
is_in n (m ∷ ms) = n == m || is_in n ms

abbrev pub close_all : List ℕ → (ℕ → LuaState) → ℕ → LuaState
close_all ids heap n = if is_in n ids then record (heap n) { closed = true } else heap n

abbrev pub knows : Bytes → List Bytes → Bool
knows name [] = false
knows name (c ∷ cs) = bytes_eq name c || knows name cs

-- The map holds one channel for a name.
unfoldable pub create_channel : Bytes → StatePool → StatePool
create_channel name p = record p {
  channels = if knows name p.channels then p.channels else name ∷ p.channels;
  heap = close_all p.states p.heap;
  states = [];
}
