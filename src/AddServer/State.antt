-- ===== src/AddServer/State.antt =====
-- examples/add_server/server/state.hpp and state.cpp: the states of the example server.
use stdsc.Base.{ℕ, Bool, ◌&&◌, ◌||◌, List, none, some, ◌==◌, if◌then◌else◌, get_elem?, set}
use stdsc.Base.Int.{ℤ, pos}
use stdsc.State.{Pointer, StateContext, StateClass, make_shared, next_state}

pub data Object : Type 0 where
  state_init : Bool → Bool → Object
  state_ready : Object
  state_computed : Object

-- StateId_t
abbrev pub state_id : Object → ℤ
state_id (state_init a b) = pos 1
state_id state_ready = pos 2
state_id state_computed = pos 3

-- Event_t
abbrev pub received_value_a : ℕ
received_value_a = 1

abbrev pub received_value_b : ℕ
received_value_b = 2

abbrev pub received_compute_request : ℕ
received_compute_request = 3

abbrev pub received_result_request : ℕ
received_result_request = 4

-- sc.next_state(S::create())
abbrev enter : Object → StateContext → List Object → StateContext × List Object
enter o sc objects = let (p, objects') = make_shared o objects in (next_state p sc, objects')

-- `set` of each class, on the object at `this`
unfoldable pub set_object :
    Object → Pointer → ℕ → StateContext → List Object → StateContext × List Object
set_object (state_init a b) this event sc objects =
    let a' = a || (event == received_value_a) in
    let b' = b || (event == received_value_b) in
    let objects' = set objects this (state_init a' b') in
    if a' && b' then enter state_ready sc objects' else (sc, objects')
set_object state_ready this event sc objects =
    if event == received_compute_request then enter state_computed sc objects else (sc, objects)
set_object state_computed this event sc objects =
    if (event == received_value_a) || (event == received_value_b)
    then enter state_ready sc objects
    else (sc, objects)

unfoldable pub set_state : Pointer → ℕ → StateContext → List Object → StateContext × List Object
unfolding set_object make_shared next_state
set_state this event sc objects = elim (get_elem? objects this) [
  | none ↦ (sc, objects)
  | some o ↦ set_object o this event sc objects
]

abbrev pub states : StateClass Object
states = record { set = set_state; id = state_id }
