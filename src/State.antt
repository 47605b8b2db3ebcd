-- ===== src/State.antt =====
-- stdsc/stdsc_state.hpp and stdsc_state.cpp: states behind shared pointers. The objects stand in a
-- list, a `std::shared_ptr<State>` is an index of it, and so a copy of a `StateContext` shares the
-- object with its original.
use stdsc.Base.{ℕ, List, [], ◌∷◌, ◌++◌, none, some, length, get_elem?}
use stdsc.Base.Int.{ℤ, negsuc}

abbrev pub Pointer : Type 0
Pointer = ℕ

-- StateContext: its member `state_`
pub record StateContext : Type 0 where
  pub state : Pointer

-- The virtual functions of a class hierarchy whose objects are values of `Object`. `set` is called
-- on the object at a pointer, and may write the objects and move the context.
pub record StateClass (Object : Type 0) : Type 0 where
  pub set : Pointer → ℕ → StateContext → List Object → StateContext × List Object
  pub id : Object → ℤ

abbrev pub state_undefined : ℤ
state_undefined = negsuc 0

-- State::id of an object whose class does not override it
unfoldable pub base_id : {Object : Type 0} → Object → ℤ
base_id o = state_undefined

-- std::shared_ptr<State>(new …)
unfoldable pub make_shared : {Object : Type 0} → Object → List Object → Pointer × List Object
make_shared o objects = (length objects, objects ++ o ∷ [])

unfoldable pub next_state : Pointer → StateContext → StateContext
next_state next sc = record sc { state = next }

module _ {Object : Type 0} (class : StateClass Object) where
  unfoldable pub set : ℕ → StateContext → List Object → StateContext × List Object
  set act sc objects = class.set sc.state act sc objects

  -- A pointer always leads to an object: nothing is freed while it is shared.
  unfoldable pub current_state : StateContext → List Object → ℤ
  current_state sc objects = elim (get_elem? objects sc.state) [
    | none ↦ state_undefined
    | some o ↦ class.id o
  ]
