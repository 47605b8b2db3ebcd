-- ===== src/AddServer/Threads/Others.antt =====
-- What a step of one thread of the example server leaves the state and the common data of another
-- connection.
use stdsc.Base.{
  ℕ, ◌≡◌, ◌≢◌, ◌⊎◌, inl, inr, sym, ap, subst, ◌∙◌, Bool, true, ◌||◌, Option, none, some, List,
  arith, ◌==◌, length-set, get_elem?, set, get_elem?-append_old, get_elem?-set_self,
}
use stdsc.Base.Assoc.{lookup, or_else}
use stdsc.System.{System}
use stdsc.Packet.{Bytes}
use stdsc.Socket.{Socket}
use stdsc.State.{Pointer, StateContext}
use stdsc.State
use stdsc.Callback.{
  View, Container, Session, cint_eq, pointer_to, each_pointer, register_connection,
}
use stdsc.Callback.CommonData.{each_pointer-register_connection}
use stdsc.Server.Steps.{Pc, advance}
use stdsc.Server.Functions.{advance-cdata_on_each, advance_other}
use stdsc.AddServer.State.{
  Object, state_init, state_ready, states, set_state, received_value_a, received_value_b,
}
use stdsc.AddServer.Sharing.{in_range, set_other}
use stdsc.AddServer.Threads.Changes.{Changes, untouched, raised}

-- The first state with its flags at least as they were.
pub record Grown (x : Bool) (found : Option Object) : Type 0 where
  pub flag_a : Bool
  pub flag_b : Bool
  pub here : found ≡ some (state_init flag_a flag_b)
  pub kept : x ≡ true → flag_a ≡ true

set_self :
    (event : ℕ) (sc : StateContext) (objects : List Object) (x y : Bool)
    → get_elem? objects sc.state ≡ some (state_init x y)
    → get_elem? (State.set states event sc objects).1 sc.state
      ≡ some (state_init (x || (event == received_value_a)) (y || (event == received_value_b)))
unfolding State.set set_state
set_self event sc objects x y h =
    let o = state_init (x || (event == received_value_a)) (y || (event == received_value_b)) in
    ground (
      arith,
      in_range objects sc.state h,
      length-set objects sc.state o,
      get_elem?-append_old (set objects sc.state o) state_ready sc.state,
      get_elem?-set_self objects sc.state o,
    )

set-Grown :
    (event : ℕ) (sc : StateContext) (objects : List Object) (q : Pointer) (x y : Bool)
    → get_elem? objects q ≡ some (state_init x y)
    → Grown x (get_elem? (State.set states event sc objects).1 q)
set-Grown event sc objects q x y h = elim (same_or_not q sc.state) [
  | inl e ↦ record {
    flag_a = x || (event == received_value_a);
    flag_b = y || (event == received_value_b);
    here =
        ap (get_elem? (State.set states event sc objects).1) e
        ∙ set_self event sc objects x y (ap (get_elem? objects) (sym e) ∙ h);
    kept = λ t. ground (arith, t);
  }
  | inr n ↦ record {
    flag_a = x;
    flag_b = y;
    here = set_other event sc objects q n (in_range objects q h) ∙ h;
    kept = λ t. t;
  }
]
  where
    same_or_not : (a b : ℕ) → (a ≡ b) ⊎ (a ≢ b)
    same_or_not a b = ground arith

-- Whatever another thread does, a state that was the first one is, with the flags that were set.
pub Changes-Grown :
    {sc sc' : StateContext} {objects objects' : List Object} (q : Pointer) (x y : Bool)
    → Changes sc objects sc' objects'
    → get_elem? objects q ≡ some (state_init x y)
    → Grown x (get_elem? objects' q)
Changes-Grown q x y (untouched e f) h = record {
  flag_a = x;
  flag_b = y;
  here = ap (λ os. get_elem? os q) f ∙ h;
  kept = λ t. t;
}
Changes-Grown {sc} {objects = objects} q x y (raised event e f) h =
    subst (λ os. Grown x (get_elem? os q)) (sym f) (set-Grown event sc objects q x y h)

-- what a callback gets, by the initial data and the entry of the map
abbrev pub pointed : Bytes → Option Bytes → Option Bytes
pointed initial entry = elim (pointer_to initial) [
  | none ↦ none
  | some _ ↦ some (or_else entry initial)
]

module _ {W : Type 0} (sys : System W) (s t : Socket) (other : t ≢ s) where
  pointer-same :
      (c d : Container (View W Object))
      → c.cdata_on_each ≡ d.cdata_on_each
      → lookup t c.cdatamap ≡ lookup t d.cdatamap
      → each_pointer t (register_connection t c) ≡ each_pointer t (register_connection t d)
  pointer-same c d e f =
      each_pointer-register_connection t c
      ∙ (λ i. pointed (e i) (f i))
      ∙ sym (each_pointer-register_connection t d)

  pub each_pointer-advance :
      (flag : Bool) (pc : Pc) (ses : Session W Object)
      → each_pointer t (register_connection t (advance sys s flag (pc, ses)).1.container)
        ≡ each_pointer t (register_connection t ses.container)
  each_pointer-advance flag pc ses =
      pointer-same (advance sys s flag (pc, ses)).1.container ses.container
        (advance-cdata_on_each sys s flag pc ses) (advance_other sys s t other flag pc ses)
