-- ===== src/AddServer/Threads/Shape.antt =====
-- How far an event of the example server reaches into the objects that the threads share.
use stdsc.Base.{
  ℕ, zero, suc, ◌≡◌, ◌⊎◌, inl, inr, refl, sym, ap, ◌∙◌, Bool, true, false, List, [], ◌∷◌, ◌++◌,
  Option, none, some, arith, if◌then◌else◌, length, length-append, length-set, get_elem?, set,
}
use stdsc.State.{Pointer, StateContext}
use stdsc.State
use stdsc.AddServer.State.{Object, state_init, state_ready, state_computed, states, set_state}

-- whether the object behind a pointer is of the first state
abbrev pub is_init : Option Object → Bool
is_init none = false
is_init (some (state_init a b)) = true
is_init (some state_ready) = false
is_init (some state_computed) = false

abbrev pub init_at : List Object → Pointer → Bool
init_at objects q = is_init (get_elem? objects q)

-- The context keeps its pointer and no object is made, or it has the pointer of a new last object;
-- the objects of the first state are the same.
pub record Moved (sc : StateContext) (objects : List Object) (sc' : StateContext)
    (objects' : List Object) : Type 0 where
  pub inits : (q : Pointer) → init_at objects' q ≡ init_at objects q
  pub pointer :
      ((sc'.state ≡ sc.state) × (length objects' ≡ length objects))
      ⊎ ((sc'.state ≡ length objects) × (length objects' ≡ suc (length objects)))

init_at-append :
    (objects : List Object) (o : Object) (q : Pointer)
    → is_init (some o) ≡ false
    → init_at (objects ++ o ∷ []) q ≡ init_at objects q
init_at-append [] o zero h = h
init_at-append [] o (suc q) h = refl
init_at-append (x ∷ xs) o zero h = refl
init_at-append (x ∷ xs) o (suc q) h = init_at-append xs o q h

init_at-set :
    (objects : List Object) (this q : Pointer) (a b : Bool)
    → init_at objects this ≡ true
    → init_at (set objects this (state_init a b)) q ≡ init_at objects q
init_at-set [] this q a b h = refl
init_at-set (x ∷ xs) zero zero a b h = sym h
init_at-set (x ∷ xs) zero (suc q) a b h = refl
init_at-set (x ∷ xs) (suc this) zero a b h = refl
init_at-set (x ∷ xs) (suc this) (suc q) a b h = init_at-set xs this q a b h

stayed : (sc : StateContext) (objects : List Object) → Moved sc objects sc objects
stayed sc objects = record { inits = λ q. refl; pointer = inl (refl, refl) }

marked :
    (sc : StateContext) (objects : List Object) (a b : Bool)
    → init_at objects sc.state ≡ true
    → Moved sc objects sc (set objects sc.state (state_init a b))
marked sc objects a b h = record {
  inits = λ q. init_at-set objects sc.state q a b h;
  pointer = inl (refl, length-set objects sc.state (state_init a b));
}

entered :
    (sc : StateContext) (objects : List Object) (o : Object)
    → is_init (some o) ≡ false
    → Moved sc objects (record { state = length objects }) (objects ++ o ∷ [])
entered sc objects o h = record {
  inits = λ q. init_at-append objects o q h;
  pointer = inr (refl, omega (arith, length-append objects (o ∷ [])));
}

marked_entered :
    (sc : StateContext) (objects : List Object) (a b : Bool) (o : Object)
    → init_at objects sc.state ≡ true
    → is_init (some o) ≡ false
    → let half = set objects sc.state (state_init a b) in
      Moved sc objects (record { state = length half }) (half ++ o ∷ [])
marked_entered sc objects a b o h g =
    let half = set objects sc.state (state_init a b) in
    let same = length-set objects sc.state (state_init a b) in
    record {
      inits = λ q. init_at-append half o q g ∙ init_at-set objects sc.state q a b h;
      pointer = inr (same, omega (arith, same, length-append half (o ∷ [])));
    }

-- a test between two outcomes
either :
    (b : Bool) (sc : StateContext) (objects : List Object) (x y : StateContext × List Object)
    → Moved sc objects x.0 x.1
    → Moved sc objects y.0 y.1
    → let r = if b then x else y in Moved sc objects r.0 r.1
either true sc objects x y h g = h
either false sc objects x y h g = g

pub set-Moved :
    (event : ℕ) (sc : StateContext) (objects : List Object)
    → let r = State.set states event sc objects in Moved sc objects r.0 r.1
unfolding State.set set_state
set-Moved event sc objects = go (get_elem? objects sc.state) refl
  where
    go :
        (found : Option Object)
        → get_elem? objects sc.state ≡ found
        → let r = State.set states event sc objects in Moved sc objects r.0 r.1
    go none e = rw (e, set_state) (stayed sc objects)
    go (some (state_init a b)) e =
        rw (e, set_state)
          (either _ sc objects _ _ (marked_entered sc objects _ _ state_ready (ap is_init e) refl)
            (marked sc objects _ _ (ap is_init e)))
    go (some state_ready) e =
        rw (e, set_state)
          (either _ sc objects _ _ (entered sc objects state_computed refl) (stayed sc objects))
    go (some state_computed) e =
        rw (e, set_state)
          (either _ sc objects _ _ (entered sc objects state_ready refl) (stayed sc objects))
