-- ===== src/AddServer/Sharing.antt =====
-- The state machine of the example server: what one connection sees, and what two connections that
-- share the first state see.
use stdsc.Base.{
  ℕ, zero, suc, ◌<◌, ◌≡◌, ◌≢◌, ◌⊎◌, refl, sym, subst, ◌∙◌, Bool, true, false, ◌&&◌, ◌||◌, List, [],
  ◌∷◌, ◌++◌, Option, none, some, arith, ◌==◌, if◌then◌else◌, length, length-set, get_elem?, set,
  get_elem?-append, get_elem?-append_old, get_elem?-set_self, get_elem?-set_ne,
}
use stdsc.Base.Int.{pos, ltb_ℤ}
use stdsc.State.{Pointer, StateContext, current_state}
use stdsc.State
use stdsc.AddServer.State.{
  Object, state_init, state_ready, state_computed, state_id, states, set_state, received_value_a,
  received_value_b, received_compute_request,
}

-- The machine without a store: the state that follows an event.
unfoldable pub follow : Object → ℕ → Object
follow (state_init a b) event =
    let a' = a || (event == received_value_a) in
    let b' = b || (event == received_value_b) in if a' && b' then state_ready else state_init a' b'
follow state_ready event = if event == received_compute_request then state_computed else state_ready
follow state_computed event =
    if (event == received_value_a) || (event == received_value_b)
    then state_ready
    else state_computed

pub in_range : {A : Type 0} (xs : List A) (i : ℕ) {x : A} → get_elem? xs i ≡ some x → i < length xs
in_range [] i h = cc
in_range (y ∷ xs) zero h = omega arith
in_range (y ∷ xs) (suc i) h = omega (arith, in_range xs i h)

-- An event that is raised on a context leads from the state behind its pointer to the one that the
-- machine without a store follows it by.
pub set-follow :
    (event : ℕ) (sc : StateContext) (objects : List Object) {o : Object}
    → get_elem? objects sc.state ≡ some o
    → let r = State.set states event sc objects in get_elem? r.1 r.0.state ≡ some (follow o event)
unfolding State.set set_state follow
set-follow event sc objects {o = state_init a b} h =
    let objects' =
      set objects sc.state
        (state_init (a || (event == received_value_a)) (b || (event == received_value_b))) in
    ground (
      arith,
      in_range objects sc.state h,
      get_elem?-append objects' state_ready,
      get_elem?-set_self objects sc.state
          (state_init (a || (event == received_value_a)) (b || (event == received_value_b))),
    )
set-follow event sc objects {o = state_ready} h =
    ground (arith, get_elem?-append objects state_computed)
set-follow event sc objects {o = state_computed} h =
    ground (arith, get_elem?-append objects state_ready)

-- An event on a context leaves the state objects behind all other pointers as they were.
pub set_other :
    (event : ℕ) (sc : StateContext) (objects : List Object) (q : Pointer)
    → q ≢ sc.state
    → q < length objects
    → get_elem? (State.set states event sc objects).1 q ≡ get_elem? objects q
unfolding State.set set_state
set_other event sc objects q n h = go (get_elem? objects sc.state) refl
  where
    go :
        (found : Option Object)
        → get_elem? objects sc.state ≡ found
        → get_elem? (State.set states event sc objects).1 q ≡ get_elem? objects q
    go none e = rw (e, set_state)
    go (some (state_init a b)) e =
        let o = state_init (a || (event == received_value_a)) (b || (event == received_value_b)) in
        ground (
          arith,
          e,
          length-set objects sc.state o,
          get_elem?-set_ne objects sc.state q o (λ x. n (sym x)),
          get_elem?-append_old (set objects sc.state o) state_ready q,
        )
    go (some state_ready) e = ground (arith, e, get_elem?-append_old objects state_computed q)
    go (some state_computed) e = ground (arith, e, get_elem?-append_old objects state_ready q)

-- the events of one context, in turn
unfoldable pub set_all : List ℕ → StateContext → List Object → StateContext × List Object
set_all [] sc objects = (sc, objects)
set_all (event ∷ rest) sc objects =
    let (sc', objects') = State.set states event sc objects in set_all rest sc' objects'

follow_all : Object → List ℕ → Object
follow_all o [] = o
follow_all o (event ∷ rest) = follow_all (follow o event) rest

abbrev pub seen : ℕ → List ℕ → Bool
seen event [] = false
seen event (e ∷ rest) = (e == event) || seen event rest

set_all-follow_all :
    (events : List ℕ) (sc : StateContext) (objects : List Object) {o : Object}
    → get_elem? objects sc.state ≡ some o
    → let r = set_all events sc objects in get_elem? r.1 r.0.state ≡ some (follow_all o events)
unfolding set_all follow_all
set_all-follow_all [] sc objects h = h
set_all-follow_all (event ∷ rest) sc objects h =
    let r = State.set states event sc objects in
    set_all-follow_all rest r.0 r.1 (set-follow event sc objects h)

abbrev past_init : Object → Bool
past_init (state_init a b) = false
past_init _ = true

past_init-follow_all :
    (o : Object) (events : List ℕ) → past_init o ≡ true → past_init (follow_all o events) ≡ true
unfolding follow_all follow
past_init-follow_all o [] h = h
past_init-follow_all o (e ∷ es) h = past_init-follow_all (follow o e) es (ground arith)

follow_all-seen :
    (a b : Bool) (events : List ℕ)
    → past_init (follow_all (state_init a b) events)
        ≡ ((a || seen received_value_a events) && (b || seen received_value_b events))
      ⊎ (a && b ≡ true)
unfolding follow_all follow
follow_all-seen a b [] = ground arith
follow_all-seen a b (e ∷ es) = ground (
  arith,
  past_init-follow_all state_ready es refl,
  follow_all-seen (a || (e == received_value_a)) (b || (e == received_value_b)) es,
)

past_init_id : (o : Object) → ltb_ℤ (pos 1) (state_id o) ≡ past_init o
past_init_id (state_init a b) = refl
past_init_id state_ready = refl
past_init_id state_computed = refl

-- A context whose first state no other context shares is past that state after any sequence of
-- events exactly when both values have been received.
pub current_state-set_all :
    (events : List ℕ) (sc : StateContext) (objects : List Object)
    → get_elem? objects sc.state ≡ some (state_init false false)
    → let r = set_all events sc objects in
      ltb_ℤ (pos 1) (current_state states r.0 r.1)
      ≡ (seen received_value_a events && seen received_value_b events)
unfolding current_state
current_state-set_all events sc objects h =
    let found = set_all-follow_all events sc objects h in
    rw (found, current_state)
      (past_init_id (follow_all (state_init false false) events)
        ∙ ground (arith, follow_all-seen false false events))

set_first_value :
    (sc : StateContext) (objects : List Object)
    → get_elem? objects sc.state ≡ some (state_init false false)
    → State.set states received_value_a sc objects
      ≡ (sc, set objects sc.state (state_init true false))
unfolding State.set set_state
set_first_value sc objects h = ground (arith, h)

set_second_value :
    (sc : StateContext) (objects : List Object)
    → get_elem? objects sc.state ≡ some (state_init true false)
    → (State.set states received_value_b sc objects).1
      ≡ set objects sc.state (state_init true true) ++ state_ready ∷ []
unfolding State.set set_state
set_second_value sc objects h = ground (arith, h)

-- Two contexts that are copies of one, whose first state has received nothing: when the first
-- receives value A only and then the second value B only, the second is in the state Ready, and the
-- first still in the first state.
pub copies_share_state :
    (sc₁ sc₂ : StateContext) (objects : List Object)
    → sc₂.state ≡ sc₁.state
    → get_elem? objects sc₁.state ≡ some (state_init false false)
    → let r₁ = State.set states received_value_a sc₁ objects in
      let r₂ = State.set states received_value_b sc₂ r₁.1 in
      (current_state states r₂.0 r₂.1 ≡ pos 2) × (current_state states r₁.0 r₂.1 ≡ pos 1)
unfolding current_state follow
copies_share_state sc₁ sc₂ objects e h =
    let here = in_range objects sc₁.state h in
    let half = set objects sc₁.state (state_init true false) in
    let full = set half sc₂.state (state_init true true) in
    let there : get_elem? half sc₂.state ≡ some (state_init true false) =
      rw e (get_elem?-set_self objects sc₁.state (state_init true false) here) in
    let old : get_elem? (full ++ state_ready ∷ []) sc₁.state ≡ some (state_init true true) =
      subst (λ i. get_elem? (full ++ state_ready ∷ []) i ≡ some (state_init true true)) e
        (get_elem?-append_old full state_ready sc₂.state (
            omega (
              arith,
              in_range half sc₂.state there,
              length-set half sc₂.state (state_init true true),
            ))
          ∙ get_elem?-set_self half sc₂.state (state_init true true)
              (in_range half sc₂.state there)) in
    rw (set_first_value sc₁ objects h) (
      rw (set-follow received_value_b sc₂ half there, current_state) refl,
      rw (set_second_value sc₂ half there, old, current_state) refl,
    )
