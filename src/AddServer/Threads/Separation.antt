-- ===== src/AddServer/Threads/Separation.antt =====
-- Which state objects the threads of the example server share: the first one, and no other.
use stdsc.Base.{
  ℕ, zero, suc, ◌<◌, ◌≡◌, ◌≢◌, ◌⊎◌, inl, inr, refl, sym, subst, ap, ◌∙◌, Bool, false, List, [], ◌∷◌,
  arith, ◌==◌, length, get_elem?,
}
use stdsc.System.{System}
use stdsc.Packet.{Bytes}
use stdsc.Socket.{Socket}
use stdsc.State.{Pointer, StateContext, current_state}
use stdsc.State
use stdsc.Callback.{View, Container}
use stdsc.Server.Steps.{advance}
use stdsc.Server.Functions.{advance-funcmap}
use stdsc.Server.Threads.{
  Threads, update, session_of, put, start, Step, inside, outside, Reach, started, later,
}
use stdsc.AddServer.State.{Object, state_init, states}
use stdsc.AddServer.Callbacks.{callbacks}
use stdsc.AddServer.Sharing.{set_other}
use stdsc.AddServer.Threads.Changes.{Changes, untouched, raised}
use stdsc.AddServer.Threads.Evaluation.{AllRaise, callbacks-AllRaise, advance-Changes}
use stdsc.AddServer.Threads.Shape.{init_at, Moved, set-Moved}

Changes-Moved :
    {sc sc' : StateContext} {objects objects' : List Object}
    → Changes sc objects sc' objects'
    → Moved sc objects sc' objects'
Changes-Moved (untouched e f) = record {
  inits = λ q. ap (λ os. init_at os q) f;
  pointer = inl (ap (λ c. c.state) e, ap length f);
}
Changes-Moved {sc} {objects = objects} {objects' = objects'} (raised event e f) =
    subst (λ c. Moved sc objects c objects') (sym e)
      (subst (λ os. Moved sc objects (State.set states event sc objects).0 os) (sym f)
        (set-Moved event sc objects))

-- The first object is the only one of the first state; every pointer has an object; and two threads
-- have the same pointer only where it is the first.
pub record Separated {W : Type 0} (t : Threads W Object) : Type 0 where
  pub raises : AllRaise t.container.funcmap
  pub only_first : (q : Pointer) → init_at t.objects q ≡ (q == 0)
  pub in_range : (i : ℕ) → (t.contexts i).state < length t.objects
  pub apart :
      (i j : ℕ) → i ≢ j → (t.contexts i).state ≡ (t.contexts j).state → (t.contexts i).state ≡ 0

one_object : (q : Pointer) → init_at (state_init false false ∷ []) q ≡ (q == 0)
one_object zero = refl
one_object (suc q) = ground arith

-- a server with these callbacks, whose first state has received nothing
abbrev pub serving_with : {W : Type 0} → Container (View W Object) → W → Threads W Object
serving_with c w = start w (record { state = 0 }) (state_init false false ∷ []) c

-- the server of `run`; `param` is the memory of its CallbackParam
abbrev pub serving : {W : Type 0} → System W → Bytes → W → Threads W Object
serving sys param w = serving_with (callbacks sys param) w

pub serving_with-Separated :
    {W : Type 0} (c : Container (View W Object)) (w : W)
    → AllRaise c.funcmap
    → Separated (serving_with c w)
serving_with-Separated c w h = record {
  raises = h;
  only_first = one_object;
  in_range = λ i. omega arith;
  apart = λ i j n e. refl;
}

module _ (contexts : ℕ → StateContext) (objects objects' : List Object) (sc' : StateContext) (i : ℕ)
    (moved : Moved (contexts i) objects sc' objects') where
  where_from :
      (j : ℕ)
      → ((update contexts i sc' j).state ≡ (contexts j).state)
        ⊎ (((update contexts i sc' j).state ≡ sc'.state) × (j ≡ i))
  where_from j = ground arith

  update-in_range :
      ((j : ℕ) → (contexts j).state < length objects)
      → (j : ℕ) → (update contexts i sc' j).state < length objects'
  update-in_range h j = elim moved.pointer [
    | inl (e, f) ↦ ground (arith, e, f, h i, h j)
    | inr (e, f) ↦ ground (arith, e, f, h i, h j)
  ]

  update-apart :
      ((j : ℕ) → (contexts j).state < length objects)
      → ((j k : ℕ) → j ≢ k → (contexts j).state ≡ (contexts k).state → (contexts j).state ≡ 0)
      → (j k : ℕ) → j ≢ k
      → (update contexts i sc' j).state ≡ (update contexts i sc' k).state
      → (update contexts i sc' j).state ≡ 0
  update-apart h g j k n same = elim (where_from j) [
    | inl a ↦ elim (where_from k) [
      | inl b ↦ a ∙ g j k n (sym a ∙ same ∙ b)
      | inr (b, f) ↦ elim moved.pointer [
        | inl (e, _) ↦ a ∙ g j k n (sym a ∙ same ∙ b ∙ e ∙ ap (λ i. (contexts i).state) (sym f))
        | inr (e, _) ↦ absurd (omega (arith, a, b, e, same, h j))
      ]
    ]
    | inr (a, d) ↦ elim (where_from k) [
      | inl b ↦ elim moved.pointer [
        | inl (e, _) ↦
            let there : (update contexts i sc' j).state ≡ (contexts j).state =
              a ∙ e ∙ ap (λ i. (contexts i).state) (sym d) in
            there ∙ g j k n (sym there ∙ same ∙ b)
        | inr (e, _) ↦ absurd (omega (arith, a, b, e, same, h k))
      ]
      | inr (b, f) ↦ absurd (n (d ∙ sym f))
    ]
  ]

pub elsewhere :
    (contexts : ℕ → StateContext) (sc' : StateContext) (i j : ℕ)
    → i ≢ j
    → update contexts i sc' j ≡ contexts j
elsewhere contexts sc' i j n = ground (arith, n)

module _ {W : Type 0} (sys : System W) (sockets : ℕ → Socket) where
  pub put-Separated :
      (t : Threads W Object) (i : ℕ) (flag : Bool)
      → Separated t
      → Separated (put t i (advance sys (sockets i) flag (t.pcs i, session_of t i)))
  put-Separated t i flag h =
      let r = advance sys (sockets i) flag (t.pcs i, session_of t i) in
      let same = advance-funcmap sys (sockets i) flag (t.pcs i) (session_of t i) in
      let moved =
        Changes-Moved (advance-Changes sys (sockets i) flag (t.pcs i) (session_of t i) h.raises) in
      record {
        raises = subst AllRaise (sym same) h.raises;
        only_first = λ q. moved.inits q ∙ h.only_first q;
        in_range = update-in_range t.contexts t.objects r.1.objects r.1.context i moved h.in_range;
        apart =
            update-apart t.contexts t.objects r.1.objects r.1.context i moved h.in_range h.apart;
      }

  Step-Separated : {t u : Threads W Object} → Step sys sockets t u → Separated t → Separated u
  Step-Separated (inside i flag) h = put-Separated _ i flag h
  Step-Separated (outside w) h = record {
    raises = h.raises;
    only_first = h.only_first;
    in_range = h.in_range;
    apart = h.apart;
  }

  -- In every state that any interleaving of steps of the connections' threads reaches from the start
  -- of the example server, with any number of connections, any system and any changes of the system
  -- between the steps: every context points to a state object, the first object is the only one of
  -- the class StateInit, and two different threads point to the same object only where it is the
  -- first; every callback that is registered raises one event at most.
  pub Reach-Separated :
      (w : W) (param : Bytes)
      → {t : Threads W Object} → Reach sys sockets (serving sys param w) t
      → Separated t
  Reach-Separated w param started =
      serving_with-Separated (callbacks sys param) w (callbacks-AllRaise sys param)
  Reach-Separated w param (later before step) = Step-Separated step (Reach-Separated w param before)

  pub Changes-other :
      {sc sc' : StateContext} {objects objects' : List Object} (q : Pointer)
      → Changes sc objects sc' objects'
      → q ≢ sc.state
      → q < length objects
      → get_elem? objects' q ≡ get_elem? objects q
  Changes-other q (untouched e f) n h = ap (λ os. get_elem? os q) f
  Changes-other {sc} {objects = objects} q (raised event e f) n h =
      ap (λ os. get_elem? os q) f ∙ set_other event sc objects q n h
