-- ===== src/AddServer/Threads/Standing.antt =====
-- A connection of the example server whose client keeps the protocol, among any others: where it
-- stands between the steps of the threads, and that the steps of the others leave it there.
use stdsc.Base.{
  ℕ, ◌+◌, ◌%◌, ◌^◌, ◌≡◌, ◌≢◌, refl, sym, ap, ◌∙◌, Bool, true, false, some, List, arith, length,
  get_elem?,
}
use stdsc.System.{System}
use stdsc.Packet.{Bytes}
use stdsc.Socket.{Socket}
use stdsc.Socket.Frame.{Untouched}
use stdsc.State.{Pointer}
use stdsc.Server.Steps.{Pc, advance}
use stdsc.Callback.Registered.{AllDo}
use stdsc.Exec.Preserving.{Preserves}
use stdsc.Callback.{View, CallbackFunction}
use stdsc.Server.Frame.{OnView, advance-keeps}
use stdsc.Server.Functions.{advance-funcmap}
use stdsc.Server.Threads.{Threads, session_of, put}
use stdsc.AddServer.State.{
  Object, state_init, state_ready, state_computed, received_value_a, received_value_b,
  received_compute_request,
}
use stdsc.AddServer.Sharing.{follow}
use stdsc.AddServer.Callbacks.{load, value_a, value_b, sum}
use stdsc.AddServer.Protocol.Serving.{At}
use stdsc.AddServer.Threads.Changes.{Changes}
use stdsc.AddServer.Threads.Evaluation.{advance-Changes}
use stdsc.AddServer.Threads.Shape.{is_init}
use stdsc.AddServer.Threads.Separation.{Separated, put-Separated, Changes-other, elsewhere}
use stdsc.AddServer.Threads.Others.{Changes-Grown, each_pointer-advance}

-- How much of the protocol the server has answered.
pub data Phase : Type 0 where
  started has_a has_both has_sum : Phase

-- The states that a connection may then be in. The first one is shared, so that the values of other
-- connections may have set its flags.
pub data Allowed : Phase → Object → Type 0 where
  fresh : (x y : Bool) → Allowed started (state_init x y)
  half : (x y : Bool) → x ≡ true → Allowed has_a (state_init x y)
  early : Allowed has_a state_ready
  both : Allowed has_both state_ready
  summed : Allowed has_sum state_computed

pub Allowed-a : {o : Object} → Allowed started o → Allowed has_a (follow o received_value_a)
unfolding follow
Allowed-a (fresh true true) = early
Allowed-a (fresh true false) = half true false refl
Allowed-a (fresh false true) = early
Allowed-a (fresh false false) = half true false refl

pub Allowed-b : {o : Object} → Allowed has_a o → Allowed has_both (follow o received_value_b)
unfolding follow
Allowed-b (half true true e) = both
Allowed-b (half true false e) = both
Allowed-b (half false y e) = cc
Allowed-b early = both

pub Allowed-sum :
    {o : Object} → Allowed has_both o → Allowed has_sum (follow o received_compute_request)
unfolding follow
Allowed-sum both = summed

-- What the connection's data then hold, for the values a and b.
abbrev pub Stored : ℕ → ℕ → Phase → Bytes → Type 0
Stored a b started bytes = length bytes ≡ 12
Stored a b has_a bytes = (length bytes ≡ 12) × (load bytes value_a ≡ some a)
Stored a b has_both bytes =
    (length bytes ≡ 12) × (load bytes value_a ≡ some a) × (load bytes value_b ≡ some b)
Stored a b has_sum bytes = load bytes sum ≡ some ((a + b) % 2 ^ 32)

-- A state that was allowed, after a step of another thread.
pub record StillAllowed (phase : Phase) (objects : List Object) (q : Pointer) : Type 0 where
  pub object : Object
  pub there : get_elem? objects q ≡ some object
  pub allowed : Allowed phase object

-- a step of thread j
abbrev pub moved_on :
    {W : Type 0} → System W → (ℕ → Socket) → ℕ → Bool → Threads W Object → Threads W Object
moved_on sys sockets j flag t = put t j (advance sys (sockets j) flag (t.pcs j, session_of t j))

module _ {W : Type 0} (sys : System W) (sockets : ℕ → Socket) (i j : ℕ) (other : i ≢ j) where
  module _ (t : Threads W Object) (flag : Bool) (h : Separated t) where
    changes :
        Changes
          (t.contexts j)
          t.objects
          (advance sys (sockets j) flag (t.pcs j, session_of t j)).1.context
          (moved_on sys sockets j flag t).objects
    changes = advance-Changes sys (sockets j) flag (t.pcs j) (session_of t j) h.raises

    past_unchanged :
        {o : Object}
        → get_elem? t.objects (t.contexts i).state ≡ some o
        → is_init (some o) ≡ false
        → get_elem? (moved_on sys sockets j flag t).objects (t.contexts i).state ≡ some o
    past_unchanged found past =
        let away : (t.contexts i).state ≢ 0 =
          λ e. absurd (ground (arith, h.only_first (t.contexts i).state, found, past, e)) in
        Changes-other sys sockets (t.contexts i).state changes (λ e. away (h.apart i j other e))
          (h.in_range i)
        ∙ found

    still_allowed :
        {phase : Phase} {o : Object}
        → Allowed phase o
        → get_elem? t.objects (t.contexts i).state ≡ some o
        → StillAllowed phase (moved_on sys sockets j flag t).objects (t.contexts i).state
    still_allowed (fresh x y) found =
        let g = Changes-Grown (t.contexts i).state x y changes found in
        record {
          object = state_init g.flag_a g.flag_b;
          there = g.here;
          allowed = fresh g.flag_a g.flag_b;
        }
    still_allowed (half x y e) found =
        let g = Changes-Grown (t.contexts i).state x y changes found in
        record {
          object = state_init g.flag_a g.flag_b;
          there = g.here;
          allowed = half g.flag_a g.flag_b (g.kept e);
        }
    still_allowed early found = record {
      object = state_ready;
      there = past_unchanged found refl;
      allowed = early;
    }
    still_allowed both found = record {
      object = state_ready;
      there = past_unchanged found refl;
      allowed = both;
    }
    still_allowed summed found = record {
      object = state_computed;
      there = past_unchanged found refl;
      allowed = summed;
    }

module _ {W : Type 0} (sys : System W) (sockets : ℕ → Socket) (i : ℕ)
    (conn : W → Bytes → Bytes → Type 0) (a b : ℕ)
    (table : List (ℕ × CallbackFunction (View W Object))) where
  -- Thread i is at this point, with these bytes to come and these sent; its data and its state are
  -- what the protocol says.
  pub record Stands (phase : Phase) (pc : Pc) (inc out : Bytes) (t : Threads W Object)
      : Type 0 where
    pub separated : Separated t
    pub at_pc : t.pcs i ≡ pc
    pub wire : conn t.world inc out
    pub object : Object
    pub bytes : Bytes
    pub allowed : Allowed phase object
    pub stored : Stored a b phase bytes
    pub at : At sys (sockets i) table object bytes (t.contexts i) t.objects t.container

  -- A step of another thread, on another descriptor, leaves it there.
  pub other-Stands :
      (j : ℕ)
      → i ≢ j
      → sockets i ≢ sockets j
      → ((inc out : Bytes) → Untouched sys (sockets j) (λ w. conn w inc out))
      → ((P : W → Type 0)
          → Untouched sys (sockets j) P
          → AllDo (Preserves (OnView P)) (sockets j) table)
      → {phase : Phase} {pc : Pc} {inc out : Bytes} (flag : Bool) (t : Threads W Object)
      → Stands phase pc inc out t
      → Stands phase pc inc out (moved_on sys sockets j flag t)
  other-Stands j n m frame keeps {inc = inc} {out} flag t h =
      let r = advance sys (sockets j) flag (t.pcs j, session_of t j) in
      let same_context = elsewhere t.contexts r.1.context j i (λ e. n (sym e)) in
      let still = still_allowed sys sockets i j n t flag h.separated h.allowed h.at.found in
      record {
        separated = put-Separated sys sockets t j flag h.separated;
        at_pc = ground (arith, h.at_pc, n);
        wire =
            advance-keeps sys (sockets j) (λ w. conn w inc out) (frame inc out) table
              (keeps (λ w. conn w inc out) (frame inc out)) flag (t.pcs j) (session_of t j)
              h.at.functions h.wire;
        object = still.object;
        bytes = h.bytes;
        allowed = still.allowed;
        stored = h.stored;
        at = record {
          found = ap (λ c. get_elem? r.1.objects c.state) same_context ∙ still.there;
          functions =
              advance-funcmap sys (sockets j) flag (t.pcs j) (session_of t j) ∙ h.at.functions;
          pointer =
              each_pointer-advance sys (sockets j) (sockets i) m flag (t.pcs j) (session_of t j)
              ∙ h.at.pointer;
        };
      }
