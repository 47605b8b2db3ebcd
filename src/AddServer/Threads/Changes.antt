-- ===== src/AddServer/Threads/Changes.antt =====
-- What a step of a thread of the example server may do to the states: nothing, or one event.
use stdsc.Base.{
  ℕ, ◌+◌, ◌%◌, ◌^◌, ◌≡◌, refl, sym, subst, String, Bool, true, false, Option, none, some, List,
  arith, if◌then◌else◌, ◌==◌, inl,
}
use stdsc.Exec.{
  Exception, callback, Result, ok, throws, running, fault, Exec, ◌>>=◌, and_then, check,
}
use stdsc.System.{System}
use stdsc.Packet.{Bytes, make_data_packet}
use stdsc.Packet.Codec.{encode}
use stdsc.Packet.Groups.{make_data_packet-ok}
use stdsc.Socket.{Socket, send_packet, send_buffer}
use stdsc.State.{StateContext}
use stdsc.State
use stdsc.Callback.{View, nat_eq}
use stdsc.AddServer.State.{
  Object, states, received_value_a, received_value_b, received_compute_request,
  received_result_request,
}
use stdsc.AddServer.Callbacks.{
  value_a, value_b, sum, store, each_bytes, or_fault, require_state, notify, load_member,
  store_member, load_buffer, receive_value_a, receive_value_b, compute, download_result,
  compare_result, send_result, code_data_result, callbacks,
}
use stdsc.AddServer.Callbacks

-- from the first pair to the second
pub data Changes (sc : StateContext) (objects : List Object) (sc' : StateContext)
    (objects' : List Object) : Type 0 where
  untouched : sc' ≡ sc → objects' ≡ objects → Changes sc objects sc' objects'
  raised :
      (event : ℕ)
      → sc' ≡ (State.set states event sc objects).0
      → objects' ≡ (State.set states event sc objects).1
      → Changes sc objects sc' objects'

module _ {S : Type 0} (context : S → StateContext) (objects : S → List Object) where
  -- the outcome of an action that left these states as they were
  pub record Kept {A : Type 0} (sc : StateContext) (os : List Object) (r : Result A × S)
      : Type 0 where
    pub same_context : context r.1 ≡ sc
    pub same_objects : objects r.1 ≡ os

  -- the outcome of one that may have raised an event on them
  pub record Raised {A : Type 0} (sc : StateContext) (os : List Object) (r : Result A × S)
      : Type 0 where
    pub change : Changes sc os (context r.1) (objects r.1)

  pub Kept-Raised :
      {A : Type 0} {sc : StateContext} {os : List Object} {r : Result A × S}
      → Kept sc os r
      → Raised sc os r
  Kept-Raised h = record { change = untouched h.same_context h.same_objects }

  from_same :
      {A : Type 0} {sc sc' : StateContext} {os os' : List Object} {r : Result A × S}
      → sc' ≡ sc
      → os' ≡ os
      → Raised sc' os' r
      → Raised sc os r
  from_same {sc' = sc'} {os = os} {r = r} e f h =
      subst (λ c. Raised c os r) e (subst (λ o. Raised sc' o r) f h)

  pub then-Raised :
      {A B : Type 0} {sc : StateContext} {os : List Object} {r : Result A × S} {f : A → Exec S B}
      → Kept sc os r
      → ((a : A) (s : S) → Raised (context s) (objects s) (f a s))
      → Raised sc os (and_then r.0 f r.1)
  then-Raised {r = (ok a, s)} h g = from_same h.same_context h.same_objects (g a s)
  then-Raised {r = (throws x, s)} h g = record { change = untouched h.same_context h.same_objects }
  then-Raised {r = (running, s)} h g = record { change = untouched h.same_context h.same_objects }
  then-Raised {r = (fault, s)} h g = record { change = untouched h.same_context h.same_objects }

  pub Raised-then :
      {A B : Type 0} {sc : StateContext} {os : List Object} {r : Result A × S} {f : A → Exec S B}
      → Raised sc os r
      → ((a : A) (s : S) → Kept (context s) (objects s) (f a s))
      → Raised sc os (and_then r.0 f r.1)
  Raised-then {sc} {os} {r = (ok a, s)} {f} h g = record {
    change =
        subst (λ c. Changes sc os c (objects (f a s).1)) (sym (g a s).same_context)
          (subst (λ o. Changes sc os (context s) o) (sym (g a s).same_objects) h.change);
  }
  Raised-then {r = (throws x, s)} h g = record { change = h.change }
  Raised-then {r = (running, s)} h g = record { change = h.change }
  Raised-then {r = (fault, s)} h g = record { change = h.change }

module _ {W : Type 0} where
  abbrev pub Keeps : {A : Type 0} → Exec (View W Object) A → Type 0
  Keeps m = (v : View W Object) → Kept (λ v. v.context) (λ v. v.objects) v.context v.objects (m v)

  abbrev pub Raises : {A : Type 0} → Exec (View W Object) A → Type 0
  Raises m =
      (v : View W Object) → Raised (λ v. v.context) (λ v. v.objects) v.context v.objects (m v)

module _ {W : Type 0} where
  check-Keeps :
      (b : Bool) (e : Exception) (v : View W Object)
      → Kept (λ v. v.context) (λ v. v.objects) v.context v.objects (check b e v)
  check-Keeps true e v = record { same_context = refl; same_objects = refl }
  check-Keeps false e v = record { same_context = refl; same_objects = refl }

  or_fault-Keeps :
      {A : Type 0} (x : Option A) (v : View W Object)
      → Kept (λ v. v.context) (λ v. v.objects) v.context v.objects (or_fault x v)
  or_fault-Keeps none v = record { same_context = refl; same_objects = refl }
  or_fault-Keeps (some a) v = record { same_context = refl; same_objects = refl }

  stored-Keeps :
      (found : Option Bytes)
      → Keeps {W = W} (or_fault found >>= λ bytes v. (ok tt, record v { on_each = some bytes }))
  stored-Keeps none v = record { same_context = refl; same_objects = refl }
  stored-Keeps (some bytes) v = record { same_context = refl; same_objects = refl }

  require_state-Keeps : (id : ℕ) (message : String) → Keeps {W = W} (require_state id message)
  require_state-Keeps id message v = check-Keeps _ (callback message) v

  load_buffer-Keeps : (buffer : Bytes) → Keeps {W = W} (load_buffer buffer)
  load_buffer-Keeps buffer v = or_fault-Keeps _ v

  load_member-Keeps : (offset : ℕ) → Keeps {W = W} (load_member offset)
  load_member-Keeps offset v = or_fault-Keeps _ v

  store_member-Keeps : (offset x : ℕ) → Keeps {W = W} (store_member offset x)
  store_member-Keeps offset x v = stored-Keeps (store (each_bytes v.on_each) offset x) v

  notify-Raises : (event : ℕ) → Raises {W = W} (notify event)
  notify-Raises event v = record { change = raised event refl refl }

  pub receive_value_a-Raises : (buffer : Bytes) → Raises {W = W} (receive_value_a buffer)
  unfolding receive_value_a
  receive_value_a-Raises buffer v =
      then-Raised _ _ (require_state-Keeps 1 "Warn: must be connected state to receive valueA." v)
        (λ _ v. then-Raised _ _ (load_buffer-Keeps buffer v) (λ a v.
          then-Raised _ _ (store_member-Keeps value_a a v)
            (λ _ v. notify-Raises received_value_a v)))

  pub receive_value_b-Raises : (buffer : Bytes) → Raises {W = W} (receive_value_b buffer)
  unfolding receive_value_b
  receive_value_b-Raises buffer v =
      then-Raised _ _ (require_state-Keeps 1 "Warn: must be connected state to receive valueB." v)
        (λ _ v. then-Raised _ _ (load_buffer-Keeps buffer v) (λ b v.
          then-Raised _ _ (store_member-Keeps value_b b v)
            (λ _ v. notify-Raises received_value_b v)))

  pub compute-Raises : Raises {W = W} compute
  unfolding compute
  compute-Raises v =
      then-Raised _ _ (require_state-Keeps 2 "Warn: must be connected state to receive valueB." v)
        (λ _ v. then-Raised _ _ (load_member-Keeps value_a v) (λ a v.
          then-Raised _ _ (load_member-Keeps value_b v) (λ b v.
            then-Raised _ _ (store_member-Keeps sum ((a + b) % 2 ^ 32) v)
              (λ _ v. notify-Raises received_compute_request v))))

  result_packet-Keeps : Keeps {W = W} (make_data_packet code_data_result 4)
  result_packet-Keeps v =
      rw (make_data_packet-ok v code_data_result 4 (inl (omega arith)))
        (record { same_context = refl; same_objects = refl })

module _ {W : Type 0} (sys : System W) where
  on_system-Keeps : {A : Type 0} (m : Exec W A) → Keeps {W = W} (Callbacks.on_system sys m)
  on_system-Keeps m v = record { same_context = refl; same_objects = refl }

  send_result-Raises : (s : Socket) (x : ℕ) → Raises {W = W} (send_result sys s x)
  send_result-Raises s x v = then-Raised _ _ (result_packet-Keeps v) (λ packet v.
      then-Raised _ _ (on_system-Keeps (send_packet sys s packet) v) (λ _ v.
        then-Raised _ _ (on_system-Keeps (send_buffer sys s (encode 4 x)) v)
          (λ _ v. notify-Raises received_result_request v)))

  pub download_result-Raises : (s : Socket) → Raises {W = W} (download_result sys s)
  unfolding download_result
  download_result-Raises s v =
      then-Raised _ _ (require_state-Keeps 3 "Warn: must be connected state to receive valueB." v)
        (λ _ v. then-Raised _ _ (load_member-Keeps sum v) (λ x v. send_result-Raises s x v))

  pub compare_result-Raises :
      (buffer : Bytes) (s : Socket) → Raises {W = W} (compare_result sys buffer s)
  unfolding compare_result
  compare_result-Raises buffer s v =
      then-Raised _ _ (require_state-Keeps 3 "Warn: must be connected state to receive valueB." v)
        (λ _ v. then-Raised _ _ (load_buffer-Keeps buffer v) (λ expected v.
          then-Raised _ _ (load_member-Keeps sum v)
            (λ x v. send_result-Raises s (if x == expected then 1 else 0) v)))
