-- ===== src/AddServer/Threads/Evaluation.antt =====
-- A step of a thread of the example server, from the callbacks up to the loop.
use stdsc.Base.{ℕ, refl, Bool, true, false, List}
use stdsc.Base.Assoc.{emplace}
use stdsc.Exec.{
  socket, invariant, callback, reject, failure, file, inv_param, Result, ok, throws, running, fault,
  Exec, ◌>>=◌, ◌>>◌,
}
use stdsc.System.{System}
use stdsc.Packet.{Bytes, Packet, make_packet}
use stdsc.Packet.ControlCode
use stdsc.Socket.{Socket, send_packet}
use stdsc.Callback.{
  View, CallbackFunction, Session, nat_eq, receive, eval, register_connection, open_view,
}
use stdsc.Callback
use stdsc.Callback.Registered.{
  AllDo, data_class-Does, request_class-Does, download_class-Does, dispatch_lem,
}
use stdsc.Server.{on_world, catch_callback, answer}
use stdsc.Server.Steps.{Pc, waiting, answering, done, advance}
use stdsc.AddServer.State.{Object}
use stdsc.AddServer.Callbacks.{callbacks}
use stdsc.AddServer.Threads.Changes.{
  Changes, untouched, Kept, Raised, then-Raised, Raised-then, Raises, Keeps, receive_value_a-Raises,
  receive_value_b-Raises, compute-Raises, download_result-Raises,
}

-- Functions whose callbacks raise one event at most, for whatever socket they are called.
abbrev pub AllRaise : {W : Type 0} → List (ℕ × CallbackFunction (View W Object)) → Type 0
AllRaise {W} m = (s : Socket) → AllDo (Raises {W = W}) s m

module _ {W : Type 0} where
  pub pure-Raises : Raises {W = W} (λ v. (ok tt, v))
  pure-Raises v = record { change = untouched refl refl }

  received-Keeps :
      (r : Result (Unit {0}) × Bytes × W)
      → (v : View W Object)
      → Kept (λ v. v.context) (λ v. v.objects) v.context v.objects (Callback.received r v)
  received-Keeps (ok _, buffer, w) v = record { same_context = refl; same_objects = refl }
  received-Keeps (throws e, buffer, w) v = record { same_context = refl; same_objects = refl }
  received-Keeps (running, buffer, w) v = record { same_context = refl; same_objects = refl }
  received-Keeps (fault, buffer, w) v = record { same_context = refl; same_objects = refl }

module _ {W : Type 0} (sys : System W) (s : Socket) where
  receive-Keeps : (size : ℕ) → Keeps {W = W} (receive sys s size)
  unfolding receive
  receive-Keeps size v = received-Keeps _ v

  then_receive-Raises :
      (size : ℕ) (f : Bytes → Exec (View W Object) (Unit {0}))
      → ((buffer : Bytes) → Raises (f buffer))
      → Raises (receive sys s size >>= f)
  then_receive-Raises size f h v = then-Raised _ _ (receive-Keeps size v) h

pub callbacks-AllRaise :
    {W : Type 0} (sys : System W) (param : Bytes) → AllRaise (callbacks sys param).funcmap
unfolding callbacks emplace
callbacks-AllRaise sys param s = (
  data_class-Does Raises pure-Raises s _ (λ code. receive_value_a-Raises),
  (
    data_class-Does Raises pure-Raises s _ (λ code. receive_value_b-Raises),
    (
      request_class-Does Raises pure-Raises s _ (λ code. compute-Raises),
      (download_class-Does Raises pure-Raises s _ (λ code. download_result-Raises sys s), tt),
    ),
  ),
)

module _ {W : Type 0} (sys : System W) (s : Socket) where
  abbrev Leaves : Session W Object → Result (Unit {0}) × Session W Object → Type 0
  Leaves ses = Raised (λ t. t.context) (λ t. t.objects) ses.context ses.objects

  eval-Raises :
      (p : Packet) (ses : Session W Object)
      → AllRaise ses.container.funcmap
      → Leaves ses (eval sys s p ses)
  unfolding eval register_connection
  eval-Raises p ses h =
      let c = register_connection s ses.container in
      record {
        change =
            (dispatch_lem Raises pure-Raises s sys (then_receive-Raises sys s) p p.control_code
              ses.container.funcmap (h s) (open_view s (record ses { container = c }))).change;
      }

  caught-Raises :
      (m : Exec W (Unit {0})) (ses : Session W Object) (r : Result (Unit {0}) × Session W Object)
      → Leaves ses r
      → Leaves ses (catch_callback (on_world sys s m) r)
  caught-Raises m ses (ok _, t) h = record { change = h.change }
  caught-Raises m ses (throws (callback message), t) h = record { change = h.change }
  caught-Raises m ses (throws (socket message code), t) h = record { change = h.change }
  caught-Raises m ses (throws (invariant message), t) h = record { change = h.change }
  caught-Raises m ses (throws (reject message), t) h = record { change = h.change }
  caught-Raises m ses (throws (failure message), t) h = record { change = h.change }
  caught-Raises m ses (throws (file message), t) h = record { change = h.change }
  caught-Raises m ses (throws (inv_param message), t) h = record { change = h.change }
  caught-Raises m ses (running, t) h = record { change = h.change }
  caught-Raises m ses (fault, t) h = record { change = h.change }

  answer-Raises :
      (p : Packet) (ses : Session W Object)
      → AllRaise ses.container.funcmap
      → Leaves ses (answer sys s p ses)
  unfolding answer
  answer-Raises p ses h =
      caught-Raises (send_packet sys s (make_packet ControlCode.reject)) ses
        ((eval sys s p >> on_world sys s (send_packet sys s (make_packet ControlCode.accept))) ses)
        (Raised-then _ _ (eval-Raises p ses h)
          (λ _ t. record { same_context = refl; same_objects = refl }))

  -- A step of the thread raises one event at most.
  pub advance-Changes :
      (flag : Bool) (pc : Pc) (ses : Session W Object)
      → AllRaise ses.container.funcmap
      → let r = advance sys s flag (pc, ses) in
        Changes ses.context ses.objects r.1.context r.1.objects
  unfolding advance
  advance-Changes true waiting ses h = untouched refl refl
  advance-Changes false waiting ses h = untouched refl refl
  advance-Changes true (answering p) ses h = (answer-Raises p ses h).change
  advance-Changes false (answering p) ses h = (answer-Raises p ses h).change
  advance-Changes true (done r e) ses h = untouched refl refl
  advance-Changes false (done r e) ses h = untouched refl refl
