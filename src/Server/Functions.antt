-- ===== src/Server/Functions.antt =====
-- What a step of a thread leaves in the container, which the threads share: the functions and the
-- initial common data as they were, and with them the common data of the other connections.
use stdsc.Base.{ℕ, ◌≡◌, ◌≢◌, refl, ap, ◌∙◌, Bool, true, false, List}
use stdsc.Base.Assoc.{lookup}
use stdsc.Exec.{
  socket, invariant, callback, reject, failure, file, inv_param, Result, ok, throws, running, fault,
  Exec, ◌>>◌, and_then,
}
use stdsc.System.{System}
use stdsc.Packet.{Packet, make_packet}
use stdsc.Packet.ControlCode
use stdsc.Socket.{Socket, send_packet}
use stdsc.Callback.{View, Container, CallbackFunction, Session, cint_eq, eval, register_connection}
use stdsc.Callback.CommonData.{eval_other}
use stdsc.Server.{on_world, catch_callback, answer}
use stdsc.Server.Steps.{Pc, waiting, answering, done, advance}

module _ {W Object : Type 0} (sys : System W) (s : Socket) where
  abbrev functions : Session W Object → List (ℕ × CallbackFunction (View W Object))
  functions ses = ses.container.funcmap

  eval-funcmap :
      (p : Packet) (ses : Session W Object) → functions (eval sys s p ses).1 ≡ functions ses
  unfolding eval register_connection
  eval-funcmap p ses = refl

  eval-cdata_on_each :
      (p : Packet) (ses : Session W Object)
      → (eval sys s p ses).1.container.cdata_on_each ≡ ses.container.cdata_on_each
  unfolding eval register_connection
  eval-cdata_on_each p ses = refl

  then-container :
      (m : Exec W (Unit {0})) (r : Result (Unit {0}) × Session W Object)
      → (and_then r.0 (λ _. on_world sys s m) r.1).1.container ≡ r.1.container
  then-container m (ok _, t) = refl
  then-container m (throws e, t) = refl
  then-container m (running, t) = refl
  then-container m (fault, t) = refl

  caught-container :
      (m : Exec W (Unit {0})) (r : Result (Unit {0}) × Session W Object)
      → (catch_callback (on_world sys s m) r).1.container ≡ r.1.container
  caught-container m (ok _, t) = refl
  caught-container m (throws (callback message), t) = refl
  caught-container m (throws (socket message code), t) = refl
  caught-container m (throws (invariant message), t) = refl
  caught-container m (throws (reject message), t) = refl
  caught-container m (throws (failure message), t) = refl
  caught-container m (throws (file message), t) = refl
  caught-container m (throws (inv_param message), t) = refl
  caught-container m (running, t) = refl
  caught-container m (fault, t) = refl

  -- Only the evaluation writes to the container.
  answer-container :
      (p : Packet) (ses : Session W Object)
      → (answer sys s p ses).1.container ≡ (eval sys s p ses).1.container
  unfolding answer
  answer-container p ses =
      caught-container (send_packet sys s (make_packet ControlCode.reject))
        ((eval sys s p >> on_world sys s (send_packet sys s (make_packet ControlCode.accept))) ses)
      ∙ then-container (send_packet sys s (make_packet ControlCode.accept)) (eval sys s p ses)

  module _ {A : Type 0} (f : Container (View W Object) → A)
      (kept : (p : Packet) (ses : Session W Object)
        → f (eval sys s p ses).1.container ≡ f ses.container) where
    advance_kept :
        (flag : Bool) (pc : Pc) (ses : Session W Object)
        → f (advance sys s flag (pc, ses)).1.container ≡ f ses.container
    unfolding advance
    advance_kept true waiting ses = refl
    advance_kept false waiting ses = refl
    advance_kept true (answering p) ses = ap f (answer-container p ses) ∙ kept p ses
    advance_kept false (answering p) ses = ap f (answer-container p ses) ∙ kept p ses
    advance_kept true (done r e) ses = refl
    advance_kept false (done r e) ses = refl

  pub advance-funcmap :
      (flag : Bool) (pc : Pc) (ses : Session W Object)
      → (advance sys s flag (pc, ses)).1.container.funcmap ≡ ses.container.funcmap
  advance-funcmap = advance_kept (λ c. c.funcmap) eval-funcmap

  pub advance-cdata_on_each :
      (flag : Bool) (pc : Pc) (ses : Session W Object)
      → (advance sys s flag (pc, ses)).1.container.cdata_on_each ≡ ses.container.cdata_on_each
  advance-cdata_on_each = advance_kept (λ c. c.cdata_on_each) eval-cdata_on_each

  -- A step of one connection's thread leaves the common data of another as they were.
  pub advance_other :
      (t : Socket)
      → t ≢ s
      → (flag : Bool) (pc : Pc) (ses : Session W Object)
      → lookup t (advance sys s flag (pc, ses)).1.container.cdatamap
        ≡ lookup t ses.container.cdatamap
  advance_other t n = advance_kept (λ c. lookup t c.cdatamap) (λ p ses. eval_other sys s p ses t n)
