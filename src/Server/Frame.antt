-- ===== src/Server/Frame.antt =====
-- What a step of a connection's thread leaves alone in the system: whatever the calls on its socket
-- keep, if the registered functions keep it.
use stdsc.Base.{ℕ, ◌≡◌, sym, subst, Bool, true, false, List, replicate}
use stdsc.Exec.{
  socket, invariant, callback, reject, failure, file, inv_param, Result, ok, throws, running, fault,
  Exec,
}
use stdsc.Exec.Preserving.{Preserves, >>=-Preserves, and_then-Preserves, same-Preserves}
use stdsc.System.{System}
use stdsc.Packet.{Bytes, Packet, new_packet, make_packet}
use stdsc.Packet.ControlCode
use stdsc.Socket.{Socket, time_infinite}
use stdsc.Socket.Frame.{Untouched, send_packet-Preserves, recv_packet-Preserves, recv_buffer-keeps}
use stdsc.Callback.{View, CallbackFunction, Session, receive, eval, register_connection, open_view}
use stdsc.Callback
use stdsc.Callback.Registered.{AllDo, dispatch_lem}
use stdsc.Server.{on_world, catch_callback, answer}
use stdsc.Server.Steps.{Pc, waiting, answering, done, advance}

module _ {W Object : Type 0} (P : W → Type 0) where
  abbrev pub OnView : View W Object → Type 0
  OnView v = P v.world

  abbrev OnSession : Session W Object → Type 0
  OnSession ses = P ses.world

module _ {W Object : Type 0} (sys : System W) (s : Socket) (P : W → Type 0)
    (frame : Untouched sys s P) where
  received-keeps :
      (r : Result (Unit {0}) × Bytes × W) (v : View W Object)
      → P r.2
      → P (Callback.received r v).1.world
  received-keeps (ok _, buffer, w) v p = p
  received-keeps (throws e, buffer, w) v p = p
  received-keeps (running, buffer, w) v p = p
  received-keeps (fault, buffer, w) v p = p

  receive-Preserves : (size : ℕ) → Preserves (OnView {Object = Object} P) (receive sys s size)
  unfolding receive
  receive-Preserves size = record {
    after = λ v p.
        received-keeps _ v
          (recv_buffer-keeps sys s P frame (replicate size 0) time_infinite v.world p);
  }

  on_world-Preserves :
      {A : Type 0} {m : Exec W A}
      → Preserves P m
      → Preserves (OnSession {Object = Object} P) (on_world sys s m)
  on_world-Preserves h = record { after = λ ses p. h.after ses.world p }

  module _ (table : List (ℕ × CallbackFunction (View W Object)))
      (all : AllDo (Preserves (OnView {Object = Object} P)) s table) where
    eval-keeps :
        (p : Packet) (ses : Session W Object)
        → ses.container.funcmap ≡ table
        → P ses.world
        → P (eval sys s p ses).1.world
    unfolding eval register_connection
    eval-keeps p ses e h =
        let c = register_connection s ses.container in
        (dispatch_lem (Preserves (OnView P)) (same-Preserves (OnView P) (ok tt)) s sys
            (λ size f g. >>=-Preserves (OnView P) (receive-Preserves size) g) p p.control_code
            ses.container.funcmap (subst (AllDo (Preserves (OnView P)) s) (sym e) all)).after
          (open_view s (record ses { container = c })) h

    caught-keeps :
        {m : Exec W (Unit {0})}
        → Preserves P m
        → (r : Result (Unit {0}) × Session W Object) → P r.1.world
        → P (catch_callback (on_world sys s m) r).1.world
    caught-keeps h (ok _, t) p = p
    caught-keeps h (throws (callback message), t) p = h.after t.world p
    caught-keeps h (throws (socket message code), t) p = p
    caught-keeps h (throws (invariant message), t) p = p
    caught-keeps h (throws (reject message), t) p = p
    caught-keeps h (throws (failure message), t) p = p
    caught-keeps h (throws (file message), t) p = p
    caught-keeps h (throws (inv_param message), t) p = p
    caught-keeps h (running, t) p = p
    caught-keeps h (fault, t) p = p

    answer-keeps :
        (p : Packet) (ses : Session W Object)
        → ses.container.funcmap ≡ table
        → P ses.world
        → P (answer sys s p ses).1.world
    unfolding answer
    answer-keeps p ses e h =
        caught-keeps (send_packet-Preserves sys s P frame (make_packet ControlCode.reject)) _ (
          and_then-Preserves (OnSession P) (eval sys s p ses) _
            (λ _.
              on_world-Preserves
                (send_packet-Preserves sys s P frame (make_packet ControlCode.accept)))
            (eval-keeps p ses e h))

    -- A step of the thread keeps what the calls on its own socket keep.
    pub advance-keeps :
        (flag : Bool) (pc : Pc) (ses : Session W Object)
        → ses.container.funcmap ≡ table
        → P ses.world
        → P (advance sys s flag (pc, ses)).1.world
    unfolding advance
    advance-keeps true waiting ses e h = h
    advance-keeps false waiting ses e h =
        (recv_packet-Preserves sys s P frame (new_packet 0) time_infinite).after ses.world h
    advance-keeps true (answering p) ses e h = answer-keeps p ses e h
    advance-keeps false (answering p) ses e h = answer-keeps p ses e h
    advance-keeps true (done r te) ses e h = h
    advance-keeps false (done r te) ses e h = h
