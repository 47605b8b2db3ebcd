-- ===== src/Server/Answers.antt =====
-- What a connection's thread sends back for the packets that it receives.
use stdsc.Base.{ℕ, ◌≤◌, ◌≡◌, refl, String, Bool, false, List, ◌∷◌, ◌++◌, some, arith}
use stdsc.Exec.{Exception, callback, Result, ok, throws}
use stdsc.System.{System}
use stdsc.Packet.{Bytes, Packet, packet_size, to_bytes, new_packet, make_packet}
use stdsc.Packet.ControlCode
use stdsc.Packet.Wire.{IsPacket, make_packet-IsPacket}
use stdsc.Socket.{Socket}
use stdsc.Socket.Connection.{IsConnection}
use stdsc.Socket.Exchange.{send_packet_lem, recv_packet_lem}
use stdsc.State.{StateContext}
use stdsc.Callback.{Session, View, Container, eval}
use stdsc.Server.{ThreadException, answer, serve_packet, exec, set_current_exception}

-- The outcomes of a callback that leave the thread alive, and the code of the answer to each.
pub data Handled : Result (Unit {0}) → ℕ → Type 0 where
  accepted : Handled (ok tt) ControlCode.accept
  rejected : (message : String) → Handled (throws (callback message)) ControlCode.reject

module _ {W Object : Type 0} (sys : System W) (s : Socket) {conn : W → Bytes → Bytes → Type 0}
    (law : IsConnection sys s conn) (rounds : packet_size ≤ sys.write_rounds) where
  pub answer_lem :
      {r : Result (Unit {0})} {code : ℕ} (p : Packet) (ses ses' : Session W Object) (i o : Bytes)
      → Handled r code
      → eval sys s p ses ≡ (r, ses')
      → conn ses'.world i o
      → (w : W) × (answer sys s p ses ≡ (ok tt, record ses' { world = w }))
        × conn w i (o ++ to_bytes (make_packet code))
  unfolding answer
  answer_lem p ses ses' i o accepted e c =
      let (w, sent, c') =
        send_packet_lem sys s law (make_packet ControlCode.accept) ses'.world i o rounds
          (make_packet-IsPacket _ (omega arith)) c in
      (w, rw e (rw sent refl), c')
  answer_lem p ses ses' i o (rejected message) e c =
      let (w, sent, c') =
        send_packet_lem sys s law (make_packet ControlCode.reject) ses'.world i o rounds
          (make_packet-IsPacket _ (omega arith)) c in
      (w, rw e (rw sent refl), c')

  -- Over a connection that does not fail (IsConnection), with enough rounds of `send` for a packet:
  -- let the callback for a received packet return, or fail by a callback exception, and leave the
  -- context, the objects and the container in Q and the connection with the bytes o' sent. The round
  -- of the thread's loop then succeeds and sends exactly one packet after o': Accept if the callback
  -- returned, Reject if not. Q still holds.
  pub serve_packet_lem :
      {r : Result (Unit {0})} {code : ℕ} (p : Packet) (ses : Session W Object) (i o i' o' : Bytes)
      (Q : StateContext → List Object → Container (View W Object) → Type 0)
      → IsPacket p
      → Handled r code
      → ((w : W)
          → conn w i o
          → (ses' : Session W Object) × (eval sys s p (record ses { world = w }) ≡ (r, ses'))
            × conn ses'.world i' o'
            × Q ses'.context ses'.objects ses'.container)
      → conn ses.world (to_bytes p ++ i) o
      → (ses' : Session W Object) × (serve_packet sys s ses ≡ (ok tt, ses'))
        × conn ses'.world i' (o' ++ to_bytes (make_packet code))
        × Q ses'.context ses'.objects ses'.container
  unfolding serve_packet
  serve_packet_lem p ses i o i' o' Q hp h run c =
      let (w₁, got, c₁) = recv_packet_lem sys s law p (new_packet 0) ses.world i o hp c in
      let (ses₁, done, c₂, q) = run w₁ c₁ in
      let (w₂, answered, c₃) = answer_lem p (record ses { world = w₁ }) ses₁ i' o' h done c₂ in
      (record ses₁ { world = w₂ }, rw got answered, c₃, q)

  -- One more packet that is served while `force_finish` is unset is one more round of the loop.
  pub exec_round :
      (rest : List Bool) (ses ses' : Session W Object) (te : ThreadException)
      → serve_packet sys s ses ≡ (ok tt, ses')
      → exec sys s (false ∷ rest) ses te ≡ exec sys s rest ses' te
  unfolding exec
  exec_round rest ses ses' te e = rw (e, exec) (rw e refl)

  -- Any exception but a callback's, thrown on the way to the answer or by sending it, ends the loop.
  -- The thread that joins this one gets that exception.
  pub exec_failed :
      (rest : List Bool) (ses ses' : Session W Object) (te : ThreadException) (e : Exception)
      → serve_packet sys s ses ≡ (throws e, ses')
      → exec sys s (false ∷ rest) ses te ≡ (ok tt, ses', some e)
  unfolding exec set_current_exception
  exec_failed rest ses ses' te e h = rw (h, exec) (rw h refl)
