-- ===== src/Client/Frame.antt =====
-- What the calls of a client leave alone: whatever the calls on its socket and the sleep keep, and of
-- buffers that are filled, whatever holds of the system.
use stdsc.Base.{arith, ◌||◌, ℕ, Bool, true, false, if◌then◌else◌, ltb, length, String, ◌==◌}
use stdsc.Exec.{
  Exception, socket, invariant, callback, reject, failure, file, inv_param, Result, ok, throws,
  running, fault, Exec, ◌>>◌, throw, pure,
}
use stdsc.Exec.Preserving.{check-Preserves, Preserves, >>=-Preserves, same-Preserves, if-Preserves}
use stdsc.System.{System}
use stdsc.Packet.{
  set_data_size, Bytes, Packet, make_packet, make_data_packet, data_size, new_packet,
}
use stdsc.Packet.ControlCode
use stdsc.Callback.{nat_eq}
use stdsc.Socket.{Socket, recv_packet, time_infinite}
use stdsc.Socket.Frame.{
  Untouched, send_packet-Preserves, send_buffer-Preserves, recv_packet-Preserves, recv_buffer-keeps,
  socket_check-Preserves,
}
use stdsc.Client.Rounds.{Next, retry_loop-induction}
use stdsc.Client.Retry.{is_reject, retry_loop}
use stdsc.Client.{
  send_recv_data, send_recv_data_impl, Filling, on_system, sleep_filling, send_request_impl,
  send_data_impl, recv_reply, recv_data_impl, send_request, send_data, recv_data,
  drop_socket_exception, fill_from, check_reject, check_failed, send_request_blocking,
  send_data_blocking, recv_data_blocking,
}

module _ {S : Type 0} (Q : S → Type 0) where
  drop-keeps : (r : Result (Unit {0}) × S) → Q r.1 → Q (drop_socket_exception r).1
  unfolding drop_socket_exception
  drop-keeps (ok _, s) q = q
  drop-keeps (throws (socket message code), s) q = q
  drop-keeps (throws (invariant message), s) q = q
  drop-keeps (throws (callback message), s) q = q
  drop-keeps (throws (reject message), s) q = q
  drop-keeps (throws (failure message), s) q = q
  drop-keeps (throws (file message), s) q = q
  drop-keeps (throws (inv_param message), s) q = q
  drop-keeps (running, s) q = q
  drop-keeps (fault, s) q = q

  dropped-Preserves :
      {m : Exec S (Unit {0})} → Preserves Q m → Preserves Q (λ s. drop_socket_exception (m s))
  dropped-Preserves h = record { after = λ s q. drop-keeps _ (h.after s q) }

  refused-Preserves :
      (b : Bool) (e : Exception) → Preserves Q {A = Unit {0}} (if b then throw e else pure tt)
  refused-Preserves true e = record { after = λ s q. q }
  refused-Preserves false e = record { after = λ s q. q }

  module _ {A : Type 0} (caught : Exception → Bool) (sleep : S → S) (attempt : Exec S A)
      (slept : (s : S) → Q s → Q (sleep s)) (tried : Preserves Q attempt) where
    next : (n : ℕ) (r : Result A × S) → Q r.1 → Next caught sleep attempt (λ _. Q) (λ r. Q r.1) n r
    next n (ok a, s) q = q
    next n (throws e, s) q = ((λ _. slept s q), (λ _. q))
    next n (running, s) q = q
    next n (fault, s) q = q

    retry_loop-Preserves :
        (most : ℕ) (current : A) → Preserves Q (retry_loop caught sleep attempt most most 0 current)
    retry_loop-Preserves most current = record {
      after = λ s q.
          retry_loop-induction caught sleep attempt (λ _. Q) (λ r. Q r.1) most current
            (λ n s _ q. q) (λ n s _ q. next n (attempt s) (tried.after s q)) most 0 s (omega arith)
            q;
    }

module _ {S : Type 0} (Q : S → Type 0) where
  check_reject-Preserves : (m : String) (p : Packet) → Preserves Q (check_reject m p)
  check_reject-Preserves m p = refused-Preserves Q (p.control_code == ControlCode.reject) (reject m)

  check_failed-Preserves : (m : String) (p : Packet) → Preserves Q (check_failed m p)
  check_failed-Preserves m p =
      refused-Preserves Q (p.control_code == ControlCode.failed) (failure m)

  verdict-Preserves :
      (m n : String) (p : Packet) → Preserves Q (check_reject m p >> check_failed n p)
  verdict-Preserves m n p =
      >>=-Preserves Q (check_reject-Preserves m p) (λ _. check_failed-Preserves n p)

  make_data_packet-Preserves : (code size : ℕ) → Preserves Q (make_data_packet code size)
  unfolding make_data_packet
  make_data_packet-Preserves code size =
      >>=-Preserves Q
        (check-Preserves Q
          (ControlCode.in_group code ControlCode.group_data
            || ControlCode.in_group code ControlCode.group_up_download)
          (invariant "invalid control code"))
        (λ _. same-Preserves Q (ok (set_data_size (new_packet code) size)))

module _ {W : Type 0} (sys : System W) (P : W → Type 0) where
  abbrev OnFilling : Filling sys → Type 0
  OnFilling f = P f.1

  on_system-Preserves :
      {A : Type 0} {m : Exec W A} → Preserves P m → Preserves OnFilling (on_system sys m)
  on_system-Preserves h = record { after = λ f p. h.after f.1 p }

  module _ (s : Socket) (frame : Untouched sys s P) where
    received-Preserves : Preserves P (recv_packet sys s (new_packet 0) time_infinite)
    received-Preserves = recv_packet-Preserves sys s P frame (new_packet 0) time_infinite

    pub send_request-Preserves : (code : ℕ) → Preserves P (send_request sys s code)
    unfolding send_request send_request_impl
    send_request-Preserves code = dropped-Preserves P (
        >>=-Preserves P (send_packet-Preserves sys s P frame (make_packet code))
          (λ _. >>=-Preserves P received-Preserves (λ ack. verdict-Preserves P _ _ ack)))

    pub send_data-Preserves :
        (code : ℕ) (buffer : Bytes) → Preserves P (send_data sys s code buffer)
    unfolding send_data send_data_impl
    send_data-Preserves code buffer = dropped-Preserves P (
        >>=-Preserves P (make_data_packet-Preserves P code (length buffer)) (λ packet.
          >>=-Preserves P (send_packet-Preserves sys s P frame packet) (λ _.
            >>=-Preserves P (send_buffer-Preserves sys s P frame buffer)
              (λ _. >>=-Preserves P received-Preserves (λ ack. verdict-Preserves P _ _ ack)))))

    fill_from-Preserves : (p : Packet) → Preserves OnFilling (fill_from sys s p)
    fill_from-Preserves p =
        if-Preserves OnFilling (ltb 0 (data_size p))
          (record { after = λ f q. recv_buffer-keeps sys s P frame _ time_infinite f.1 q })
          (same-Preserves OnFilling (ok tt))

    recv_reply-Preserves : Preserves OnFilling (recv_reply sys s)
    unfolding recv_reply
    recv_reply-Preserves =
        >>=-Preserves OnFilling (on_system-Preserves received-Preserves) (λ packet.
          >>=-Preserves OnFilling (check_reject-Preserves OnFilling _ packet) (λ _.
            >>=-Preserves OnFilling (fill_from-Preserves packet) (λ _.
              >>=-Preserves OnFilling (on_system-Preserves received-Preserves)
                (λ ack. verdict-Preserves OnFilling _ _ ack))))

    pub recv_data-Preserves : (code : ℕ) → Preserves OnFilling (recv_data sys s code)
    unfolding recv_data recv_data_impl
    recv_data-Preserves code = dropped-Preserves OnFilling (
        >>=-Preserves OnFilling
          (on_system-Preserves (send_packet-Preserves sys s P frame (make_packet code)))
          (λ _. recv_reply-Preserves))

    pub send_recv_data-Preserves :
        (code : ℕ) (sbuffer : Bytes) → Preserves OnFilling (send_recv_data sys s code sbuffer)
    unfolding send_recv_data send_recv_data_impl
    send_recv_data-Preserves code sbuffer = dropped-Preserves OnFilling (
        >>=-Preserves OnFilling (make_data_packet-Preserves OnFilling code (length sbuffer))
          (λ packet.
            >>=-Preserves OnFilling
              (on_system-Preserves (send_packet-Preserves sys s P frame packet))
              (λ _.
                >>=-Preserves OnFilling
                  (on_system-Preserves (send_buffer-Preserves sys s P frame sbuffer))
                  (λ _. recv_reply-Preserves))))

    module _ (slept : (n : ℕ) (w : W) → P w → P (sys.usleep n w)) where
      pub send_request_blocking-Preserves :
          (code usec timeout : ℕ) → Preserves P (send_request_blocking sys s code usec timeout)
      unfolding send_request_blocking
      send_request_blocking-Preserves code usec timeout =
          >>=-Preserves P
            (retry_loop-Preserves P is_reject (sys.usleep usec) (send_request sys s code)
              (slept usec) (send_request-Preserves code) _ tt)
            (λ done. socket_check-Preserves sys s P frame _ "Sending request time out")

      pub send_data_blocking-Preserves :
          (code : ℕ) (buffer : Bytes) (usec timeout : ℕ)
          → Preserves P (send_data_blocking sys s code buffer usec timeout)
      unfolding send_data_blocking
      send_data_blocking-Preserves code buffer usec timeout =
          >>=-Preserves P
            (retry_loop-Preserves P is_reject (sys.usleep usec) (send_data sys s code buffer)
              (slept usec) (send_data-Preserves code buffer) _ tt)
            (λ done. socket_check-Preserves sys s P frame _ "Sending data time out")

      pub recv_data_blocking-Preserves :
          (code usec timeout : ℕ) → Preserves OnFilling (recv_data_blocking sys s code usec timeout)
      unfolding recv_data_blocking
      recv_data_blocking-Preserves code usec timeout =
          >>=-Preserves OnFilling
            (retry_loop-Preserves OnFilling is_reject (sleep_filling sys usec)
              (recv_data sys s code) (λ f q. slept usec f.1 q) (recv_data-Preserves code) _ tt)
            (λ done.
              on_system-Preserves
                (socket_check-Preserves sys s P frame _ "Receiving data time out"))
