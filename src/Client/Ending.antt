-- ===== src/Client/Ending.antt =====
-- The calls of a client return or throw: the loops of attempts end, and so does each attempt.
use stdsc.Base.{
  ℕ, ◌≤◌, ◌<◌, ◌^◌, Bool, true, false, if◌then◌else◌, ltb, length, String, ◌==◌, ◌||◌, arith,
}
use stdsc.Exec.{
  check, Exception, socket, invariant, callback, reject, failure, file, inv_param, Result, ok,
  throws, running, fault, Exec, ◌>>=◌, ◌>>◌, throw, pure,
}
use stdsc.Exec.Ending.{Ended, returned, threw, Ends, >>=-Ends, if-Ends}
use stdsc.System.{System}
use stdsc.Packet.{
  set_data_size, make_data_packet, Bytes, Packet, packet_size, make_packet, data_size, new_packet,
}
use stdsc.Packet.ControlCode
use stdsc.Packet.Wire.{IsPacket, make_packet-IsPacket}
use stdsc.Packet.Groups.{announced-IsPacket}
use stdsc.Socket.{Socket, recv_packet, time_infinite}
use stdsc.Socket.Ending.{
  Responds, send_packet-Ends, send_buffer-Ends, recv_packet-Ends, recv_buffer-Ended,
  socket_check-Ends,
}
use stdsc.Client.Rounds.{Next, retry_loop-induction}
use stdsc.Client.Retry.{is_reject, retry_loop}
use stdsc.Client.{
  send_recv_data, send_recv_data_impl, send_recv_data_blocking, on_system, sleep_filling,
  send_request_impl, send_data_impl, recv_reply, recv_data_impl, send_request, send_data, recv_data,
  drop_socket_exception, fill_from, check_reject, check_failed, send_request_blocking,
  send_data_blocking, recv_data_blocking,
}

module _ {S : Type 0} where
  drop-Ended : (r : Result (Unit {0}) × S) → Ended r.0 → Ended (drop_socket_exception r).0
  unfolding drop_socket_exception
  drop-Ended (ok _, s) h = returned
  drop-Ended (throws (socket message code), s) h = returned
  drop-Ended (throws (invariant message), s) h = threw
  drop-Ended (throws (callback message), s) h = threw
  drop-Ended (throws (reject message), s) h = threw
  drop-Ended (throws (failure message), s) h = threw
  drop-Ended (throws (file message), s) h = threw
  drop-Ended (throws (inv_param message), s) h = threw
  drop-Ended (running, s) h = elim h [ ]
  drop-Ended (fault, s) h = elim h [ ]

  dropped-Ends : {m : Exec S (Unit {0})} → Ends m → Ends (λ s. drop_socket_exception (m s))
  dropped-Ends h = record { from = λ s. drop-Ended _ (h.from s) }

  refused-Ends :
      (b : Bool) (e : Exception) → Ends {S = S} {A = Unit {0}} (if b then throw e else pure tt)
  refused-Ends true e = record { from = λ s. threw }
  refused-Ends false e = record { from = λ s. returned }

  verdict-Ends : (m n : String) (p : Packet) → Ends {S = S} (check_reject m p >> check_failed n p)
  verdict-Ends m n p =
      >>=-Ends (refused-Ends (p.control_code == ControlCode.reject) (reject m))
        (λ _. refused-Ends (p.control_code == ControlCode.failed) (failure n))

  module _ {A : Type 0} (caught : Exception → Bool) (sleep : S → S) (attempt : Exec S A)
      (tried : Ends attempt) where
    abbrev Always : ℕ → S → Type 0
    Always n s = Unit {0}

    next :
        (n : ℕ) (r : Result A × S)
        → Ended r.0
        → Next caught sleep attempt Always (λ r. Ended r.0) n r
    next n (ok a, s) h = returned
    next n (throws e, s) h = ((λ _. tt), (λ _. threw))
    next n (running, s) h = elim h [ ]
    next n (fault, s) h = elim h [ ]

    retry_loop-Ends :
        (most : ℕ) (current : A) → Ends (retry_loop caught sleep attempt most most 0 current)
    retry_loop-Ends most current = record {
      from = λ s.
          retry_loop-induction caught sleep attempt Always (λ r. Ended r.0) most current
            (λ n s _ _. returned) (λ n s _ _. next n (attempt s) (tried.from s)) most 0 s
            (omega arith) tt;
    }

  -- what a test lets through, and what follows
  packed-Ends :
      {B : Type 0} (b : Bool) (e : Exception) (p : Packet) (f : Packet → Exec S B)
      → Ends (f p)
      → Ends ((check b e >> pure p) >>= f)
  packed-Ends true e p f h = record { from = λ s. h.from s }
  packed-Ends false e p f h = record { from = λ s. threw }

  make_data_packet-Ends :
      {B : Type 0} (code size : ℕ) (f : Packet → Exec S B)
      → code < 2 ^ 64
      → ((p : Packet) → IsPacket p → Ends (f p))
      → Ends (make_data_packet code size >>= f)
  unfolding make_data_packet
  make_data_packet-Ends code size f h g =
      packed-Ends
        (ControlCode.in_group code ControlCode.group_data
          || ControlCode.in_group code ControlCode.group_up_download)
        (invariant "invalid control code") (set_data_size (new_packet code) size) f
        (g _ (announced-IsPacket code size h))

module _ {W : Type 0} (sys : System W) (s : Socket) (responds : Responds sys s)
    (rounds : packet_size ≤ sys.write_rounds) where
  on_system-Ends : {A : Type 0} {m : Exec W A} → Ends m → Ends (on_system sys m)
  on_system-Ends h = record { from = λ f. h.from f.1 }

  received-Ends : Ends (recv_packet sys s (new_packet 0) time_infinite)
  received-Ends = recv_packet-Ends sys s responds (new_packet 0) time_infinite

  send_request-Ends : (code : ℕ) → code < 2 ^ 64 → Ends (send_request sys s code)
  unfolding send_request send_request_impl
  send_request-Ends code h = dropped-Ends (
      >>=-Ends
        (send_packet-Ends sys s responds (make_packet code) (make_packet-IsPacket code h) rounds)
        (λ _. >>=-Ends received-Ends (λ ack. verdict-Ends _ _ ack)))

  send_data-Ends :
      (code : ℕ) (buffer : Bytes)
      → code < 2 ^ 64
      → length buffer ≤ sys.write_rounds
      → Ends (send_data sys s code buffer)
  unfolding send_data send_data_impl
  send_data-Ends code buffer h l = dropped-Ends (
      make_data_packet-Ends code (length buffer) _ h (λ packet i.
        >>=-Ends (send_packet-Ends sys s responds packet i rounds) (λ _.
          >>=-Ends (send_buffer-Ends sys s responds buffer l)
            (λ _. >>=-Ends received-Ends (λ ack. verdict-Ends _ _ ack)))))

  fill_from-Ends : (p : Packet) → Ends (fill_from sys s p)
  fill_from-Ends p =
      if-Ends (ltb 0 (data_size p))
        (record { from = λ f. recv_buffer-Ended sys s responds _ time_infinite f.1 })
        (record { from = λ f. returned })

  recv_reply-Ends : Ends (recv_reply sys s)
  unfolding recv_reply
  recv_reply-Ends = >>=-Ends (on_system-Ends received-Ends) (λ packet.
      >>=-Ends (refused-Ends (packet.control_code == ControlCode.reject) (reject _)) (λ _.
        >>=-Ends (fill_from-Ends packet)
          (λ _. >>=-Ends (on_system-Ends received-Ends) (λ ack. verdict-Ends _ _ ack))))

  recv_data-Ends : (code : ℕ) → code < 2 ^ 64 → Ends (recv_data sys s code)
  unfolding recv_data recv_data_impl
  recv_data-Ends code h = dropped-Ends (
      >>=-Ends
        (on_system-Ends
          (send_packet-Ends sys s responds (make_packet code) (make_packet-IsPacket code h) rounds))
        (λ _. recv_reply-Ends))

  send_recv_data-Ends :
      (code : ℕ) (sbuffer : Bytes)
      → code < 2 ^ 64
      → length sbuffer ≤ sys.write_rounds
      → Ends (send_recv_data sys s code sbuffer)
  unfolding send_recv_data send_recv_data_impl
  send_recv_data-Ends code sbuffer h l = dropped-Ends (
      make_data_packet-Ends code (length sbuffer) _ h (λ packet i.
        >>=-Ends (on_system-Ends (send_packet-Ends sys s responds packet i rounds)) (λ _.
          >>=-Ends (on_system-Ends (send_buffer-Ends sys s responds sbuffer l))
            (λ _. recv_reply-Ends))))

  module _ (code usec timeout : ℕ) (h : code < 2 ^ 64) where
    pub send_request_blocking-Ends : Ends (send_request_blocking sys s code usec timeout)
    unfolding send_request_blocking
    send_request_blocking-Ends =
        >>=-Ends
          (retry_loop-Ends is_reject (sys.usleep usec) (send_request sys s code)
            (send_request-Ends code h) _ tt)
          (λ done. socket_check-Ends sys s _ "Sending request time out")

    pub recv_data_blocking-Ends : Ends (recv_data_blocking sys s code usec timeout)
    unfolding recv_data_blocking
    recv_data_blocking-Ends =
        >>=-Ends
          (retry_loop-Ends is_reject (sleep_filling sys usec) (recv_data sys s code)
            (recv_data-Ends code h) _ tt)
          (λ done. on_system-Ends (socket_check-Ends sys s _ "Receiving data time out"))

    module _ (buffer : Bytes) (l : length buffer ≤ sys.write_rounds) where
      pub send_data_blocking-Ends : Ends (send_data_blocking sys s code buffer usec timeout)
      unfolding send_data_blocking
      send_data_blocking-Ends =
          >>=-Ends
            (retry_loop-Ends is_reject (sys.usleep usec) (send_data sys s code buffer)
              (send_data-Ends code buffer h l) _ tt)
            (λ done. socket_check-Ends sys s _ "Sending data time out")

      send_recv_data_blocking-Ends : Ends (send_recv_data_blocking sys s code buffer usec timeout)
      unfolding send_recv_data_blocking
      send_recv_data_blocking-Ends =
          >>=-Ends
            (retry_loop-Ends is_reject (sleep_filling sys usec) (send_recv_data sys s code buffer)
              (send_recv_data-Ends code buffer h l) _ tt)
            (λ done. on_system-Ends (socket_check-Ends sys s _ "Receiving data time out"))

      -- Where each `select` for reading, `recv` and `send` on the socket returns, a `send` that does
      -- not fail takes a byte at least (Responds), and `write` has enough rounds for a packet and
      -- for the buffer: for every 64-bit code, interval and timeout, and whatever else the calls of
      -- the system return, the four blocking calls of a client (send a request, send data, receive
      -- data, send and receive data) come to an end from every state: each returns or throws.
      pub blocking-Ends :
          Ends (send_request_blocking sys s code usec timeout)
          × Ends (send_data_blocking sys s code buffer usec timeout)
          × Ends (recv_data_blocking sys s code usec timeout)
          × Ends (send_recv_data_blocking sys s code buffer usec timeout)
      blocking-Ends = (
        send_request_blocking-Ends, send_data_blocking-Ends, recv_data_blocking-Ends,
        send_recv_data_blocking-Ends,
      )
