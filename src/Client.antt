-- ===== src/Client.antt =====
-- stdsc/stdsc_client.cpp: the exchanges of a client, and the calls that retry them. The mutex makes
-- the exchanges of one client follow one another; each is one action here.
pub mod Retry
pub mod Rounds
pub mod Exchange
pub mod Attempts
pub mod Blocking
pub mod Closed
pub mod Silent
pub mod Sleeping
pub mod Frame
pub mod Ending
pub mod Descriptors
use stdsc.Base.{
  ℕ, ◌-◌, ◌<◌, String, Bool, true, false, Option, none, some, List, ◌++◌, ◌==◌, ltb, if◌then◌else◌,
  length, take, replicate,
}
use stdsc.Exec.{
  Exception, socket, reject, failure, Result, ok, throws, running, Exec, ◌>>=◌, ◌>>◌, pure, throw,
}
use stdsc.System.{System, CInt}
use stdsc.Packet.{Bytes, Packet, new_packet, make_packet, make_data_packet, data_size}
use stdsc.Packet.ControlCode
use stdsc.Socket.{
  Socket, time_infinite, throw_socket, socket_check, close_socket, send_packet, recv_packet,
  send_buffer, recv_buffer,
}
use stdsc.Socket.Setup.{establish_connection}
use Retry.{retry_loop, calc_retry_count, is_reject, is_socket}

-- STDSC_CONN_TIMEOUT_SEC
abbrev pub conn_timeout_sec : ℕ
conn_timeout_sec = 30

-- The tests of a packet that may be a rejection. The code that a message ends in is the tested one.
abbrev pub check_reject : {S : Type 0} → String → Packet → Exec S (Unit {0})
check_reject message p =
    if p.control_code == ControlCode.reject then throw (reject message) else pure tt

abbrev pub check_failed : {S : Type 0} → String → Packet → Exec S (Unit {0})
check_failed message p =
    if p.control_code == ControlCode.failed then throw (failure message) else pure tt

-- `catch (const SocketException& e)` around an exchange, which logs it and goes on
unfoldable pub drop_socket_exception : {S : Type 0} → Result (Unit {0}) × S → Result (Unit {0}) × S
drop_socket_exception (throws (socket message code), s) = (ok tt, s)
drop_socket_exception (r, s) = (r, s)

-- std::vector::resize
abbrev pub resize : ℕ → Bytes → Bytes
resize size buffer = take size (buffer ++ replicate (size - length buffer) 0)

module _ {W : Type 0} (sys : System W) where
  -- the state of a call that was given a buffer to fill: the buffer and the system
  abbrev pub Filling : Type 0
  Filling = Bytes × W

  abbrev pub on_system : {A : Type 0} → Exec W A → Exec Filling A
  on_system m (buffer, w) = ((m w).0, (buffer, (m w).1))

  abbrev pub with_buffer : (Bytes → W → Result (Unit {0}) × Bytes × W) → Exec Filling (Unit {0})
  with_buffer m (buffer, w) = ((m buffer w).0, ((m buffer w).1, (m buffer w).2))

  module _ (s : Socket) where
    unfoldable pub send_request_impl : ℕ → Exec W (Unit {0})
    send_request_impl code = do
      send_packet sys s (make_packet code)
      ack ← recv_packet sys s (new_packet 0) time_infinite
      check_reject "Rejected to send request. (0x102)" ack
      check_failed "Failed to send request. (0x103)" ack

    unfoldable pub send_data_impl : ℕ → Bytes → Exec W (Unit {0})
    send_data_impl code buffer = do
      packet ← make_data_packet code (length buffer)
      send_packet sys s packet
      send_buffer sys s buffer
      ack ← recv_packet sys s (new_packet 0) time_infinite
      check_reject "Rejected to send data. (0x102)" ack
      check_failed "Failed to send data. (0x103)" ack

    -- the data that a packet announces, into the buffer resized to it
    abbrev pub fill_from : Packet → Exec Filling (Unit {0})
    fill_from p =
        if ltb 0 (data_size p)
        then with_buffer (λ buffer. recv_buffer sys s (resize (data_size p) buffer) time_infinite)
        else pure tt

    -- the second half of both calls that receive data
    unfoldable pub recv_reply : Exec Filling (Unit {0})
    recv_reply = do
      packet ← on_system (recv_packet sys s (new_packet 0) time_infinite)
      check_reject "Rejected to recv data. (0x102)" packet
      fill_from packet
      ack ← on_system (recv_packet sys s (new_packet 0) time_infinite)
      check_reject "Rejected to recv data. (0x102)" ack
      check_failed "Failed to recv data. (0x103)" ack

    unfoldable pub recv_data_impl : ℕ → Exec Filling (Unit {0})
    recv_data_impl code = do on_system (send_packet sys s (make_packet code)); recv_reply

    unfoldable pub send_recv_data_impl : ℕ → Bytes → Exec Filling (Unit {0})
    send_recv_data_impl code sbuffer = do
      packet ← make_data_packet code (length sbuffer)
      on_system (send_packet sys s packet)
      on_system (send_buffer sys s sbuffer)
      recv_reply

    unfoldable pub send_request : ℕ → Exec W (Unit {0})
    send_request code w = drop_socket_exception (send_request_impl code w)

    unfoldable pub send_data : ℕ → Bytes → Exec W (Unit {0})
    send_data code buffer w = drop_socket_exception (send_data_impl code buffer w)

    unfoldable pub recv_data : ℕ → Exec Filling (Unit {0})
    recv_data code f = drop_socket_exception (recv_data_impl code f)

    unfoldable pub send_recv_data : ℕ → Bytes → Exec Filling (Unit {0})
    send_recv_data code sbuffer f = drop_socket_exception (send_recv_data_impl code sbuffer f)

    -- Client::Impl::close, also run by the destructor
    unfoldable pub close : Exec W Socket
    close = close_socket sys s

  abbrev pub sleep_filling : ℕ → Filling → Filling
  sleep_filling usec (buffer, w) = (buffer, sys.usleep usec w)

  -- The test after a loop: `errno` is read where it throws.
  abbrev pub check_attempts : String → ℕ → ℕ → Exec W (Unit {0})
  check_attempts message max_retry_count retry_count =
      socket_check sys (ltb retry_count max_retry_count) message

  -- Client::Impl::connect. The result is what the member `sock_` is left with.
  unfoldable pub connect : Socket → String → String → ℕ → ℕ → Exec W Socket
  connect sock host port retry_interval_usec timeout_sec = do
    let max_retry_count = calc_retry_count timeout_sec retry_interval_usec
    done ←
        retry_loop is_socket (sys.usleep retry_interval_usec)
          (establish_connection sys host port conn_timeout_sec) max_retry_count max_retry_count 0
          sock
    check_attempts "Connection time out" max_retry_count done.0
    pure done.1

  module _ (s : Socket) where
    unfoldable pub send_request_blocking : ℕ → ℕ → ℕ → Exec W (Unit {0})
    send_request_blocking code retry_interval_usec timeout_sec = do
      let max_retry_count = calc_retry_count timeout_sec retry_interval_usec
      done ←
          retry_loop is_reject (sys.usleep retry_interval_usec) (send_request s code)
            max_retry_count max_retry_count 0 tt
      check_attempts "Sending request time out" max_retry_count done.0

    unfoldable pub send_data_blocking : ℕ → Bytes → ℕ → ℕ → Exec W (Unit {0})
    send_data_blocking code buffer retry_interval_usec timeout_sec = do
      let max_retry_count = calc_retry_count timeout_sec retry_interval_usec
      done ←
          retry_loop is_reject (sys.usleep retry_interval_usec) (send_data s code buffer)
            max_retry_count max_retry_count 0 tt
      check_attempts "Sending data time out" max_retry_count done.0

    unfoldable pub recv_data_blocking : ℕ → ℕ → ℕ → Exec Filling (Unit {0})
    recv_data_blocking code retry_interval_usec timeout_sec = do
      let max_retry_count = calc_retry_count timeout_sec retry_interval_usec
      done ←
          retry_loop is_reject (sleep_filling retry_interval_usec) (recv_data s code)
            max_retry_count max_retry_count 0 tt
      on_system (check_attempts "Receiving data time out" max_retry_count done.0)

    unfoldable pub send_recv_data_blocking : ℕ → Bytes → ℕ → ℕ → Exec Filling (Unit {0})
    send_recv_data_blocking code sbuffer retry_interval_usec timeout_sec = do
      let max_retry_count = calc_retry_count timeout_sec retry_interval_usec
      done ←
          retry_loop is_reject (sleep_filling retry_interval_usec) (send_recv_data s code sbuffer)
            max_retry_count max_retry_count 0 tt
      on_system (check_attempts "Receiving data time out" max_retry_count done.0)
