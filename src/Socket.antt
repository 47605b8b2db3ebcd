-- ===== src/Socket.antt =====
-- stdsc/stdsc_socket.cpp: waiting, closing, the transfer loops, and the packets and buffers on top
-- of them. A `Socket` is its descriptor; a copy of a `Socket` is a copy of that number.
pub mod Setup
pub mod Connection
pub mod Exchange
pub mod Closed
pub mod Frame
pub mod Ending
use stdsc.Base.{
  ℕ, zero, suc, ◌-◌, ◌<◌, String, Bool, true, false, Option, none, some, List, [], ◌∷◌, ◌++◌, ◌==◌,
  ltb, if◌then◌else◌, length, drop,
}
use stdsc.Exec.{
  Exception, socket, Result, ok, throws, running, fault, Exec, ◌>>=◌, ◌>>◌, pure, throw,
}
use stdsc.System.{CInt, minus_one, nonneg, Received, recv_error, received, recv_waits, System}
use stdsc.Packet.{Bytes, Packet, packet_size, initialize_packet, to_bytes, of_bytes}

abbrev pub Socket : Type 0
Socket = CInt

abbrev pub time_infinite : ℕ
time_infinite = 0xFFFFFFFF

-- ret != SOCKET_ERROR
abbrev pub succeeded : CInt → Bool
succeeded minus_one = false
succeeded (nonneg n) = true

-- a read into memory that holds `old`
abbrev pub overwrite : Bytes → Bytes → Bytes
overwrite written old = written ++ drop (length written) old

-- the `timeval` of a wait
abbrev pub timeout_of : ℕ → Option ℕ
timeout_of timeout_sec = if timeout_sec == time_infinite then none else some timeout_sec

module _ {W : Type 0} (sys : System W) where
  abbrev pub call : {A : Type 0} → (W → A × W) → Exec W A
  call f w = (ok (f w).0, (f w).1)

  -- STDSC_THROW_SOCKET
  abbrev pub throw_socket : {A : Type 0} → String → Exec W A
  throw_socket message w = (throws (socket message (sys.errno w)), w)

  -- SOCKET_IF_CHECK
  abbrev pub socket_check : Bool → String → Exec W (Unit {0})
  socket_check true message = pure tt
  socket_check false message = throw_socket message

  unfoldable pub shutdown_socket : Socket → Exec W (Unit {0})
  shutdown_socket s w = (ok tt, (sys.shutdown s w).1)

  -- what is left in the variable, which the caller passed by reference, is the result
  unfoldable pub close_socket : Socket → Exec W Socket
  close_socket minus_one w = (ok minus_one, w)
  close_socket (nonneg n) w = (ok minus_one, (sys.close (nonneg n) w).1)

  -- A call that never returns ends what the model follows.
  abbrev pub await_answer : Option CInt → Exec W CInt
  await_answer none w = (running, w)
  await_answer (some ret) w = (ok ret, w)

  -- ret after `select`
  abbrev pub after_select : CInt → Exec W Bool
  after_select minus_one = throw_socket "Failed to select"
  after_select (nonneg zero) = pure false
  after_select (nonneg (suc n)) = pure true

  unfoldable pub wait_write : Socket → ℕ → Exec W Bool
  wait_write s timeout_sec = do
    ret ← call (sys.select_write s (timeout_of timeout_sec))
    after_select ret

  unfoldable pub wait_read : Socket → ℕ → Exec W Bool
  wait_read s timeout_sec = do
    answer ← call (sys.select_read s (timeout_of timeout_sec))
    ret ← await_answer answer
    after_select ret

  -- The loop of `Impl::read`. The bytes that it has written to the buffer come back beside the
  -- result. Each round but the last takes a byte at least, so `remain` rounds are enough.
  unfoldable pub read_loop : ℕ → Socket → ℕ → Bytes → W → Result (Unit {0}) × Bytes × W
  read_loop zero s remain written w =
      if remain == 0 then (ok tt, written, w) else (running, written, w)
  read_loop (suc f) s remain written w =
      let (got, w') = sys.recv s remain w in
      elim (remain == 0) [
        | true ↦ (ok tt, written, w)
        | false ↦ elim got [
          | recv_waits ↦ (running, written, w')
          | recv_error ↦ (throws (socket "Failed to receive" (sys.errno w')), written, w')
          | received [] ↦ (throws (socket "Socket closed" (sys.errno w')), written, w')
          | received (b ∷ bs) ↦ read_loop f s (remain - length (b ∷ bs)) (written ++ (b ∷ bs)) w'
        ]
      ]

  unfoldable pub read : Socket → ℕ → W → Result (Unit {0}) × Bytes × W
  read s bytes w = read_loop bytes s bytes [] w

  -- The loop of `Impl::write`, for at most so many rounds. A `send` that takes no byte is repeated.
  unfoldable pub write_loop : ℕ → Socket → Bytes → Exec W (Unit {0})
  write_loop zero s [] w = (ok tt, w)
  write_loop zero s (b ∷ bs) w = (running, w)
  write_loop (suc f) s [] w = (ok tt, w)
  write_loop (suc f) s (b ∷ bs) w =
      let (ret, w') = sys.send s (b ∷ bs) w in
      elim ret [
        | none ↦ (running, w')
        | some minus_one ↦ (throws (socket "Failed to send" (sys.errno w')), w')
        | some (nonneg n) ↦ write_loop f s (drop n (b ∷ bs)) w'
      ]

  unfoldable pub write : Socket → Bytes → Exec W (Unit {0})
  write s bytes = write_loop sys.write_rounds s bytes

  unfoldable pub send_packet : Socket → Packet → Exec W (Unit {0})
  send_packet s packet = write s (to_bytes packet)

  abbrev pub packet_read : Result (Unit {0}) × Bytes × W → Packet → Result Packet × W
  packet_read (ok _, written, w) p = (ok (of_bytes (overwrite written (to_bytes p))), w)
  packet_read (throws e, written, w) p = (throws e, w)
  packet_read (running, written, w) p = (running, w)
  packet_read (fault, written, w) p = (fault, w)

  -- The packet comes back where it is read whole. No caller looks at it after an exception.
  unfoldable pub recv_packet : Socket → Packet → ℕ → Exec W Packet
  recv_packet s packet timeout_sec = do
    ready ← wait_read s timeout_sec
    socket_check ready "Receive timed out"
    λ w. packet_read (read s packet_size w) (initialize_packet packet)

  unfoldable pub send_buffer : Socket → Bytes → Exec W (Unit {0})
  send_buffer s buffer = if ltb 0 (length buffer) then write s buffer else pure tt

  abbrev buffer_read : Result (Unit {0}) × Bytes × W → Bytes → Result (Unit {0}) × Bytes × W
  buffer_read (r, written, w) buffer = (r, overwrite written buffer, w)

  abbrev pub buffer_wait : Result (Unit {0}) × W → Socket → Bytes → Result (Unit {0}) × Bytes × W
  buffer_wait (ok _, w) s buffer = buffer_read (read s (length buffer) w) buffer
  buffer_wait (throws e, w) s buffer = (throws e, buffer, w)
  buffer_wait (running, w) s buffer = (running, buffer, w)
  buffer_wait (fault, w) s buffer = (fault, buffer, w)

  -- The buffer comes back on every path: an exception leaves it with what had arrived.
  unfoldable pub recv_buffer : Socket → Bytes → ℕ → W → Result (Unit {0}) × Bytes × W
  recv_buffer s buffer timeout_sec w =
      if ltb 0 (length buffer)
      then buffer_wait
          ((do ready ← wait_read s timeout_sec; socket_check ready "Receive timed out") w) s buffer
      else (ok tt, buffer, w)
