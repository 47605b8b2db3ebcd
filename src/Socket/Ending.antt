-- ===== src/Socket/Ending.antt =====
-- The transfers of a socket return or throw, whatever the calls of the system return, where each of
-- these calls returns and a `send` that does not fail takes a byte at least.
use stdsc.Base.{
  Option, none, some, ℕ, zero, suc, ◌-◌, ◌≤◌, ◌<◌, ◌≡◌, ◌≢◌, refl, String, Bool, true, false, [],
  ◌∷◌, ◌++◌, ◌==◌, length, drop, length-drop, if◌then◌else◌, ltb, arith,
}
use stdsc.Exec.{socket, Result, ok, throws, running, fault, ◌>>=◌}
use stdsc.Exec.Ending.{Ended, returned, threw, Ends, >>=-Ends, if-Ends}
use stdsc.System.{CInt, minus_one, nonneg, Received, recv_error, received, recv_waits, System}
use stdsc.Packet.{Bytes, Packet, packet_size, to_bytes}
use stdsc.Packet.Wire.{IsPacket, length-to_bytes}
use stdsc.Socket.{
  Socket, timeout_of, after_select, await_answer, socket_check, wait_read, read_loop, read,
  write_loop, write, send_packet, packet_read, recv_packet, send_buffer, buffer_wait, recv_buffer,
}

-- A `select` for reading returns, at once or when something has come.
pub record Selects {W : Type 0} (sys : System W) (s : Socket) : Type 0 where
  pub answers : (t : Option ℕ) (w : W) → (sys.select_read s t w).0 ≢ none

-- Each `select` for reading, `recv` and `send` returns, and a `send` that is given bytes fails or takes
-- one at least: the peer keeps none of these calls waiting for ever.
pub record Responds {W : Type 0} (sys : System W) (s : Socket) : Type 0 where
  pub selects : Selects sys s
  pub recv_answers : (n : ℕ) (w : W) → (sys.recv s n w).0 ≢ recv_waits
  pub send_answers : (bytes : Bytes) (w : W) → (sys.send s bytes w).0 ≢ none
  pub some_byte : (b : ℕ) (bs : Bytes) (w : W) → (sys.send s (b ∷ bs) w).0 ≢ some (nonneg 0)

module _ {W : Type 0} (sys : System W) (s : Socket) where
  pub socket_check-Ends : (b : Bool) (m : String) → Ends (socket_check sys b m)
  socket_check-Ends true m = record { from = λ w. returned }
  socket_check-Ends false m = record { from = λ w. threw }

  selected-Ends : (ret : CInt) → Ends (after_select sys ret)
  selected-Ends minus_one = record { from = λ w. threw }
  selected-Ends (nonneg zero) = record { from = λ w. returned }
  selected-Ends (nonneg (suc n)) = record { from = λ w. returned }

module _ {W : Type 0} (sys : System W) (s : Socket) (responds : Responds sys s) where
  answered-Ended :
      (r : Option CInt × W)
      → r.0 ≢ none
      → Ended ((do ret ← await_answer sys r.0; after_select sys ret) r.1).0
  answered-Ended (none, w) h = absurd (h refl)
  answered-Ended (some ret, w) h = (selected-Ends sys s ret).from w

  wait_read-Ends : (t : ℕ) → Ends (wait_read sys s t)
  unfolding wait_read
  wait_read-Ends t = record {
    from = λ w.
        answered-Ended (sys.select_read s (timeout_of t) w)
          (responds.selects.answers (timeout_of t) w);
  }

  waited-Ends :
      (t : ℕ) → Ends (do ready ← wait_read sys s t; socket_check sys ready "Receive timed out")
  waited-Ends t =
      >>=-Ends (wait_read-Ends t) (λ ready. socket_check-Ends sys s ready "Receive timed out")

  abbrev read_rest : ℕ → ℕ → Bytes → W → Bool → Received × W → Result (Unit {0}) × Bytes × W
  read_rest f remain written w last r = elim last [
    | true ↦ (ok tt, written, w)
    | false ↦ elim r.0 [
      | recv_waits ↦ (running, written, r.1)
      | recv_error ↦ (throws (socket "Failed to receive" (sys.errno r.1)), written, r.1)
      | received [] ↦ (throws (socket "Socket closed" (sys.errno r.1)), written, r.1)
      | received (b ∷ bs) ↦ read_loop sys f s (remain - length (b ∷ bs)) (written ++ (b ∷ bs)) r.1
    ]
  ]

  read_rest-Ended :
      (f remain : ℕ) (written : Bytes) (w : W) (last : Bool) (r : Received × W)
      → ((n : ℕ) (bytes : Bytes) (w : W) → n < remain → Ended (read_loop sys f s n bytes w).0)
      → (remain == 0) ≡ last
      → r.0 ≢ recv_waits
      → Ended (read_rest f remain written w last r).0
  read_rest-Ended f remain written w true r next e a = returned
  read_rest-Ended f remain written w false (recv_waits, w') next e a = absurd (a refl)
  read_rest-Ended f remain written w false (recv_error, w') next e a = threw
  read_rest-Ended f remain written w false (received [], w') next e a = threw
  read_rest-Ended f remain written w false (received (b ∷ bs), w') next e a =
      next _ _ w' (ground (arith, e))

  read_loop-Ended :
      (f remain : ℕ) (written : Bytes) (w : W)
      → remain ≤ f
      → Ended (read_loop sys f s remain written w).0
  unfolding read_loop
  read_loop-Ended zero remain written w h =
      let over : remain ≡ 0 = omega (arith, h) in rw over returned
  read_loop-Ended (suc f) remain written w h =
      read_rest-Ended f remain written w (remain == 0) (sys.recv s remain w)
        (λ n bytes w' l. read_loop-Ended f n bytes w' (omega (arith, h, l))) refl
        (responds.recv_answers remain w)

  read-Ended : (n : ℕ) (w : W) → Ended (read sys s n w).0
  unfolding read
  read-Ended n w = read_loop-Ended n n [] w (omega arith)

  packet_read-Ended :
      (r : Result (Unit {0}) × Bytes × W) (p : Packet) → Ended r.0 → Ended (packet_read sys r p).0
  packet_read-Ended (ok _, bytes, w) p h = returned
  packet_read-Ended (throws e, bytes, w) p h = threw
  packet_read-Ended (running, bytes, w) p h = elim h [ ]
  packet_read-Ended (fault, bytes, w) p h = elim h [ ]

  pub recv_packet-Ends : (p : Packet) (t : ℕ) → Ends (recv_packet sys s p t)
  unfolding recv_packet
  recv_packet-Ends p t = >>=-Ends (wait_read-Ends t) (λ ready.
      >>=-Ends (socket_check-Ends sys s ready "Receive timed out")
        (λ _. record { from = λ w. packet_read-Ended _ _ (read-Ended packet_size w) }))

  buffer_wait-Ended :
      (r : Result (Unit {0}) × W) (buffer : Bytes)
      → Ended r.0
      → Ended (buffer_wait sys r s buffer).0
  buffer_wait-Ended (ok _, w) buffer h = read-Ended (length buffer) w
  buffer_wait-Ended (throws e, w) buffer h = threw
  buffer_wait-Ended (running, w) buffer h = elim h [ ]
  buffer_wait-Ended (fault, w) buffer h = elim h [ ]

  either-Ended :
      (b : Bool) (x y : Result (Unit {0}) × Bytes × W)
      → Ended x.0
      → Ended y.0
      → Ended (if b then x else y).0
  either-Ended true x y p q = p
  either-Ended false x y p q = q

  pub recv_buffer-Ended : (buffer : Bytes) (t : ℕ) (w : W) → Ended (recv_buffer sys s buffer t w).0
  unfolding recv_buffer
  recv_buffer-Ended buffer t w =
      either-Ended (ltb 0 (length buffer)) _ (ok tt, buffer, w)
        (buffer_wait-Ended _ buffer ((waited-Ends t).from w)) returned

  abbrev write_rest : ℕ → Bytes → Option CInt × W → Result (Unit {0}) × W
  write_rest f bytes r = elim r.0 [
    | none ↦ (running, r.1)
    | some minus_one ↦ (throws (socket "Failed to send" (sys.errno r.1)), r.1)
    | some (nonneg n) ↦ write_loop sys f s (drop n bytes) r.1
  ]

  write_rest-Ended :
      (f : ℕ) (bytes : Bytes) (r : Option CInt × W)
      → ((rest : Bytes) → length rest < length bytes → Ends (write_loop sys f s rest))
      → 0 < length bytes
      → r.0 ≢ none
      → r.0 ≢ some (nonneg 0)
      → Ended (write_rest f bytes r).0
  write_rest-Ended f bytes (none, w) next l a h = absurd (a refl)
  write_rest-Ended f bytes (some minus_one, w) next l a h = threw
  write_rest-Ended f bytes (some (nonneg zero), w) next l a h = absurd (h refl)
  write_rest-Ended f bytes (some (nonneg (suc n)), w) next l a h =
      (next (drop (suc n) bytes) (omega (arith, l, length-drop (suc n) bytes))).from w

  write_loop-Ends : (f : ℕ) (bytes : Bytes) → length bytes ≤ f → Ends (write_loop sys f s bytes)
  unfolding write_loop
  write_loop-Ends zero [] h = record { from = λ w. returned }
  write_loop-Ends zero (b ∷ bs) h = absurd (omega (arith, h))
  write_loop-Ends (suc f) [] h = record { from = λ w. returned }
  write_loop-Ends (suc f) (b ∷ bs) h = record {
    from = λ w.
        write_rest-Ended f (b ∷ bs) (sys.send s (b ∷ bs) w)
          (λ rest l. write_loop-Ends f rest (omega (arith, h, l))) (omega arith)
          (responds.send_answers (b ∷ bs) w) (responds.some_byte b bs w);
  }

  pub send_packet-Ends :
      (p : Packet) → IsPacket p → packet_size ≤ sys.write_rounds → Ends (send_packet sys s p)
  unfolding send_packet write
  send_packet-Ends p h rounds =
      write_loop-Ends sys.write_rounds (to_bytes p) (omega (arith, length-to_bytes p h, rounds))

  pub send_buffer-Ends :
      (buffer : Bytes) → length buffer ≤ sys.write_rounds → Ends (send_buffer sys s buffer)
  unfolding send_buffer write
  send_buffer-Ends buffer h =
      if-Ends _ (write_loop-Ends sys.write_rounds buffer h) (record { from = λ w. returned })
