-- ===== src/Socket/Frame.antt =====
-- What the calls on one socket leave alone: whatever its three system calls keep, sending and
-- receiving keep.
use stdsc.Base.{
  ℕ, zero, suc, ◌-◌, Option, none, some, String, Bool, true, false, [], ◌∷◌, ◌++◌, ◌==◌, length,
  drop, if◌then◌else◌, ltb,
}
use stdsc.Exec.{socket, Result, ok, throws, running, fault}
use stdsc.Exec.Preserving.{Preserves, >>=-Preserves, same-Preserves, if-Preserves}
use stdsc.System.{CInt, minus_one, nonneg, Received, recv_error, received, recv_waits, System}
use stdsc.Packet.{Bytes, Packet, packet_size, to_bytes}
use stdsc.Socket.{
  Socket, timeout_of, call, after_select, await_answer, socket_check, wait_read, read_loop, read,
  write_loop, write, send_packet, packet_read, recv_packet, send_buffer, buffer_wait, recv_buffer,
}

-- The predicate holds after a `recv`, a `send` and a `select` for reading on this descriptor if it
-- held before, whatever they return.
pub record Untouched {W : Type 0} (sys : System W) (s : Socket) (P : W → Type 0) : Type 0 where
  pub after_recv : (n : ℕ) (w : W) → P w → P (sys.recv s n w).1
  pub after_send : (bytes : Bytes) (w : W) → P w → P (sys.send s bytes w).1
  pub after_select_read : (t : Option ℕ) (w : W) → P w → P (sys.select_read s t w).1

module _ {W : Type 0} (sys : System W) (s : Socket) (P : W → Type 0)
    (frame : Untouched sys s P) where
  select-Preserves : (ret : CInt) → Preserves P (after_select sys ret)
  select-Preserves minus_one = record { after = λ w p. p }
  select-Preserves (nonneg zero) = same-Preserves P _
  select-Preserves (nonneg (suc n)) = same-Preserves P _

  await_answer-Preserves : (answer : Option CInt) → Preserves P (await_answer sys answer)
  await_answer-Preserves none = record { after = λ w p. p }
  await_answer-Preserves (some ret) = record { after = λ w p. p }

  pub socket_check-Preserves : (b : Bool) (m : String) → Preserves P (socket_check sys b m)
  socket_check-Preserves true m = record { after = λ w p. p }
  socket_check-Preserves false m = record { after = λ w p. p }

  wait_read-Preserves : (t : ℕ) → Preserves P (wait_read sys s t)
  unfolding wait_read
  wait_read-Preserves t =
      >>=-Preserves P {m = call sys (sys.select_read s (timeout_of t))}
        (record { after = λ w p. frame.after_select_read (timeout_of t) w p })
        (λ answer. >>=-Preserves P (await_answer-Preserves answer) select-Preserves)

  -- the rest of a round, with the outcome of `recv` and the test of the loop
  abbrev read_rest : ℕ → ℕ → Bytes → W → Bool → Received × W → Result (Unit {0}) × Bytes × W
  read_rest f remain written w last r = elim last [
    | true ↦ (ok tt, written, w)
    | false ↦ elim r.0 [
      | recv_waits ↦ (running, written, r.1)
      | recv_error ↦ (throws (socket "Failed to receive" (sys.errno r.1)), written, r.1)
      | received [] ↦ (throws (socket "Socket closed" (sys.errno r.1)), written, r.1)
      | received (b ∷ bs) ↦ read_loop sys f s (remain - length (b ∷ bs)) (written ++ (b ∷ bs)) r.1
    ]
  ]

  read_step :
      (f remain : ℕ) (written : Bytes) (w : W) (last : Bool) (r : Received × W)
      → ((n : ℕ) (bytes : Bytes) (w : W) → P w → P (read_loop sys f s n bytes w).2)
      → P w
      → P r.1
      → P (read_rest f remain written w last r).2
  read_step f remain written w true r next p q = p
  read_step f remain written w false (recv_waits, w') next p q = q
  read_step f remain written w false (recv_error, w') next p q = q
  read_step f remain written w false (received [], w') next p q = q
  read_step f remain written w false (received (b ∷ bs), w') next p q = next _ _ w' q

  either-keeps :
      (b : Bool) (x y : Result (Unit {0}) × Bytes × W) → P x.2 → P y.2 → P (if b then x else y).2
  either-keeps true x y p q = p
  either-keeps false x y p q = q

  read_loop-keeps :
      (f remain : ℕ) (written : Bytes) (w : W) → P w → P (read_loop sys f s remain written w).2
  unfolding read_loop
  read_loop-keeps zero remain written w p =
      either-keeps (remain == 0) (ok tt, written, w) (running, written, w) p p
  read_loop-keeps (suc f) remain written w p =
      read_step f remain written w (remain == 0) (sys.recv s remain w) (read_loop-keeps f) p
        (frame.after_recv remain w p)

  read-keeps : (n : ℕ) (w : W) → P w → P (read sys s n w).2
  unfolding read
  read-keeps n w p = read_loop-keeps n n [] w p

  abbrev write_rest : ℕ → Bytes → Option CInt × W → Result (Unit {0}) × W
  write_rest f bytes r = elim r.0 [
    | none ↦ (running, r.1)
    | some minus_one ↦ (throws (socket "Failed to send" (sys.errno r.1)), r.1)
    | some (nonneg n) ↦ write_loop sys f s (drop n bytes) r.1
  ]

  write_step :
      (f : ℕ) (bytes : Bytes) (r : Option CInt × W)
      → ((rest : Bytes) → Preserves P (write_loop sys f s rest))
      → P r.1
      → P (write_rest f bytes r).1
  write_step f bytes (none, w) next p = p
  write_step f bytes (some minus_one, w) next p = p
  write_step f bytes (some (nonneg n), w) next p = (next (drop n bytes)).after w p

  write_loop-Preserves : (f : ℕ) (bytes : Bytes) → Preserves P (write_loop sys f s bytes)
  unfolding write_loop
  write_loop-Preserves zero [] = record { after = λ w p. p }
  write_loop-Preserves zero (b ∷ bs) = record { after = λ w p. p }
  write_loop-Preserves (suc f) [] = record { after = λ w p. p }
  write_loop-Preserves (suc f) (b ∷ bs) = record {
    after = λ w p.
        write_step f (b ∷ bs) (sys.send s (b ∷ bs) w) (write_loop-Preserves f)
          (frame.after_send (b ∷ bs) w p);
  }

  write-Preserves : (bytes : Bytes) → Preserves P (write sys s bytes)
  unfolding write
  write-Preserves bytes = write_loop-Preserves sys.write_rounds bytes

  pub send_packet-Preserves : (p : Packet) → Preserves P (send_packet sys s p)
  unfolding send_packet
  send_packet-Preserves p = write-Preserves (to_bytes p)

  pub send_buffer-Preserves : (buffer : Bytes) → Preserves P (send_buffer sys s buffer)
  unfolding send_buffer
  send_buffer-Preserves buffer =
      if-Preserves P _ (write-Preserves buffer) (same-Preserves P (ok tt))

  packet_read-keeps :
      (r : Result (Unit {0}) × Bytes × W) (p : Packet) → P r.2 → P (packet_read sys r p).1
  packet_read-keeps (ok _, bytes, w) p q = q
  packet_read-keeps (throws e, bytes, w) p q = q
  packet_read-keeps (running, bytes, w) p q = q
  packet_read-keeps (fault, bytes, w) p q = q

  pub recv_packet-Preserves : (p : Packet) (t : ℕ) → Preserves P (recv_packet sys s p t)
  unfolding recv_packet
  recv_packet-Preserves p t = >>=-Preserves P (wait_read-Preserves t) (λ ready.
      >>=-Preserves P (socket_check-Preserves ready "Receive timed out")
        (λ _. record { after = λ w q. packet_read-keeps _ _ (read-keeps packet_size w q) }))

  buffer_wait-keeps :
      (r : Result (Unit {0}) × W) (buffer : Bytes) → P r.1 → P (buffer_wait sys r s buffer).2
  buffer_wait-keeps (ok _, w) buffer p = read-keeps (length buffer) w p
  buffer_wait-keeps (throws e, w) buffer p = p
  buffer_wait-keeps (running, w) buffer p = p
  buffer_wait-keeps (fault, w) buffer p = p

  pub recv_buffer-keeps :
      (buffer : Bytes) (t : ℕ) (w : W) → P w → P (recv_buffer sys s buffer t w).2
  unfolding recv_buffer
  recv_buffer-keeps buffer t w p =
      let waited =
        >>=-Preserves P (wait_read-Preserves t)
          (λ ready. socket_check-Preserves ready "Receive timed out") in
      either-keeps (ltb 0 (length buffer)) _ (ok tt, buffer, w)
        (buffer_wait-keeps _ buffer (waited.after w p)) p
