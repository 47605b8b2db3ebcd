-- ===== src/Socket/Exchange.antt =====
-- Packets and buffers over a connection, each as one exchange with its two streams.
use stdsc.Base.{
  ◌≤◌, ◌<◌, ◌≡◌, refl, sym, [], ◌∷◌, ◌++◌, arith, length, length-append, append-nil, true, lt→ltb,
  drop_all, take-append, drop-append,
}
use stdsc.Exec.{ok}
use stdsc.System.{System}
use stdsc.Packet.{Bytes, Packet, packet_size, to_bytes, initialize_packet}
use stdsc.Packet.Wire.{IsPacket, initialize_packet-IsPacket, length-to_bytes, of_bytes-to_bytes}
use stdsc.Socket.{
  Socket, time_infinite, wait_read, send_packet, recv_packet, send_buffer, recv_buffer, overwrite,
}
use stdsc.Socket.Connection.{IsConnection, read_lem, write_lem}

length-initialize_packet : (p : Packet) → length (to_bytes (initialize_packet p)) ≡ packet_size
length-initialize_packet p = length-to_bytes (initialize_packet p) (initialize_packet-IsPacket p)

-- Memory that is written whole holds what was written.
overwrite_all :
    (written old : Bytes) → length old ≤ length written → overwrite written old ≡ written
overwrite_all written old h = rw (drop_all (length written) old h) (append-nil written)

module _ {W : Type 0} (sys : System W) (s : Socket) {conn : W → Bytes → Bytes → Type 0}
    (law : IsConnection sys s conn) where
  wait_read_lem :
      (w : W) (i o : Bytes)
      → conn w i o
      → 0 < length i
      → (w' : W) × (wait_read sys s time_infinite w ≡ (ok true, w')) × conn w' i o
  unfolding wait_read
  wait_read_lem w i o c h = let (n, w', e, c') = law.select_some w i o c h in (w', rw e refl, c')

  pub send_packet_lem :
      (p : Packet) (w : W) (i o : Bytes)
      → packet_size ≤ sys.write_rounds
      → IsPacket p
      → conn w i o
      → (w' : W) × (send_packet sys s p w ≡ (ok tt, w')) × conn w' i (o ++ to_bytes p)
  unfolding send_packet
  send_packet_lem p w i o r h c =
      write_lem sys s law (to_bytes p) w i o (omega (arith, length-to_bytes p h)) c

  -- Over a connection that does not fail (IsConnection): when the bytes of a packet of the declared
  -- layout come next, `recv_packet` without a timeout returns that packet, whatever the packet it is
  -- to fill held, and takes no byte more.
  pub recv_packet_lem :
      (p q : Packet) (w : W) (i o : Bytes)
      → IsPacket p
      → conn w (to_bytes p ++ i) o
      → (w' : W) × (recv_packet sys s q time_infinite w ≡ (ok p, w')) × conn w' i o
  unfolding recv_packet
  recv_packet_lem p q w i o h c =
      let size = length-to_bytes p h in
      let (w₁, waited, c₁) =
        wait_read_lem w (to_bytes p ++ i) o c (omega (arith, size, length-append (to_bytes p) i)) in
      let (w₂, got, c₂) =
        read_lem sys s law packet_size w₁ (to_bytes p ++ i) o
          (omega (arith, size, length-append (to_bytes p) i)) c₁ in
      (
        w₂,
        rw waited (
            rw got (
              rw (take-append (to_bytes p) i packet_size (sym size)) (
                rw
                  (
                    overwrite_all (to_bytes p) (to_bytes (initialize_packet q))
                        (omega (arith, size, length-initialize_packet q)),
                    of_bytes-to_bytes p h,
                  )
                  refl))),
        rw (drop-append (to_bytes p) i packet_size (sym size)) at c₂,
      )

  -- An empty buffer is not sent at all, and one with bytes as a whole.
  pub send_buffer_lem :
      (buffer : Bytes) (w : W) (i o : Bytes)
      → length buffer ≤ sys.write_rounds
      → conn w i o
      → (w' : W) × (send_buffer sys s buffer w ≡ (ok tt, w')) × conn w' i (o ++ buffer)
  unfolding send_buffer
  send_buffer_lem [] w i o r c = (w, refl, rw (append-nil o) c)
  send_buffer_lem (b ∷ bs) w i o r c =
      let (w', sent, c') = write_lem sys s law (b ∷ bs) w i o r c in
      (w', rw (lt→ltb 0 (length (b ∷ bs)) (omega arith)) sent, c')

  recv_buffer_some :
      (bytes buffer : Bytes) (w : W) (i o : Bytes)
      → length bytes ≡ length buffer
      → 0 < length buffer
      → conn w (bytes ++ i) o
      → (w' : W) × (recv_buffer sys s buffer time_infinite w ≡ (ok tt, bytes, w')) × conn w' i o
  unfolding recv_buffer
  recv_buffer_some bytes buffer w i o e h c =
      let (w₁, waited, c₁) =
        wait_read_lem w (bytes ++ i) o c (omega (arith, e, length-append bytes i)) in
      let (w₂, got, c₂) =
        read_lem sys s law (length buffer) w₁ (bytes ++ i) o
          (omega (arith, e, length-append bytes i)) c₁ in
      (
        w₂,
        rw (lt→ltb 0 (length buffer) h) (
            rw waited (
              rw got (
                rw (take-append bytes i (length buffer) (sym e))
                  (rw (overwrite_all bytes buffer (omega (arith, e))) refl)))),
        rw (drop-append bytes i (length buffer) (sym e)) at c₂,
      )

  -- A buffer is filled by exactly as many bytes as it has room for.
  pub recv_buffer_lem :
      (bytes buffer : Bytes) (w : W) (i o : Bytes)
      → length bytes ≡ length buffer
      → conn w (bytes ++ i) o
      → (w' : W) × (recv_buffer sys s buffer time_infinite w ≡ (ok tt, bytes, w')) × conn w' i o
  recv_buffer_lem [] [] w i o e c = (w, unfold recv_buffer in refl, c)
  recv_buffer_lem (b ∷ bs) [] w i o e c = absurd (omega arith)
  recv_buffer_lem bytes (x ∷ xs) w i o e c = recv_buffer_some bytes (x ∷ xs) w i o e (omega arith) c
