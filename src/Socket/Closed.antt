-- ===== src/Socket/Closed.antt =====
-- The receiving half on a connection whose peer has closed it: what had been sent, and then the end
-- of the stream.
use stdsc.Base.{
  ℕ, zero, suc, ◌-◌, ◌≤◌, ◌<◌, ◌≡◌, refl, ap, ◌∙◌, none, some, [], ◌∷◌, ◌++◌, arith, length, take,
  drop, length-drop, append_assoc, append-nil, take-append-drop, lt→ltb, true,
}
use stdsc.Exec.{Exception, socket, Result, ok, throws}
use stdsc.System.{nonneg, received, System}
use stdsc.Packet.{Bytes, Packet, packet_size}
use stdsc.Socket.{
  Socket, time_infinite, wait_read, read_loop, read, recv_packet, recv_buffer, overwrite,
}
use stdsc.Socket.Connection.{IsConnection, read_round}

-- POSIX: once all bytes are received of a peer that has closed, `recv` delivers none, and `select`
-- finds the descriptor ready.
pub record IsClosed {W : Type 0} (sys : System W) (s : Socket) (conn : W → Bytes → Bytes → Type 0)
    : Type 0 where
  pub connection : IsConnection sys s conn
  pub recv_end :
      (w : W) (o : Bytes) (n : ℕ)
      → conn w [] o
      → 0 < n
      → (w' : W) × (sys.recv s n w ≡ (received [], w')) × conn w' [] o
  pub select_end :
      (w : W) (o : Bytes)
      → conn w [] o
      → (n : ℕ) × (w' : W) × (sys.select_read s none w ≡ (some (nonneg (suc n)), w')) × conn w' [] o

abbrev pub closed_by_peer : ℕ → Exception
closed_by_peer code = socket "Socket closed" code

module _ {W : Type 0} (sys : System W) (s : Socket) {conn : W → Bytes → Bytes → Type 0}
    (law : IsClosed sys s conn) where
  -- what a loop of reads comes to that the end of the stream cuts short
  Ends : Bytes → Bytes → Bytes → Result (Unit {0}) × Bytes × W → Type 0
  Ends i o written r =
      (w' : W) × (r ≡ (throws (closed_by_peer (sys.errno w')), written ++ i, w')) × conn w' [] o

  end_round :
      (f remain : ℕ) (written : Bytes) (w w' : W)
      → sys.recv s (suc remain) w ≡ (received [], w')
      → read_loop sys (suc f) s (suc remain) written w
        ≡ (throws (closed_by_peer (sys.errno w')), written, w')
  unfolding read_loop
  end_round f remain written w w' e = ground (arith, e)

  read_loop-Ends :
      (f n : ℕ) (written i o : Bytes) (w : W)
      → n ≤ f
      → length i < n
      → conn w i o
      → Ends i o written (read_loop sys f s n written w)
  unfolding Ends
  read_loop-Ends zero n written i o w h l c = absurd (omega arith)
  read_loop-Ends (suc f) zero written i o w h l c = absurd (omega arith)
  read_loop-Ends (suc f) (suc n) written [] o w h l c =
      let (w₁, got, c₁) = law.recv_end w o (suc n) c (omega arith) in
      (w₁, end_round f n written w w₁ got ∙ rw append-nil refl, c₁)
  read_loop-Ends (suc f) (suc n) written (b ∷ bs) o w h l c =
      let i = b ∷ bs in
      let (k, w₁, got, any, most, there, c₁) =
        law.connection.recv_some w i o (suc n) c (omega arith) (omega arith) in
      let (w₂, rest, c₂) =
        read_loop-Ends f (suc n - k) (written ++ take k i) (drop k i) o w₁ (omega arith)
          (omega (arith, length-drop k i)) c₁ in
      (
        w₂,
        read_round sys s law.connection f n k written i w w₁ got any there
            ∙ rest
            ∙ ap (λ (x : Bytes). (throws (closed_by_peer (sys.errno w₂)), x, w₂))
                (append_assoc written (take k i) (drop k i)
                  ∙ ap (λ x. written ++ x) (take-append-drop k i)),
        c₂,
      )

  -- On a connection that its peer has closed, over a system as POSIX has it (IsClosed), with less
  -- than the n wanted bytes to come: `read` throws the socket exception "Socket closed" with the
  -- errno of that moment, the bytes that had come are in the buffer in order, and none is left to
  -- receive.
  pub read_short :
      (n : ℕ) (w : W) (i o : Bytes)
      → length i < n
      → conn w i o
      → (w' : W) × (read sys s n w ≡ (throws (closed_by_peer (sys.errno w')), i, w')) × conn w' [] o
  unfolding read Ends
  read_short n w i o l c = read_loop-Ends n n [] i o w (omega arith) l c

  wait_read_end :
      (w : W) (i o : Bytes)
      → conn w i o
      → (w' : W) × (wait_read sys s time_infinite w ≡ (ok true, w')) × conn w' i o
  unfolding wait_read
  wait_read_end w [] o c = let (n, w', e, c') = law.select_end w o c in (w', rw e refl, c')
  wait_read_end w (b ∷ bs) o c =
      let (n, w', e, c') = law.connection.select_some w (b ∷ bs) o c (omega arith) in
      (w', rw e refl, c')

  -- A packet that comes in part only is not received: the exception is that of `read`.
  pub recv_packet_short :
      (p : Packet) (w : W) (i o : Bytes)
      → length i < packet_size
      → conn w i o
      → (w' : W) × (recv_packet sys s p time_infinite w
          ≡ (throws (closed_by_peer (sys.errno w')), w'))
        × conn w' [] o
  unfolding recv_packet
  recv_packet_short p w i o l c =
      let (w₁, waited, c₁) = wait_read_end w i o c in
      let (w₂, got, c₂) = read_short packet_size w₁ i o l c₁ in (w₂, rw waited (rw got refl), c₂)

  -- A buffer that is filled in part only holds the bytes that came, before those that it held.
  pub recv_buffer_short :
      (buffer : Bytes) (w : W) (i o : Bytes)
      → length i < length buffer
      → conn w i o
      → (w' : W) × (recv_buffer sys s buffer time_infinite w
          ≡ (throws (closed_by_peer (sys.errno w')), overwrite i buffer, w'))
        × conn w' [] o
  unfolding recv_buffer
  recv_buffer_short buffer w i o l c =
      let (w₁, waited, c₁) = wait_read_end w i o c in
      let (w₂, got, c₂) = read_short (length buffer) w₁ i o l c₁ in
      (w₂, rw (lt→ltb 0 (length buffer) (omega arith)) (rw waited (rw got refl)), c₂)
