-- ===== src/Client/Silent.antt =====
-- What a blocking request comes to when the server answers nothing.
use stdsc.Base.{ℕ, ◌^◌, ◌≤◌, ◌<◌, ◌≡◌, refl, ◌∙◌, none, [], ◌++◌, inr, lt→ltb}
use stdsc.Exec.{running}
use stdsc.System.{System}
use stdsc.Packet.{Bytes, Packet, packet_size, to_bytes, new_packet, make_packet}
use stdsc.Packet.Wire.{make_packet-IsPacket}
use stdsc.Socket.{Socket, time_infinite, wait_read, recv_packet}
use stdsc.Socket.Connection.{IsConnection}
use stdsc.Socket.Exchange.{send_packet_lem}
use stdsc.Client.{drop_socket_exception, send_request, send_request_impl, send_request_blocking}
use stdsc.Client.Retry.{calc_retry_count}
use stdsc.Client.Attempts.{none_yet, send_request_blocking_lem}

-- POSIX: while the peer keeps the connection open and sends nothing, a `select` without a timeout does
-- not return.
pub record IsSilent {W : Type 0} (sys : System W) (s : Socket) (conn : W → Bytes → Bytes → Type 0)
    : Type 0 where
  pub connection : IsConnection sys s conn
  pub select_waits :
      (w : W) (o : Bytes)
      → conn w [] o
      → (w' : W) × (sys.select_read s none w ≡ (none, w')) × conn w' [] o

module _ {W : Type 0} (sys : System W) (s : Socket) {conn : W → Bytes → Bytes → Type 0}
    (law : IsSilent sys s conn) (rounds : packet_size ≤ sys.write_rounds) where
  recv_packet_silent :
      (p : Packet) (w : W) (o : Bytes)
      → conn w [] o
      → (w' : W) × (recv_packet sys s p time_infinite w ≡ (running, w')) × conn w' [] o
  unfolding recv_packet wait_read
  recv_packet_silent p w o c = let (w', e, c') = law.select_waits w o c in (w', rw e refl, c')

  send_request_silent :
      (code : ℕ) (w : W) (o : Bytes)
      → code < 2 ^ 64
      → conn w [] o
      → (w' : W) × (send_request sys s code w ≡ (running, w'))
        × conn w' [] (o ++ to_bytes (make_packet code))
  unfolding send_request send_request_impl drop_socket_exception
  send_request_silent code w o h c =
      let (w₁, sent, c₁) =
        send_packet_lem sys s law.connection (make_packet code) w [] o rounds
          (make_packet-IsPacket code h) c in
      let (w₂, waits, c₂) = recv_packet_silent (new_packet 0) w₁ _ c₁ in
      (w₂, rw sent (rw waits refl), c₂)

  -- Over a connection that does not fail and whose peer sends nothing, so that a `select` without a
  -- timeout does not return (IsSilent), with enough rounds of `send` for a packet, a number of
  -- attempts that is not 0 and a 64-bit code: a blocking request, with any timeout, hands over
  -- exactly its one packet and then waits for ever, so that its timeout never takes effect.
  pub send_request_blocking-silent :
      (code usec timeout_sec : ℕ) (w : W) (o : Bytes)
      → 0 < calc_retry_count timeout_sec usec
      → code < 2 ^ 64
      → conn w [] o
      → (w' : W) × (send_request_blocking sys s code usec timeout_sec w ≡ (running, w'))
        × conn w' [] (o ++ to_bytes (make_packet code))
  send_request_blocking-silent code usec timeout_sec w o n h c =
      let (w', once, c') = send_request_silent code w o h c in
      (
        w',
        send_request_blocking_lem sys s code usec timeout_sec 0 w w none_yet (inr (n, rw once refl))
            ∙ rw (lt→ltb 0 (calc_retry_count timeout_sec usec) n) once,
        c',
      )
