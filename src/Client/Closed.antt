-- ===== src/Client/Closed.antt =====
-- What the blocking calls come to when the peer closes the connection in place of an answer.
use stdsc.Base.{ℕ, ◌^◌, ◌≤◌, ◌<◌, ◌≡◌, refl, ◌∙◌, [], ◌++◌, length, inr, lt→ltb}
use stdsc.Exec.{ok}
use stdsc.System.{System}
use stdsc.Packet.{Bytes, packet_size, to_bytes, new_packet, make_packet, set_data_size}
use stdsc.Packet.Wire.{make_packet-IsPacket}
use stdsc.Packet.Groups.{CarriesData, make_data_packet-ok, announced-IsPacket}
use stdsc.Socket.{Socket}
use stdsc.Socket.Exchange.{send_packet_lem, send_buffer_lem}
use stdsc.Socket.Closed.{IsClosed, recv_packet_short}
use stdsc.Client.{
  drop_socket_exception, send_data, send_data_impl, recv_data, recv_data_impl, recv_reply,
  send_data_blocking, recv_data_blocking,
}
use stdsc.Client.Retry.{calc_retry_count}
use stdsc.Client.Attempts.{none_yet}
use stdsc.Client.Blocking.{send_data_blocking_lem, recv_data_blocking_lem}

module _ {W : Type 0} (sys : System W) (s : Socket) {conn : W → Bytes → Bytes → Type 0}
    (law : IsClosed sys s conn) (rounds : packet_size ≤ sys.write_rounds) where
  send_data_short :
      (code : ℕ) (buffer : Bytes) (w : W) (i o : Bytes)
      → code < 2 ^ 64
      → CarriesData code
      → length buffer ≤ sys.write_rounds
      → length i < packet_size
      → conn w i o
      → (w' : W) × (send_data sys s code buffer w ≡ (ok tt, w'))
        × conn w' [] (o ++ to_bytes (set_data_size (new_packet code) (length buffer)) ++ buffer)
  unfolding send_data send_data_impl drop_socket_exception
  send_data_short code buffer w i o h g r l c =
      let (w₁, sent, c₁) =
        send_packet_lem sys s law.connection (set_data_size (new_packet code) (length buffer)) w i o
          rounds (announced-IsPacket code (length buffer) h) c in
      let (w₂, buffered, c₂) = send_buffer_lem sys s law.connection buffer w₁ i _ r c₁ in
      let (w₃, ended, c₃) = recv_packet_short sys s law (new_packet 0) w₂ i _ l c₂ in
      (
        w₃,
        rw (make_data_packet-ok w code (length buffer) g) (rw sent (rw buffered (rw ended refl))),
        c₃,
      )

  recv_data_short :
      (code : ℕ) (buffer : Bytes) (w : W) (i o : Bytes)
      → code < 2 ^ 64
      → length i < packet_size
      → conn w i o
      → (w' : W) × (recv_data sys s code (buffer, w) ≡ (ok tt, (buffer, w')))
        × conn w' [] (o ++ to_bytes (make_packet code))
  unfolding recv_data recv_data_impl recv_reply drop_socket_exception
  recv_data_short code buffer w i o h l c =
      let (w₁, sent, c₁) =
        send_packet_lem sys s law.connection (make_packet code) w i o rounds
          (make_packet-IsPacket code h) c in
      let (w₂, ended, c₂) = recv_packet_short sys s law (new_packet 0) w₁ i _ l c₁ in
      (w₂, rw sent (rw ended refl), c₂)

  -- Data that are never acknowledged count as sent: with an attempt at all, the call returns after the
  -- first one as if it had succeeded.
  pub send_data_blocking-short :
      (code usec timeout_sec : ℕ) (buffer : Bytes) (w : W) (i o : Bytes)
      → 0 < calc_retry_count timeout_sec usec
      → code < 2 ^ 64
      → CarriesData code
      → length buffer ≤ sys.write_rounds
      → length i < packet_size
      → conn w i o
      → (w' : W) × (send_data_blocking sys s code buffer usec timeout_sec w ≡ (ok tt, w'))
        × conn w' [] (o ++ to_bytes (set_data_size (new_packet code) (length buffer)) ++ buffer)
  send_data_blocking-short code usec timeout_sec buffer w i o n h g r l c =
      let (w', once, c') = send_data_short code buffer w i o h g r l c in
      (
        w',
        send_data_blocking_lem sys code usec timeout_sec 0 buffer s w w none_yet
              (inr (n, rw once refl))
            ∙ rw (lt→ltb 0 (calc_retry_count timeout_sec usec) n) once,
        c',
      )

  -- On a connection that its peer has closed, over a system as POSIX has it (IsClosed), with less
  -- than a packet to come, a number of attempts that is not 0, a 64-bit code and enough rounds of
  -- `send` for a packet: recv_data_blocking sends its request, returns as if it had succeeded, and
  -- leaves the buffer as it was.
  pub recv_data_blocking-short :
      (code usec timeout_sec : ℕ) (buffer : Bytes) (w : W) (i o : Bytes)
      → 0 < calc_retry_count timeout_sec usec
      → code < 2 ^ 64
      → length i < packet_size
      → conn w i o
      → (w' : W) × (recv_data_blocking sys s code usec timeout_sec (buffer, w)
          ≡ (ok tt, (buffer, w')))
        × conn w' [] (o ++ to_bytes (make_packet code))
  recv_data_blocking-short code usec timeout_sec buffer w i o n h l c =
      let (w', once, c') = recv_data_short code buffer w i o h l c in
      (
        w',
        recv_data_blocking_lem sys code usec timeout_sec 0 s (buffer, w) (buffer, w) none_yet
              (inr (n, rw once refl))
            ∙ rw (lt→ltb 0 (calc_retry_count timeout_sec usec) n) once,
        c',
      )
