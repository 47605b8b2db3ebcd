-- ===== src/AddServer/Together/Accepted.antt =====
-- The calls of a client whose answer is an Accept, from what their own calls come to.
use stdsc.Base.{ℕ, ◌≡◌, ap, ◌∙◌, length}
use stdsc.Exec.{ok, Result}
use stdsc.System.{System}
use stdsc.Packet.{Bytes, new_packet, set_data_size, make_packet}
use stdsc.Packet.ControlCode
use stdsc.Packet.Groups.{CarriesData, make_data_packet-ok}
use stdsc.Socket.{Socket, time_infinite, send_packet, send_buffer, recv_packet}
use stdsc.Callback.{nat_eq}
use stdsc.Client.{send_data, send_data_impl, send_request, send_request_impl}
use stdsc.Client.Exchange.{verdict, check_verdict}
use stdsc.AddServer.Protocol.ClientSide.{accepting}

-- The exchanges of a client whose calls are each known to succeed, and whose answer is an Accept.
module _ {W : Type 0} (sys : System W) (s : Socket) where
  pub send_data-accepted :
      (code : ℕ) (buffer : Bytes) (w w₁ w₂ w₃ : W)
      → CarriesData code
      → send_packet sys s (set_data_size (new_packet code) (length buffer)) w ≡ (ok tt, w₁)
      → send_buffer sys s buffer w₁ ≡ (ok tt, w₂)
      → recv_packet sys s (new_packet 0) time_infinite w₂
        ≡ (ok (make_packet ControlCode.accept), w₃)
      → send_data sys s code buffer w ≡ (ok tt, w₃)
  unfolding send_data send_data_impl
  send_data-accepted code buffer w w₁ w₂ w₃ g sent buffered got =
      let answered : send_data sys s code buffer w ≡ (
        verdict "Rejected to send data. (0x102)" "Failed to send data. (0x103)"
            (make_packet ControlCode.accept).control_code,
        w₃,
      ) =
        rw (make_data_packet-ok w code (length buffer) g) (
          rw sent (
            rw buffered (
              rw got (
                check_verdict "Rejected to send data. (0x102)" "Failed to send data. (0x103)"
                  (make_packet ControlCode.accept) w₃)))) in
      answered
      ∙ ap (λ (r : Result (Unit {0})). (r, w₃))
          (accepting "Rejected to send data. (0x102)" "Failed to send data. (0x103)")

  pub send_request-accepted :
      (code : ℕ) (w w₁ w₂ : W)
      → send_packet sys s (make_packet code) w ≡ (ok tt, w₁)
      → recv_packet sys s (new_packet 0) time_infinite w₁
        ≡ (ok (make_packet ControlCode.accept), w₂)
      → send_request sys s code w ≡ (ok tt, w₂)
  unfolding send_request send_request_impl
  send_request-accepted code w w₁ w₂ sent got =
      let answered : send_request sys s code w ≡ (
        verdict "Rejected to send request. (0x102)" "Failed to send request. (0x103)"
            (make_packet ControlCode.accept).control_code,
        w₂,
      ) =
        rw sent (
          rw got (
            check_verdict "Rejected to send request. (0x102)" "Failed to send request. (0x103)"
              (make_packet ControlCode.accept) w₂)) in
      answered
      ∙ ap (λ (r : Result (Unit {0})). (r, w₂))
          (accepting "Rejected to send request. (0x102)" "Failed to send request. (0x103)")
