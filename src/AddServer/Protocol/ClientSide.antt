-- ===== src/AddServer/Protocol/ClientSide.antt =====
-- What the example client sends, and what it makes of the server's answers.
use stdsc.Base.{
  ℕ, ◌^◌, ◌≤◌, ◌<◌, ◌≡◌, refl, ap, subst, ◌∙◌, String, Option, some, [], ◌++◌, arith, length, inl,
  inr, lt→ltb, append_assoc, append-nil,
}
use stdsc.Exec.{Result, ok, ◌>>◌}
use stdsc.System.{System, minus_one, nonneg}
use stdsc.Packet.{Bytes, packet_size, to_bytes, new_packet, set_data_size, make_packet}
use stdsc.Packet.Codec.{encode, length-encode}
use stdsc.Packet.ControlCode
use stdsc.Packet.Wire.{
  make_packet-IsPacket, control_code-make_packet, control_code-new_packet, data_size-set_data_size,
}
use stdsc.Packet.Groups.{CarriesData, announced-IsPacket}
use stdsc.Socket.{Socket, time_infinite, close_socket}
use stdsc.Socket.Setup.{establish_connection}
use stdsc.Socket.Connection.{IsConnection}
use stdsc.Client.{
  conn_timeout_sec, connect, send_data_blocking, send_request_blocking, recv_data_blocking, close,
}
use stdsc.Client.Retry.{calc_retry_count}
use stdsc.Client.Exchange.{verdict, filled, send_request_lem, send_data_lem, recv_data_lem}
use stdsc.Client.Attempts.{none_yet, send_request_blocking_lem, connect_lem}
use stdsc.Client.Blocking.{send_data_blocking_lem, recv_data_blocking_lem}
use stdsc.AddServer.Callbacks.{
  code_value_a, code_value_b, code_request_compute, code_download_result, code_data_result, load,
}
use stdsc.AddServer.Memory.{load-encode}
use stdsc.AddServer.Client.{unwound, number_of, retry_interval_usec, exchange, run}
use stdsc.AddServer.Protocol.{data_message, accept_message, number_message, requests, replies}

pub attempts_left : 0 < calc_retry_count time_infinite retry_interval_usec
unfolding calc_retry_count
attempts_left = omega arith

pub accepting :
    (rejected failed : String)
    → verdict rejected failed (make_packet ControlCode.accept).control_code ≡ ok tt
accepting rejected failed =
    ap (verdict rejected failed) (control_code-make_packet ControlCode.accept)

pub result_filled : (x : ℕ) → x < 2 ^ 32 → load (filled (encode 4 x) []) 0 ≡ some x
result_filled x h =
    rw (lt→ltb 0 (length (encode 4 x)) (omega (arith, length-encode 4 x))) (load-encode x h)

pub closing :
    {W : Type 0} (sys : System W) (s : Socket) (found : Option ℕ) (x : ℕ) (w : W)
    → found ≡ some x
    → (close sys s >> number_of sys found) w ≡ (ok x, (close sys s w).1)
unfolding close close_socket
closing sys minus_one found x w e = rw e refl
closing sys (nonneg n) found x w e = rw e refl

pub one_reply : (h d a : Bytes) → h ++ d ++ a ≡ h ++ (d ++ (a ++ []))
one_reply h d a = simp (append_assoc, append-nil)

pub four_messages : (m₁ m₂ m₃ m₄ : Bytes) → [] ++ m₁ ++ m₂ ++ m₃ ++ m₄ ≡ m₁ ++ (m₂ ++ (m₃ ++ m₄))
four_messages m₁ m₂ m₃ m₄ = simp append_assoc

module _ {W : Type 0} (sys : System W) (s : Socket) {conn : W → Bytes → Bytes → Type 0}
    (law : IsConnection sys s conn) (rounds : packet_size ≤ sys.write_rounds) where
  pub data_accepted :
      (code : ℕ) (buffer i o : Bytes) (w : W)
      → code < 2 ^ 64
      → CarriesData code
      → length buffer ≡ 4
      → conn w (accept_message ++ i) o
      → (w' : W) × (send_data_blocking sys s code buffer retry_interval_usec time_infinite w
          ≡ (ok tt, w'))
        × conn w' i (o ++ data_message code buffer)
  data_accepted code buffer i o w h g n c =
      let (w', e, c') =
        send_data_lem sys s law rounds code buffer (make_packet ControlCode.accept) w i o h g
          (omega (arith, n)) (omega (arith, n, rounds))
          (make_packet-IsPacket ControlCode.accept (omega arith)) c in
      let sent = e ∙ ap (λ (r : Result (Unit {0})). (r, w')) (accepting _ _) in
      (
        w',
        send_data_blocking_lem sys code retry_interval_usec time_infinite 0 buffer s w w none_yet
              (inr (attempts_left, rw sent refl))
            ∙ rw (lt→ltb 0 (calc_retry_count time_infinite retry_interval_usec) attempts_left) sent,
        subst (conn w' i)
            (append_assoc o (to_bytes (set_data_size (new_packet code) (length buffer))) buffer) c',
      )

  pub request_accepted :
      (code : ℕ) (i o : Bytes) (w : W)
      → code < 2 ^ 64
      → conn w (accept_message ++ i) o
      → (w' : W) × (send_request_blocking sys s code retry_interval_usec time_infinite w
          ≡ (ok tt, w'))
        × conn w' i (o ++ to_bytes (make_packet code))
  request_accepted code i o w h c =
      let (w', e, c') =
        send_request_lem sys s law rounds code (make_packet ControlCode.accept) w i o h
          (make_packet-IsPacket ControlCode.accept (omega arith)) c in
      let sent = e ∙ ap (λ (r : Result (Unit {0})). (r, w')) (accepting _ _) in
      (
        w',
        send_request_blocking_lem sys s code retry_interval_usec time_infinite 0 w w none_yet
              (inr (attempts_left, rw sent refl))
            ∙ rw (lt→ltb 0 (calc_retry_count time_infinite retry_interval_usec) attempts_left) sent,
        c',
      )

  downloaded :
      (x : ℕ) (o : Bytes) (w : W)
      → conn w (number_message code_data_result x ++ accept_message) o
      → (w' : W) × (recv_data_blocking sys s code_download_result retry_interval_usec time_infinite
            ([], w)
          ≡ (ok tt, (filled (encode 4 x) [], w')))
        × conn w' [] (o ++ to_bytes (make_packet code_download_result))
  downloaded x o w c =
      let header = set_data_size (new_packet code_data_result) 4 in
      let ack = make_packet ControlCode.accept in
      let (w', e, c') =
        recv_data_lem sys s law rounds code_download_result header ack (encode 4 x) [] w [] o
          (omega arith) (announced-IsPacket code_data_result 4 (omega arith))
          (rw (control_code-new_packet code_data_result 4) refl)
          (data_size-set_data_size (new_packet code_data_result) 4 (omega arith)
            ∙ omega (arith, length-encode 4 x))
          (make_packet-IsPacket ControlCode.accept (omega arith))
          (subst (λ i. conn w i o) (one_reply (to_bytes header) (encode 4 x) (to_bytes ack)) c) in
      let got =
        e ∙ ap (λ (r : Result (Unit {0})). (r, (filled (encode 4 x) [], w'))) (accepting _ _) in
      (
        w',
        recv_data_blocking_lem sys code_download_result retry_interval_usec time_infinite 0 s
              ([], w) ([], w) none_yet (inr (attempts_left, rw got refl))
            ∙ rw (lt→ltb 0 (calc_retry_count time_infinite retry_interval_usec) attempts_left) got,
        c',
      )

  exchange_lem :
      (a b x : ℕ) (w : W)
      → x < 2 ^ 32
      → conn w (replies x) []
      → (w' : W) × (exchange sys s a b w ≡ (ok x, (close sys s w').1)) × conn w' [] (requests a b)
  unfolding exchange
  exchange_lem a b x w h c =
      let m₁ = data_message code_value_a (encode 4 a) in
      let m₂ = data_message code_value_b (encode 4 b) in
      let m₃ = to_bytes (make_packet code_request_compute) in
      let m₄ = to_bytes (make_packet code_download_result) in
      let (w₁, e₁, c₁) =
        data_accepted code_value_a (encode 4 a) _ [] w (omega arith) (inl (omega arith))
          (length-encode 4 a) c in
      let (w₂, e₂, c₂) =
        data_accepted code_value_b (encode 4 b) _ ([] ++ m₁) w₁ (omega arith) (inl (omega arith))
          (length-encode 4 b) c₁ in
      let (w₃, e₃, c₃) =
        request_accepted code_request_compute _ ([] ++ m₁ ++ m₂) w₂ (omega arith) c₂ in
      let (w₄, e₄, c₄) = downloaded x ([] ++ m₁ ++ m₂ ++ m₃) w₃ c₃ in
      (
        w₄,
        rw e₁ (rw e₂ (rw e₃ (rw e₄ (closing sys s _ x w₄ (result_filled x h))))),
        subst (conn w₄ []) (four_messages m₁ m₂ m₃ m₄) c₄,
      )

  -- Over a connection that does not fail (IsConnection), with enough rounds of `send` for a packet:
  -- once establish_connection has made the connection and the bytes to come are those that the
  -- server answers with (`replies x`) for a 32-bit x, the run of the example client sends exactly
  -- the four messages for its values a and b (`requests a b`), takes the answers whole, closes its
  -- socket and returns x.
  pub run_lem :
      (host port : String) (a b x : ℕ) (w₀ w : W)
      → x < 2 ^ 32
      → establish_connection sys host port conn_timeout_sec w₀ ≡ (ok s, w)
      → conn w (replies x) []
      → (w' : W) × (run sys host port a b w₀ ≡ (ok x, (close sys s w').1))
        × conn w' [] (requests a b)
  unfolding run
  run_lem host port a b x w₀ w h up c =
      let (w', done, sent) = exchange_lem a b x w h c in
      let connected : connect sys minus_one host port retry_interval_usec time_infinite w₀
          ≡ (ok s, w) =
        connect_lem sys minus_one host port retry_interval_usec time_infinite 0 w₀ w₀ none_yet
          (inr (attempts_left, rw up refl))
        ∙ rw (lt→ltb 0 (calc_retry_count time_infinite retry_interval_usec) attempts_left) up in
      (w', rw connected (ap (unwound sys s) done), sent)
