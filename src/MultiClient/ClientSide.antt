-- ===== src/MultiClient/ClientSide.antt =====
-- What a thread of the client sends, and what it makes of the server's answers.
use stdsc.Base.{
  ℕ, ◌^◌, ◌≤◌, ◌<◌, ◌≡◌, refl, ap, subst, ◌∙◌, String, [], ◌++◌, arith, length, inl, inr, lt→ltb,
  append_assoc,
}
use stdsc.Exec.{Result, ok}
use stdsc.System.{System, minus_one}
use stdsc.Packet.{Bytes, packet_size, to_bytes, new_packet, set_data_size, make_packet}
use stdsc.Packet.Codec.{encode, length-encode}
use stdsc.Packet.ControlCode
use stdsc.Packet.Wire.{make_packet-IsPacket, control_code-new_packet, data_size-set_data_size}
use stdsc.Packet.Groups.{announced-IsPacket}
use stdsc.Socket.{Socket, time_infinite}
use stdsc.Socket.Setup.{establish_connection}
use stdsc.Socket.Connection.{IsConnection}
use stdsc.Client.{conn_timeout_sec, connect, send_recv_data_blocking, close}
use stdsc.Client.Retry.{calc_retry_count}
use stdsc.Client.Exchange.{filled, send_recv_data_lem}
use stdsc.Client.Attempts.{none_yet, connect_lem}
use stdsc.Client.Blocking.{send_recv_data_blocking_lem}
use stdsc.AddServer.Callbacks.{code_value_a, code_value_b, code_request_compute, code_data_result}
use stdsc.AddServer.Client.{unwound, retry_interval_usec}
use stdsc.AddServer.Protocol.{data_message, accept_message, number_message, replies}
use stdsc.AddServer.Protocol.ClientSide.{
  attempts_left, accepting, result_filled, closing, one_reply, four_messages, data_accepted,
  request_accepted,
}
use stdsc.MultiClient.{code_compare_result, Param, exchange_comparing, exec_client}
use stdsc.MultiClient.ServerSide.{questions}

module _ {W : Type 0} (sys : System W) (s : Socket) {conn : W → Bytes → Bytes → Type 0}
    (law : IsConnection sys s conn) (rounds : packet_size ≤ sys.write_rounds) where
  compared_download :
      (x : ℕ) (sent o : Bytes) (w : W)
      → length sent ≡ 4
      → conn w (number_message code_data_result x ++ accept_message) o
      → (w' : W) × (send_recv_data_blocking sys s code_compare_result sent retry_interval_usec
            time_infinite
            ([], w)
          ≡ (ok tt, (filled (encode 4 x) [], w')))
        × conn w' [] (o ++ data_message code_compare_result sent)
  compared_download x sent o w n c =
      let header = set_data_size (new_packet code_data_result) 4 in
      let ack = make_packet ControlCode.accept in
      let (w', e, c') =
        send_recv_data_lem sys s law rounds code_compare_result sent header ack (encode 4 x) [] w []
          o (omega arith) (inr (omega arith)) (omega (arith, n)) (omega (arith, n, rounds))
          (announced-IsPacket code_data_result 4 (omega arith))
          (rw (control_code-new_packet code_data_result 4) refl)
          (data_size-set_data_size (new_packet code_data_result) 4 (omega arith)
            ∙ omega (arith, length-encode 4 x))
          (make_packet-IsPacket ControlCode.accept (omega arith))
          (subst (λ i. conn w i o) (one_reply (to_bytes header) (encode 4 x) (to_bytes ack)) c) in
      let got =
        e ∙ ap (λ (r : Result (Unit {0})). (r, (filled (encode 4 x) [], w'))) (accepting _ _) in
      (
        w',
        send_recv_data_blocking_lem sys code_compare_result retry_interval_usec time_infinite 0 sent
              s ([], w) ([], w) none_yet (inr (attempts_left, rw got refl))
            ∙ rw (lt→ltb 0 (calc_retry_count time_infinite retry_interval_usec) attempts_left) got,
        subst (conn w' [])
            (append_assoc o
              (to_bytes (set_data_size (new_packet code_compare_result) (length sent))) sent)
            c',
      )

  module _ (sleep_for : ℕ → W → W)
      (quiet : (n : ℕ) (w : W) (i o : Bytes) → conn w i o → conn (sleep_for n w) i o) where
    exchange_comparing_lem :
        (p : Param) (x : ℕ) (w : W)
        → x < 2 ^ 32
        → conn w (replies x) []
        → (w' : W) × (exchange_comparing sys sleep_for s p w ≡ (ok x, (close sys s w').1))
          × conn w' [] (questions p.val_a p.val_b p.sum_ab)
    unfolding exchange_comparing
    exchange_comparing_lem p x w h c =
        let m₁ = data_message code_value_a (encode 4 p.val_a) in
        let m₂ = data_message code_value_b (encode 4 p.val_b) in
        let m₃ = to_bytes (make_packet code_request_compute) in
        let m₄ = data_message code_compare_result (encode 4 p.sum_ab) in
        let (w₁, e₁, c₁) =
          data_accepted sys s law rounds code_value_a (encode 4 p.val_a) _ [] (sleep_for p.val_a w)
            (omega arith) (inl (omega arith)) (length-encode 4 p.val_a) (quiet p.val_a w _ _ c) in
        let (w₂, e₂, c₂) =
          data_accepted sys s law rounds code_value_b (encode 4 p.val_b) _ ([] ++ m₁) w₁
            (omega arith) (inl (omega arith)) (length-encode 4 p.val_b) c₁ in
        let (w₃, e₃, c₃) =
          request_accepted sys s law rounds code_request_compute _ ([] ++ m₁ ++ m₂)
            (sleep_for p.val_b w₂) (omega arith) (quiet p.val_b w₂ _ _ c₂) in
        let (w₄, e₄, c₄) =
          compared_download x (encode 4 p.sum_ab) ([] ++ m₁ ++ m₂ ++ m₃) w₃
            (length-encode 4 p.sum_ab) c₃ in
        (
          w₄,
          rw e₁ (rw e₂ (rw e₃ (rw e₄ (closing sys s _ x w₄ (result_filled x h))))),
          subst (conn w₄ []) (four_messages m₁ m₂ m₃ m₄) c₄,
        )

    -- Over a connection that does not fail (IsConnection), with enough rounds of `send` for a packet
    -- and a sleep that leaves the connection as it is: once establish_connection has made the
    -- connection and the bytes to come are those that the server answers with (`replies x`) for a
    -- 32-bit x, a thread of the multi_client client sends exactly the four messages for its values
    -- and its expected sum (`questions`), takes the answers whole, closes its socket and returns x.
    pub exec_client_lem :
        (host port : String) (p : Param) (x : ℕ) (w₀ w : W)
        → x < 2 ^ 32
        → establish_connection sys host port conn_timeout_sec w₀ ≡ (ok s, w)
        → conn w (replies x) []
        → (w' : W) × (exec_client sys sleep_for host port p w₀ ≡ (ok x, (close sys s w').1))
          × conn w' [] (questions p.val_a p.val_b p.sum_ab)
    unfolding exec_client
    exec_client_lem host port p x w₀ w h up c =
        let (w', done, sent) = exchange_comparing_lem p x w h c in
        let connected : connect sys minus_one host port retry_interval_usec time_infinite w₀
            ≡ (ok s, w) =
          connect_lem sys minus_one host port retry_interval_usec time_infinite 0 w₀ w₀ none_yet
            (inr (attempts_left, rw up refl))
          ∙ rw (lt→ltb 0 (calc_retry_count time_infinite retry_interval_usec) attempts_left) up in
        (w', rw connected (ap (unwound sys s) done), sent)
