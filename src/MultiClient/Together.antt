-- ===== src/MultiClient/Together.antt =====
-- A thread of the client against a thread of the multi_client server, over the two ends of a pipe, from
-- the connection to the verdict.
use stdsc.Base.{
  ℕ, ◌+◌, ◌%◌, ◌^◌, ◌<◌, ◌≡◌, refl, sym, ap, ◌∙◌, String, false, true, some, [], ◌++◌, append-nil,
  arith, length, inl, inr, lt→ltb,
}
use stdsc.Exec.{ok}
use stdsc.System.{System}
use stdsc.Packet.{Bytes, to_bytes, new_packet, set_data_size}
use stdsc.Packet.Codec.{encode, length-encode}
use stdsc.Packet.Groups.{CarriesData, make_data_packet-ok, announced-IsPacket}
use stdsc.Socket.{Socket, time_infinite, send_packet, send_buffer, recv_packet}
use stdsc.Socket.Exchange.{send_packet_lem, send_buffer_lem}
use stdsc.Client.{
  drop_socket_exception, recv_reply, send_recv_data, send_recv_data_impl, send_recv_data_blocking,
  close,
}
use stdsc.Client.Retry.{calc_retry_count}
use stdsc.Client.Exchange.{filled}
use stdsc.Client.Attempts.{none_yet}
use stdsc.Client.Blocking.{send_recv_data_blocking_lem}
use stdsc.AddServer.State.{
  state_init, state_ready, state_computed, received_value_a, received_value_b,
  received_compute_request,
}
use stdsc.AddServer.Sharing.{follow}
use stdsc.AddServer.Callbacks.{
  load, value_a, sum, code_value_a, code_value_b, code_request_compute, code_data_result,
}
use stdsc.AddServer.Memory.{store_lem, store_b, load-encode}
use stdsc.AddServer.Rounds.{receive_value_a_lem, receive_value_b_lem, compute_lem}
use stdsc.AddServer.Client.{retry_interval_usec, unwound}
use stdsc.AddServer.Protocol.{data_message, accept_message, number_message}
use stdsc.AddServer.Protocol.ClientSide.{attempts_left, result_filled, closing}
use stdsc.AddServer.Together.{Pipe, server_end, server_socket, Both, client_end, client_socket}
use stdsc.AddServer.Together.Ends.{
  server_end-IsConnection, AtClient, client_end-IsConnection, recv_packet-serve_packet,
}
use stdsc.AddServer.Together.Exchanges.{rounds, Idle, sent-At, data_exchange, request_exchange}
use stdsc.AddServer.Together.Download.{taken_reply, reply_some, recv_reply-from}
use stdsc.AddServer.Together.Sum.{connected}
use stdsc.MultiClient.{code_compare_result, Param, exchange_comparing, exec_client}
use stdsc.MultiClient.Comparing.{compared}
use stdsc.MultiClient.ServerSide.{
  table, known_a, known_b, known_compute, compare_packet, compare_round,
}

module _ {W : Type 0} (sys : System W) (s : Socket) where
  send_recv_data-from :
      (code : ℕ) (sbuffer buffer : Bytes) (w w₁ w₂ v : W)
      → CarriesData code
      → send_packet sys s (set_data_size (new_packet code) (length sbuffer)) w ≡ (ok tt, w₁)
      → send_buffer sys s sbuffer w₁ ≡ (ok tt, w₂)
      → recv_packet sys s (new_packet 0) time_infinite w₂
        ≡ recv_packet sys s (new_packet 0) time_infinite v
      → send_recv_data sys s code sbuffer (buffer, w)
        ≡ drop_socket_exception (recv_reply sys s (buffer, v))
  unfolding send_recv_data send_recv_data_impl
  send_recv_data-from code sbuffer buffer w w₁ w₂ v g sent buffered e =
      rw (make_data_packet-ok {S = Bytes × W} (buffer, w) code (length sbuffer) g)
        (rw sent (rw buffered (ap drop_socket_exception (recv_reply-from sys s buffer w₂ v e))))

compare_exchange :
    (expected x : ℕ) (bytes : Bytes) (ses : Both)
    → expected < 2 ^ 32
    → load bytes sum ≡ some x
    → Idle (table server_end) state_computed bytes ses
    → (w : Both) × (send_recv_data_blocking client_end client_socket code_compare_result
          (encode 4 expected)
          retry_interval_usec
          time_infinite
          ([], ses)
        ≡ (ok tt, (filled (encode 4 (compared x expected)) [], w)))
      × Idle (table server_end) state_computed bytes w
unfolding follow
compare_exchange expected x bytes ses he ls h =
    let law = client_end-IsConnection ses in
    let payload = encode 4 expected in
    let start : AtClient ses ses [] [] = ap (λ (p : Pipe). record ses { world = p }) h.pipe in
    let announced = compare_packet expected in
    let (w₁, sent, c₁) =
      send_packet_lem client_end client_socket law announced ses [] [] rounds
        (announced-IsPacket code_compare_result (length payload) (omega arith)) start in
    let (w₂, buffered, c₂) =
      send_buffer_lem client_end client_socket law payload w₁ [] (to_bytes announced)
        (omega (arith, length-encode 4 expected)) c₁ in
    let pipe : w₂.world ≡ (to_bytes announced ++ payload, []) = ap (λ (v : Both). v.world) c₂ in
    let (ses', served, (taken, out), at) =
      compare_round server_end server_socket server_end-IsConnection rounds expected x bytes [] []
        w₂ he ls (sent-At (table server_end) state_computed bytes ses w₂ h c₂)
        (
          ap (λ (p : Pipe). p.0) pipe ∙ sym (append-nil (data_message code_compare_result payload)),
          ap (λ (p : Pipe). p.1) pipe,
        ) in
    let turn =
      recv_packet-serve_packet (new_packet 0) w₂ ses' (ap (λ (p : Pipe). p.1) pipe) served
        (reply_some (compared x expected) ses'.world.1 out) in
    let there : ses'.world
        ≡ ([], number_message code_data_result (compared x expected) ++ accept_message) =
      ap (λ t. (t, ses'.world.1)) taken ∙ ap (λ t. ([], t)) out in
    let (w₃, got, idle) =
      taken_reply (table server_end) (compared x expected) bytes ses' there at in
    let done =
      send_recv_data-from client_end client_socket code_compare_result payload [] ses w₁ w₂ ses'
        (inr (omega arith)) sent buffered turn
      ∙ got in
    (
      w₃,
      send_recv_data_blocking_lem client_end code_compare_result retry_interval_usec time_infinite 0
            payload client_socket ([], ses) ([], ses) none_yet (inr (attempts_left, rw done refl))
          ∙ rw (lt→ltb 0 (calc_retry_count time_infinite retry_interval_usec) attempts_left) done,
      idle,
    )

compared_small : (x expected : ℕ) → compared x expected < 2 ^ 32
compared_small x expected = ground arith

module _ (sleep_for : ℕ → Both → Both) (still : (n : ℕ) (w : Both) → sleep_for n w ≡ w) where
  -- Let a thread of the multi_client client and a thread of the server hold the two ends of a pipe
  -- that moves a byte at a time, where a connection is made at once, sleeping changes nothing, and
  -- the thread of the server takes a round of its loop whenever the client waits and nothing is
  -- there to receive. From an empty pipe and a server's thread in the first state whose common data
  -- takes 12 bytes, the thread of the client for any 32-bit numbers does not wait for ever or fail:
  -- its result is 1 when the sum of its two values modulo 2 ^ 32 is the sum that it expects, and 0
  -- when not. The server's thread is then in the state Computed and the pipe is empty.
  pub exec_client-together :
      (host port : String) (p : Param) (bytes : Bytes) (ses : Both)
      → p.val_a < 2 ^ 32
      → p.val_b < 2 ^ 32
      → p.sum_ab < 2 ^ 32
      → length bytes ≡ 12
      → Idle (table server_end) (state_init false false) bytes ses
      → (w : Both) × (bytes' : Bytes) × (exec_client client_end sleep_for host port p ses ≡ (
        ok (compared ((p.val_a + p.val_b) % 2 ^ 32) p.sum_ab),
        (close client_end client_socket w).1,
      ))
        × Idle (table server_end) state_computed bytes' w
  unfolding exec_client exchange_comparing follow
  exec_client-together host port p bytes ses ha hb he n h =
      let a = p.val_a in
      let b = p.val_b in
      let x : ℕ = (a + b) % 2 ^ 32 in
      let (b₁, st₁, n₁, la₁) = store_lem bytes value_a a (omega arith) ha in
      let (b₂, st₂, n₂, la₂, lb₂) = store_b b₁ a b (omega arith) hb la₁ in
      let (b₃, st₃, n₃, ls) = store_lem b₂ sum x (omega arith) (omega arith) in
      let (w₁, e₁, h₁) =
        data_exchange (table server_end) code_value_a received_value_a (state_init false false)
          bytes b₁ (encode 4 a) ses _ refl (inl (omega arith)) (length-encode 4 a)
          (known_a server_end)
          (λ v f q. receive_value_a_lem (encode 4 a) bytes b₁ a v f (load-encode a ha) q st₁) h in
      let (w₂, e₂, h₂) =
        data_exchange (table server_end) code_value_b received_value_b (state_init true false) b₁ b₂
          (encode 4 b) w₁ _ refl (inl (omega arith)) (length-encode 4 b) (known_b server_end)
          (λ v f q. receive_value_b_lem (encode 4 b) b₁ b₂ b v f (load-encode b hb) q st₂) h₁ in
      let (w₃, e₃, h₃) =
        request_exchange (table server_end) code_request_compute received_compute_request
          state_ready b₂ b₃ w₂ _ refl (known_compute server_end)
          (λ v f q. compute_lem b₂ b₃ a b v f refl q la₂ lb₂ st₃) h₂ in
      let (w₄, e₄, h₄) = compare_exchange p.sum_ab x b₃ w₃ he ls h₃ in
      let y = compared x p.sum_ab in
      let done : exchange_comparing client_end sleep_for client_socket p ses
          ≡ (ok y, (close client_end client_socket w₄).1) =
        rw (still a ses) (
          rw e₁ (
            rw e₂ (
              rw (still b w₂) (
                rw e₃ (
                  rw e₄ (
                    closing client_end client_socket _ y w₄
                      (result_filled y (compared_small x p.sum_ab)))))))) in
      (w₄, b₃, rw (connected host port ses) (ap (unwound client_end client_socket) done), h₄)
