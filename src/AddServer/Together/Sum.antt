-- ===== src/AddServer/Together/Sum.antt =====
-- The run of the client against the server's thread, from the connection to the sum.
use stdsc.Base.{
  ap, ℕ, ◌+◌, ◌%◌, ◌^◌, ◌<◌, ◌≡◌, refl, ◌∙◌, String, false, true, some, arith, length, inl, inr,
  lt→ltb,
}
use stdsc.Exec.{ok}
use stdsc.System.{minus_one}
use stdsc.Packet.{Bytes}
use stdsc.Packet.Codec.{encode, length-encode}
use stdsc.Socket.{time_infinite}
use stdsc.Socket.Setup.{establish_connection, set_options, make_blocking, check_close}
use stdsc.Client.{conn_timeout_sec, connect, close}
use stdsc.Client.Retry.{calc_retry_count}
use stdsc.Client.Attempts.{none_yet, connect_lem}
use stdsc.AddServer.State.{
  state_init, state_ready, state_computed, received_value_a, received_value_b,
  received_compute_request,
}
use stdsc.AddServer.Sharing.{follow}
use stdsc.AddServer.Callbacks.{load, value_a, sum, code_value_a, code_value_b, code_request_compute}
use stdsc.AddServer.Memory.{store_lem, store_b, load-encode}
use stdsc.AddServer.Rounds.{receive_value_a_lem, receive_value_b_lem, compute_lem}
use stdsc.AddServer.Client.{retry_interval_usec, unwound, exchange, run}
use stdsc.AddServer.Protocol.Serving.{known_a, known_b, known_compute}
use stdsc.AddServer.Protocol.ClientSide.{attempts_left, result_filled, closing}
use stdsc.AddServer.Together.{server_end, Both, client_end, client_socket}
use stdsc.AddServer.Together.Exchanges.{functions, Idle, data_exchange, request_exchange}
use stdsc.AddServer.Together.Download.{download_exchange}

established :
    (host port : String) (w : Both)
    → establish_connection client_end host port conn_timeout_sec w ≡ (ok client_socket, w)
unfolding establish_connection set_options make_blocking check_close
established host port w = refl

pub connected :
    (host port : String) (w : Both)
    → connect client_end minus_one host port retry_interval_usec time_infinite w
      ≡ (ok client_socket, w)
connected host port w =
    connect_lem client_end minus_one host port retry_interval_usec time_infinite 0 w w none_yet
      (inr (attempts_left, rw (established host port w) refl))
    ∙ rw (lt→ltb 0 (calc_retry_count time_infinite retry_interval_usec) attempts_left)
        (established host port w)

-- Let the client and a server's thread hold the two ends of a pipe that moves a byte at a time,
-- where a connection is made at once and the thread takes a round of its loop whenever the client
-- waits and nothing is there to receive. From an empty pipe and a thread in the first state whose
-- common data takes 12 bytes, the run of the example client for any 32-bit values a and b does not
-- wait for ever or fail: it returns the sum of a and b modulo 2 ^ 32, computed by the server. The
-- thread is then in the state Computed with the sum in its common data, and nothing is left in the
-- pipe.
pub run-together :
    (host port : String) (a b : ℕ) (bytes : Bytes) (ses : Both)
    → a < 2 ^ 32
    → b < 2 ^ 32
    → length bytes ≡ 12
    → Idle functions (state_init false false) bytes ses
    → (w : Both) × (bytes' : Bytes) × (run client_end host port a b ses
        ≡ (ok ((a + b) % 2 ^ 32), (close client_end client_socket w).1))
      × (load bytes' sum ≡ some ((a + b) % 2 ^ 32))
      × Idle functions state_computed bytes' w
unfolding run exchange follow
run-together host port a b bytes ses ha hb n h =
    let x : ℕ = (a + b) % 2 ^ 32 in
    let (b₁, st₁, n₁, la₁) = store_lem bytes value_a a (omega arith) ha in
    let (b₂, st₂, n₂, la₂, lb₂) = store_b b₁ a b (omega arith) hb la₁ in
    let (b₃, st₃, n₃, ls) = store_lem b₂ sum x (omega arith) (omega arith) in
    let (w₁, e₁, h₁) =
      data_exchange functions code_value_a received_value_a (state_init false false) bytes b₁
        (encode 4 a) ses _ refl (inl (omega arith)) (length-encode 4 a) (known_a server_end)
        (λ v f p. receive_value_a_lem (encode 4 a) bytes b₁ a v f (load-encode a ha) p st₁) h in
    let (w₂, e₂, h₂) =
      data_exchange functions code_value_b received_value_b (state_init true false) b₁ b₂
        (encode 4 b) w₁ _ refl (inl (omega arith)) (length-encode 4 b) (known_b server_end)
        (λ v f p. receive_value_b_lem (encode 4 b) b₁ b₂ b v f (load-encode b hb) p st₂) h₁ in
    let (w₃, e₃, h₃) =
      request_exchange functions code_request_compute received_compute_request state_ready b₂ b₃ w₂
        _ refl (known_compute server_end) (λ v f p. compute_lem b₂ b₃ a b v f refl p la₂ lb₂ st₃)
        h₂ in
    let (w₄, e₄, h₄) = download_exchange x b₃ w₃ ls h₃ in
    let done : exchange client_end client_socket a b ses
        ≡ (ok x, (close client_end client_socket w₄).1) =
      rw e₁ (
        rw e₂ (
          rw e₃
            (rw e₄ (closing client_end client_socket _ x w₄ (result_filled x (omega arith)))))) in
    (w₄, b₃, rw (connected host port ses) (ap (unwound client_end client_socket) done), ls, h₄)
