-- ===== src/MultiClient.antt =====
-- examples/multi_client/: the server whose last callback compares, and the threads of its client. The
-- states and the other callbacks are those of examples/add_server/.
pub mod Comparing
pub mod ServerSide
pub mod ClientSide
pub mod Threads
pub mod Together
pub mod Run
use stdsc.Base.{ℕ, ◌+◌, ◌%◌, ◌^◌, Bool, ◌==◌, String, List, [], ◌∷◌, length}
use stdsc.Exec.{Result, ok, throws, running, fault, Exec, ◌>>=◌, ◌>>◌, pure}
use stdsc.System.{System, minus_one}
use stdsc.Packet.{Bytes}
use stdsc.Packet.Codec.{encode}
use stdsc.Socket.{Socket, time_infinite}
use stdsc.Callback.{
  View, Container, request_class, data_class, updownload_class, new_container, set_commondata,
  CommonDataKind, on_each_connection,
}
use stdsc.Callback
use stdsc.Client.{
  connect, send_request_blocking, send_data_blocking, send_recv_data_blocking, close,
}
use stdsc.AddServer.State.{Object}
use stdsc.AddServer.Callbacks.{
  load, code_value_a, code_value_b, code_request_compute, receive_value_a, receive_value_b, compute,
  compare_result,
}
use stdsc.AddServer.Client.{retry_interval_usec, into_buffer, number_of, unwound}

-- share::kControlCodeDownloadResult, of the UpDownload group here
abbrev pub code_compare_result : ℕ
code_compare_result = 0x1001

module _ {W : Type 0} (sys : System W) where
  -- the container that the server's `run` fills
  unfoldable pub comparing_callbacks : Bytes → Container (View W Object)
  unfolding new_container Callback.set set_commondata
  comparing_callbacks param = set_commondata param on_each_connection (
      Callback.set code_compare_result
        (updownload_class (λ code buffer s. compare_result sys buffer s))
        (Callback.set code_request_compute (request_class (λ code. compute)) (
          Callback.set code_value_b (data_class (λ code buffer. receive_value_b buffer)) (
            Callback.set code_value_a (data_class (λ code buffer. receive_value_a buffer))
              new_container))))

-- the members of Param that a thread reads
pub record Param : Type 0 where
  pub val_a : ℕ
  pub val_b : ℕ
  pub sum_ab : ℕ

-- what `run` gives a thread for the two numbers it has drawn
abbrev pub new_param : ℕ → ℕ → Param
new_param a b = record { val_a = a; val_b = b; sum_ab = (a + b) % 2 ^ 32 }

-- std::this_thread::sleep_for, by seconds, is a call of the C++ library.
module _ {W : Type 0} (sys : System W) (sleep_for : ℕ → W → W) where
  abbrev pub sleeping : ℕ → Exec W (Unit {0})
  sleeping seconds w = pure tt (sleep_for seconds w)

  -- ClientThread::exec once the client is connected
  unfoldable pub exchange_comparing : Socket → Param → Exec W ℕ
  exchange_comparing s args = do
    sleeping args.val_a
    send_data_blocking sys s code_value_a (encode 4 args.val_a) retry_interval_usec time_infinite
    send_data_blocking sys s code_value_b (encode 4 args.val_b) retry_interval_usec time_infinite
    sleeping args.val_b
    send_request_blocking sys s code_request_compute retry_interval_usec time_infinite
    result ← into_buffer sys (
        send_recv_data_blocking sys s code_compare_result (encode 4 args.sum_ab) retry_interval_usec
          time_infinite)
    close sys s
    number_of sys (load result 0)

  -- ClientThread::exec; the result is the member `result` of its Param
  unfoldable pub exec_client : String → String → Param → Exec W ℕ
  exec_client host port args = do
    s ← connect sys minus_one host port retry_interval_usec time_infinite
    λ w. unwound sys s (exchange_comparing s args w)

-- `run` with the numbers that it draws for each thread and what lies behind the calls of that thread.
module _ {W : Type 0} (exec : Param → W → Result ℕ × W) where
  abbrev pub launched : List ((ℕ × ℕ) × W) → List (Param × W)
  launched [] = []
  launched (((a, b), w) ∷ rest) = (new_param a b, w) ∷ launched rest

  -- The loop of the joins. An exception that leaves the body of a std::thread ends the program.
  unfoldable pub join_all : List (Param × W) → ℕ → Result ℕ
  join_all [] so_far = ok so_far
  join_all ((p, w) ∷ rest) so_far = elim (exec p w).0 [
    | ok result ↦ join_all rest ((so_far + result) % 2 ^ 32)
    | throws e ↦ fault
    | running ↦ running
    | fault ↦ fault
  ]

  -- whether it prints True at the end
  unfoldable pub run_clients : List ((ℕ × ℕ) × W) → Result Bool
  unfolding join_all
  run_clients draws = elim (join_all (launched draws) 0) [
    | ok total ↦ ok (total == length draws)
    | throws e ↦ throws e
    | running ↦ running
    | fault ↦ fault
  ]
