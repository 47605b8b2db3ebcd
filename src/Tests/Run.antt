-- ===== src/Tests/Run.antt =====
-- The client of multi_client with two threads.
use stdsc.Base.{◌+◌, ◌%◌, ◌^◌, ◌≡◌, refl, true, false, [], ◌∷◌, arith, replicate}
use stdsc.Base.Assoc.{lookup, emplace}
use stdsc.Exec.{ok}
use stdsc.Packet.{Bytes}
use stdsc.Callback.{register_connection}
use stdsc.AddServer.State.{state_init, state_computed}
use stdsc.AddServer.Together.{Both, server_end, client_end, client_socket}
use stdsc.AddServer.Together.Exchanges.{Idle}
use stdsc.MultiClient.{Param, exec_client, run_clients, comparing_callbacks}
use stdsc.MultiClient.ServerSide.{table}
use stdsc.Client.{close}
use stdsc.MultiClient.Comparing.{compared}
use stdsc.MultiClient.Together.{exec_client-together}
use stdsc.MultiClient.Run.{none_more, one_more, run_clients-true}

abbrev memory : Bytes
memory = replicate 12 0

abbrev idle_server : Both
idle_server = record {
  world = ([], []);
  context = record { state = 0 };
  objects = state_init false false ∷ [];
  container = comparing_callbacks server_end memory;
}

server-Idle : Idle (table server_end) (state_init false false) memory idle_server
unfolding comparing_callbacks register_connection lookup emplace
server-Idle = record {
  pipe = refl;
  server = record { found = refl; functions = refl; pointer = refl };
}

run_clients-true_example :
    run_clients
      (exec_client client_end (λ n w. w) "localhost" "8080")
      (((1, 4), idle_server) ∷ ((3, 2), idle_server) ∷ [])
    ≡ ok true
run_clients-true_example =
    run_clients-true (λ n w. w) (λ n w. refl) "localhost" "8080"
      (((1, 4), idle_server) ∷ ((3, 2), idle_server) ∷ [])
      (one_more memory (omega arith) (omega arith) refl server-Idle
        (one_more memory (omega arith) (omega arith) refl server-Idle none_more))
      (omega arith)

-- a thread that expects a wrong sum
abbrev wrong : Param
wrong = record { val_a = 1; val_b = 4; sum_ab = 6 }

exec_client-together_example :
    (w : Both) × (bytes' : Bytes) × (exec_client client_end
        (λ n w. w)
        "localhost"
        "8080"
        wrong
        idle_server
      ≡ (ok (compared ((1 + 4) % 2 ^ 32) 6), (close client_end client_socket w).1))
    × Idle (table server_end) state_computed bytes' w
exec_client-together_example =
    exec_client-together (λ n w. w) (λ n w. refl) "localhost" "8080" wrong memory idle_server
      (omega arith) (omega arith) (omega arith) refl server-Idle
