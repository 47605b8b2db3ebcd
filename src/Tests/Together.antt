-- ===== src/Tests/Together.antt =====
-- The client against the server's thread, for two values.
use stdsc.Base.{◌+◌, ◌%◌, ◌^◌, ◌≡◌, refl, false, some, [], ◌∷◌, arith, replicate}
use stdsc.Base.Assoc.{lookup, emplace}
use stdsc.Exec.{ok}
use stdsc.Packet.{Bytes}
use stdsc.Callback.{register_connection}
use stdsc.Client.{close}
use stdsc.AddServer.State.{state_init, state_computed}
use stdsc.AddServer.Callbacks.{load, sum, callbacks}
use stdsc.AddServer.Client.{run}
use stdsc.AddServer.Together.{Both, server_end, client_end, client_socket}
use stdsc.AddServer.Together.Exchanges.{functions, Idle}
use stdsc.AddServer.Together.Sum.{run-together}

abbrev memory : Bytes
memory = replicate 12 7

abbrev idle_server : Both
idle_server = record {
  world = ([], []);
  context = record { state = 0 };
  objects = state_init false false ∷ [];
  container = callbacks server_end memory;
}

server-Idle : Idle functions (state_init false false) memory idle_server
unfolding callbacks register_connection lookup emplace
server-Idle = record {
  pipe = refl;
  server = record { found = refl; functions = refl; pointer = refl };
}

run-together_example :
    (w : Both) × (bytes' : Bytes) × (run client_end "localhost" "8080" 10 20 idle_server
      ≡ (ok ((10 + 20) % 2 ^ 32), (close client_end client_socket w).1))
    × (load bytes' sum ≡ some ((10 + 20) % 2 ^ 32))
    × Idle functions state_computed bytes' w
run-together_example =
    run-together "localhost" "8080" 10 20 memory idle_server (omega arith) (omega arith) refl
      server-Idle
