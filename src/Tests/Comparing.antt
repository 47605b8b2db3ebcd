-- ===== src/Tests/Comparing.antt =====
-- Runs of the server that compares, and of a thread of its client.
use stdsc.Base.{ℕ, ◌+◌, ◌*◌, ◌%◌, ◌^◌, ◌≡◌, refl, false, none, [], ◌∷◌, ◌++◌, arith, replicate}
use stdsc.Base.Assoc.{lookup, emplace}
use stdsc.Exec.{ok}
use stdsc.Packet.{Bytes}
use stdsc.Callback.{Session, register_connection}
use stdsc.Client.{close}
use stdsc.Server.{exec}
use stdsc.AddServer.State.{Object, state_init, state_computed}
use stdsc.AddServer.Protocol.{replies}
use stdsc.AddServer.Protocol.Serving.{At}
use stdsc.MultiClient.{comparing_callbacks, new_param, exec_client}
use stdsc.MultiClient.Comparing.{compared}
use stdsc.MultiClient.ServerSide.{table, questions, exec-compared}
use stdsc.MultiClient.ClientSide.{exec_client_lem}
use stdsc.Tests.{Wire, wire, loopback, sock, Here, loopback_lem}
use stdsc.Tests.Example.{reachable_one}

abbrev memory : Bytes
memory = replicate 12 7

abbrev fresh : Session Wire Object
fresh = record {
  world = wire (questions 3 4 7 ++ []);
  context = record { state = 0 };
  objects = state_init false false ∷ [];
  container = comparing_callbacks loopback memory;
}

fresh-At :
    At loopback sock
      (table loopback)
      (state_init false false)
      memory
      fresh.context
      fresh.objects
      fresh.container
unfolding comparing_callbacks register_connection lookup emplace
fresh-At = record { found = refl; functions = refl; pointer = refl }

exec-compared_example :
    (ses' : Session Wire Object) × (bytes' : Bytes) × (exec loopback sock
        (false ∷ false ∷ false ∷ false ∷ [])
        fresh
        none
      ≡ exec loopback sock [] ses' none)
    × Here ses'.world [] ([] ++ replies (compared ((3 + 4) % 2 ^ 32) 7))
    × At loopback sock
        (table loopback)
        state_computed
        bytes'
        ses'.context
        ses'.objects
        ses'.container
exec-compared_example =
    exec-compared loopback sock loopback_lem (omega arith) 3 4 7 memory [] [] fresh [] none
      (omega arith) (omega arith) (omega arith) refl fresh-At (refl, refl)

abbrev sleep_for : ℕ → Wire → Wire
sleep_for n w = record w { slept = w.slept + n * 1000000 }

exec_client_lem_example :
    (w' : Wire) × (exec_client loopback sleep_for "localhost" "8080"
        (new_param 3 4)
        (wire (replies 1))
      ≡ (ok 1, (close loopback sock w').1))
    × Here w' [] (questions 3 4 7)
exec_client_lem_example =
    exec_client_lem loopback sock loopback_lem (omega arith) sleep_for (λ n w i o c. c) "localhost"
      "8080" (new_param 3 4) 1 (wire (replies 1)) (wire (replies 1)) (omega arith) reachable_one
      (refl, refl)
