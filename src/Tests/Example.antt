-- ===== src/Tests/Example.antt =====
-- Runs of the example server.
use stdsc.Base.{
  ℕ, ◌+◌, ◌%◌, ◌^◌, ◌≡◌, refl, [], ◌∷◌, ◌++◌, arith, true, false, ◌&&◌, none, some, List, replicate,
}
use stdsc.Base.Int.{ltb_ℤ, pos}
use stdsc.Base.Assoc.{lookup, emplace}
use stdsc.Packet.{Bytes}
use stdsc.State.{StateContext, current_state}
use stdsc.State
use stdsc.Callback.{Session, register_connection}
use stdsc.Server.{exec}
use stdsc.AddServer.State.{
  Object, state_init, state_ready, state_computed, states, received_value_a, received_value_b,
  received_compute_request,
}
use stdsc.AddServer.Sharing.{seen, set_all, current_state-set_all, copies_share_state}
use stdsc.AddServer.Callbacks.{load, sum, callbacks}
use stdsc.Exec.{ok}
use stdsc.Client.{conn_timeout_sec, close}
use stdsc.Socket.Setup.{establish_connection, set_options, make_blocking, check_close}
use stdsc.AddServer.Client.{run}
use stdsc.AddServer.Protocol.ClientSide.{run_lem}
use stdsc.AddServer.Protocol.{requests, replies}
use stdsc.AddServer.Protocol.Serving.{At}
use stdsc.AddServer.Protocol.ServerSide.{exec-sum}
use stdsc.Tests.{Wire, wire, loopback, sock, Here, loopback_lem}

abbrev context : StateContext
context = record { state = 0 }

abbrev memory : Bytes
memory = replicate 12 7

abbrev fresh : Session Wire Object
fresh = record {
  world = wire (requests 10 20 ++ []);
  context = context;
  objects = state_init false false ∷ [];
  container = callbacks loopback memory;
}

fresh-At :
    At loopback sock
      (callbacks loopback []).funcmap
      (state_init false false)
      memory
      fresh.context
      fresh.objects
      fresh.container
unfolding callbacks register_connection lookup emplace
fresh-At = record { found = refl; functions = refl; pointer = refl }

exec-sum_example :
    (ses' : Session Wire Object) × (bytes' : Bytes) × (exec loopback sock
        (false ∷ false ∷ false ∷ false ∷ [])
        fresh
        none
      ≡ exec loopback sock [] ses' none)
    × Here ses'.world [] ([] ++ replies ((10 + 20) % 2 ^ 32))
    × (load bytes' sum ≡ some ((10 + 20) % 2 ^ 32))
    × At loopback sock
        (callbacks loopback []).funcmap
        state_computed
        bytes'
        ses'.context
        ses'.objects
        ses'.container
exec-sum_example =
    exec-sum loopback sock loopback_lem (omega arith) 10 20 memory [] [] fresh [] none (omega arith)
      (omega arith) refl fresh-At (refl, refl)

abbrev objects : List Object
objects = state_init true false ∷ state_ready ∷ []

abbrev events : List ℕ
events = received_value_b ∷ received_value_b ∷ received_value_a ∷ received_compute_request ∷ []

current_state-set_all_example :
    let r = set_all events context (state_init false false ∷ []) in
    ltb_ℤ (pos 1) (current_state states r.0 r.1)
    ≡ (seen received_value_a events && seen received_value_b events)
current_state-set_all_example =
    current_state-set_all events context (state_init false false ∷ []) refl

copies_share_state_example :
    let r₁ = State.set states received_value_a context (state_init false false ∷ []) in
    let r₂ = State.set states received_value_b context r₁.1 in
    (current_state states r₂.0 r₂.1 ≡ pos 2) × (current_state states r₁.0 r₂.1 ≡ pos 1)
copies_share_state_example =
    copies_share_state context context (state_init false false ∷ []) refl refl

reachable :
    establish_connection loopback "localhost" "8080" conn_timeout_sec (wire (replies 30))
    ≡ (ok sock, wire (replies 30))
unfolding establish_connection set_options make_blocking check_close
reachable = refl

pub reachable_one :
    establish_connection loopback "localhost" "8080" conn_timeout_sec (wire (replies 1))
    ≡ (ok sock, wire (replies 1))
unfolding establish_connection set_options make_blocking check_close
reachable_one = refl

run_lem_example :
    (w' : Wire) × (run loopback "localhost" "8080" 10 20 (wire (replies 30))
      ≡ (ok 30, (close loopback sock w').1))
    × Here w' [] (requests 10 20)
run_lem_example =
    run_lem loopback sock loopback_lem (omega arith) "localhost" "8080" 10 20 30 (wire (replies 30))
      (wire (replies 30)) (omega arith) reachable (refl, refl)
