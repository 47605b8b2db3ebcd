-- ===== src/Tests/Threads.antt =====
-- Two connections of the example server at once.
use stdsc.Base.{
  some, ◌≡◌, ◌≢◌, refl, Bool, true, false, ◌+◌, ℕ, zero, suc, [], ◌∷◌, ◌++◌, arith, none, take,
  drop, length,
}
use stdsc.System.{System, nonneg, received}
use stdsc.Packet.{Packet, Bytes, make_packet, new_packet, set_data_size, to_bytes}
use stdsc.Socket.{Socket}
use stdsc.State.{StateContext, current_state}
use stdsc.State
use stdsc.Server.Steps.{advance}
use stdsc.Server.Threads.{Threads, put, session_of, inside, Reach, started, later}
use stdsc.AddServer.State.{Object, states, received_value_a, received_value_b}
use stdsc.AddServer.Threads.Separation.{Separated, serving, Reach-Separated}
use stdsc.AddServer.Callbacks.{code_value_a, code_value_b}
use stdsc.Tests.{Wire, wire, loopback}

abbrev sockets : ℕ → Socket
sockets i = nonneg (i + 7)

-- all that is asked for at once
abbrev bulk : System Wire
bulk = record loopback {
  recv = λ s n w. (received (take n w.incoming), record w { incoming = drop n w.incoming });
  send = λ s bytes w. (some (nonneg (length bytes)), w);
}

abbrev memory : Bytes
memory = 0 ∷ 0 ∷ 0 ∷ 0 ∷ 0 ∷ 0 ∷ 0 ∷ 0 ∷ 0 ∷ 0 ∷ 0 ∷ 0 ∷ []

abbrev value_packet : ℕ → ℕ → Bytes
value_packet code x = to_bytes (set_data_size (new_packet code) 4) ++ (x ∷ 0 ∷ 0 ∷ 0 ∷ [])

abbrev values : Wire
values = wire (value_packet code_value_a 2 ++ value_packet code_value_b 3)

abbrev both_waiting : Threads Wire Object
both_waiting = serving bulk memory values

abbrev step : ℕ → Threads Wire Object → Threads Wire Object
step i t = put t i (advance bulk (sockets i) false (t.pcs i, session_of t i))

-- thread 0 receives both values
abbrev both : Threads Wire Object
both = step 0 (step 0 (step 0 (step 0 both_waiting)))

received_both : (both.contexts 0).state ≡ 1
unfolding advance stdsc.Socket.recv_packet stdsc.Socket.wait_read stdsc.Socket.read
    stdsc.Socket.read_loop stdsc.Server.answer stdsc.Callback.eval
    stdsc.Callback.register_connection stdsc.Base.Assoc.lookup stdsc.Base.Assoc.emplace
    stdsc.Callback.dispatch stdsc.Callback.receive stdsc.Socket.recv_buffer
    stdsc.AddServer.Callbacks.callbacks stdsc.AddServer.Callbacks.receive_value_a
    stdsc.AddServer.Callbacks.receive_value_b stdsc.AddServer.State.set_state stdsc.State.set
    stdsc.Socket.send_packet stdsc.Socket.write stdsc.Socket.write_loop stdsc.Packet.Codec.decode
    stdsc.Packet.Codec.encode stdsc.Packet.to_bytes stdsc.Packet.set_data_size
    stdsc.Packet.new_packet stdsc.Packet.of_bytes stdsc.Packet.data_size make_packet
    stdsc.Base.Assoc.insert current_state
received_both = refl

ready : Reach bulk sockets both_waiting both
ready =
    later (later (later (later started (inside 0 false)) (inside 0 false)) (inside 0 false))
      (inside 0 false)

Reach-Separated_example : Separated (step 1 both)
Reach-Separated_example = Reach-Separated bulk sockets values memory (later ready (inside 1 false))
