-- ===== src/AddServer/Threads/Served.antt =====
-- The first three answers to a client of the example server that keeps the protocol, among any others.
use stdsc.Base.{List, ℕ, ◌+◌, ◌%◌, ◌^◌, ◌≤◌, ◌<◌, ◌≡◌, refl, true, false, ◌++◌, ◌∙◌, arith, length}
use stdsc.Base.Int.{pos, leb_ℤ}
use stdsc.System.{System}
use stdsc.Packet.{Bytes, Packet, packet_size, new_packet, set_data_size, make_packet}
use stdsc.Packet.Codec.{encode, length-encode}
use stdsc.Packet.Wire.{IsPacket}
use stdsc.Packet.Groups.{announced-IsPacket}
use stdsc.Socket.{Socket}
use stdsc.Socket.Connection.{IsConnection}
use stdsc.Server.Steps.{Pc, waiting, answering}
use stdsc.Server.Threads.{Threads, session_of}
use stdsc.AddServer.State.{
  Object, state_id, received_value_a, received_value_b, received_compute_request,
  received_result_request,
}
use stdsc.AddServer.Sharing.{follow}
use stdsc.AddServer.Callbacks.{code_value_a, code_value_b, code_request_compute, value_a, sum}
use stdsc.AddServer.Memory.{store_lem, store_b, load-encode}
use stdsc.AddServer.Rounds.{receive_value_a_lem, receive_value_b_lem, compute_lem}
use stdsc.AddServer.Protocol.{accept_message}
use stdsc.AddServer.Protocol.Serving.{data_eval, request_eval}
use stdsc.AddServer.Threads.Table.{Table}
use stdsc.Callback.{View, CallbackFunction}
use stdsc.AddServer.Threads.Standing.{
  Phase, started, has_a, has_both, has_sum, Allowed, both, summed, Allowed-a, Allowed-b,
  Allowed-sum, Stands, moved_on,
}
use stdsc.AddServer.Threads.Turns.{answer-Stands}

ready_id : {o : Object} → Allowed has_both o → leb_ℤ (pos 2) (state_id o) ≡ true
ready_id both = refl

pub computed_id : {o : Object} → Allowed has_sum o → leb_ℤ (pos 3) (state_id o) ≡ true
computed_id summed = refl

pub Allowed-result :
    {o : Object} → Allowed has_sum o → Allowed has_sum (follow o received_result_request)
unfolding follow
Allowed-result summed = summed

-- the packets of the client
abbrev pub value_packet : ℕ → ℕ → Packet
value_packet code x = set_data_size (new_packet code) (length (encode 4 x))

pub value_packet-IsPacket : (code x : ℕ) → code < 2 ^ 64 → IsPacket (value_packet code x)
value_packet-IsPacket code x h = announced-IsPacket code (length (encode 4 x)) h

module _ {W : Type 0} (sys : System W) (sockets : ℕ → Socket) (i : ℕ)
    (conn : W → Bytes → Bytes → Type 0) (law : IsConnection sys (sockets i) conn)
    (rounds : packet_size ≤ sys.write_rounds) (a b : ℕ) (ha : a < 2 ^ 32) (hb : b < 2 ^ 32)
    (table : List (ℕ × CallbackFunction (View W Object))) (fns : Table sys table) where
  abbrev Reached : Phase → Pc → Bytes → Bytes → Threads W Object → Type 0
  Reached = Stands sys sockets i conn a b table

  pub answer_a :
      (inc out : Bytes) (t : Threads W Object)
      → Reached started (answering (value_packet code_value_a a)) (encode 4 a ++ inc) out t
      → Reached has_a waiting inc (out ++ accept_message) (moved_on sys sockets i false t)
  answer_a inc out t h =
      let (bytes, st, n, la) = store_lem h.bytes value_a a (omega (arith, h.stored)) ha in
      answer-Stands sys sockets i conn a b table law rounds (value_packet code_value_a a) t h
        (data_eval sys (sockets i) law rounds table code_value_a received_value_a h.object h.bytes
          bytes (encode 4 a) inc out (session_of t i) _ refl (omega (arith, length-encode 4 a))
          fns.has_a
          (λ v f p. receive_value_a_lem (encode 4 a) h.bytes bytes a v f (load-encode a ha) p st)
          h.at h.wire)
        (Allowed-a h.allowed) (n ∙ h.stored, la)

  pub answer_b :
      (inc out : Bytes) (t : Threads W Object)
      → Reached has_a (answering (value_packet code_value_b b)) (encode 4 b ++ inc) out t
      → Reached has_both waiting inc (out ++ accept_message) (moved_on sys sockets i false t)
  answer_b inc out t h =
      let (size, la) = h.stored in
      let (bytes, st, n, la', lb) = store_b h.bytes a b (omega (arith, size)) hb la in
      answer-Stands sys sockets i conn a b table law rounds (value_packet code_value_b b) t h
        (data_eval sys (sockets i) law rounds table code_value_b received_value_b h.object h.bytes
          bytes (encode 4 b) inc out (session_of t i) _ refl (omega (arith, length-encode 4 b))
          fns.has_b
          (λ v f p. receive_value_b_lem (encode 4 b) h.bytes bytes b v f (load-encode b hb) p st)
          h.at h.wire)
        (Allowed-b h.allowed) (n, la', lb)

  pub answer_compute :
      (inc out : Bytes) (t : Threads W Object)
      → Reached has_both (answering (make_packet code_request_compute)) inc out t
      → Reached has_sum waiting inc (out ++ accept_message) (moved_on sys sockets i false t)
  answer_compute inc out t h =
      let (size, la, lb) = h.stored in
      let (bytes, st, n, ls) =
        store_lem h.bytes sum ((a + b) % 2 ^ 32) (omega (arith, size)) (omega arith) in
      answer-Stands sys sockets i conn a b table law rounds (make_packet code_request_compute) t h
        (request_eval sys (sockets i) law rounds table code_request_compute received_compute_request
          h.object h.bytes bytes inc out (session_of t i) _ refl fns.has_compute
          (λ v f p. compute_lem h.bytes bytes a b v f (ready_id h.allowed) p la lb st) h.at h.wire)
        (Allowed-sum h.allowed) ls
