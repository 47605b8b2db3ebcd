-- ===== src/AddServer/Threads/Sum.antt =====
-- Any number of clients of the example server at once: whatever the others send, and in whatever order
-- the threads run, a client that keeps the protocol gets its sum.
use stdsc.Base.{
  ℕ, ◌+◌, ◌%◌, ◌^◌, ◌≤◌, ◌<◌, ◌≡◌, ◌≢◌, subst, [], ◌++◌, arith, length, append_assoc, false, refl,
}
use stdsc.System.{System}
use stdsc.Packet.{Bytes, packet_size, to_bytes, make_packet}
use stdsc.Packet.Codec.{encode}
use stdsc.Packet.Wire.{make_packet-IsPacket}
use stdsc.Socket.{Socket}
use stdsc.Socket.Connection.{IsConnection}
use stdsc.Socket.Frame.{Untouched}
use stdsc.Server.Steps.{Pc, waiting, answering}
use stdsc.Server.Threads.{Threads, session_of}
use stdsc.AddServer.State.{Object, received_result_request}
use stdsc.AddServer.Callbacks.{
  code_value_a, code_value_b, code_request_compute, code_download_result, code_data_result,
  callbacks,
}
use stdsc.AddServer.Rounds.{download_result_lem}
use stdsc.AddServer.Protocol.{accept_message, number_message, requests, replies}
use stdsc.AddServer.Protocol.Serving.{known_result, download_eval}
use stdsc.AddServer.Protocol.ServerSide.{regroup}
use stdsc.AddServer.Threads.Evaluation.{callbacks-AllRaise}
use stdsc.AddServer.Threads.Separation.{serving}
use stdsc.AddServer.Threads.Table.{callbacks-Table}
use stdsc.AddServer.Threads.Standing.{Phase, has_sum, Stands, moved_on}
use stdsc.AddServer.Threads.Turns.{answer-Stands}
use stdsc.AddServer.Threads.Served.{value_packet, computed_id, Allowed-result}
use stdsc.AddServer.Threads.Start.{serving-Stands}
use stdsc.AddServer.Threads.Among.{Among, Among-After}

unpacked :
    (p x q y m n r : Bytes)
    → ((p ++ x) ++ ((q ++ y) ++ (m ++ n))) ++ r ≡ p ++ (x ++ (q ++ (y ++ (m ++ (n ++ r)))))
unpacked p x q y m n r = simp append_assoc

module _ {W : Type 0} (sys : System W) (sockets : ℕ → Socket) (i : ℕ)
    (conn : W → Bytes → Bytes → Type 0) (law : IsConnection sys (sockets i) conn)
    (rounds : packet_size ≤ sys.write_rounds) (a b : ℕ) where
  abbrev Reached : Phase → Pc → Bytes → Bytes → Threads W Object → Type 0
  Reached = Stands sys sockets i conn a b (callbacks sys []).funcmap

  answer_result :
      (inc out : Bytes) (t : Threads W Object)
      → Reached has_sum (answering (make_packet code_download_result)) inc out t
      → Reached has_sum waiting inc
          (out ++ number_message code_data_result ((a + b) % 2 ^ 32) ++ accept_message)
          (moved_on sys sockets i false t)
  answer_result inc out t h =
      let x : ℕ = (a + b) % 2 ^ 32 in
      answer-Stands sys sockets i conn a b (callbacks sys []).funcmap law rounds
        (make_packet code_download_result) t h
        (download_eval sys (sockets i) law rounds (callbacks sys []).funcmap code_download_result
          received_result_request h.object h.bytes inc out (number_message code_data_result x)
          (session_of t i) _ refl (known_result sys)
          (λ v f p c.
            download_result_lem sys (sockets i) law rounds h.bytes x v inc out f
              (computed_id h.allowed) p h.stored c)
          h.at h.wire)
        (Allowed-result h.allowed) h.stored

module _ {W : Type 0} (sys : System W) (sockets : ℕ → Socket) (i : ℕ)
    (conn : W → Bytes → Bytes → Type 0) (a b : ℕ) (rest out : Bytes)
    (law : IsConnection sys (sockets i) conn) (rounds : packet_size ≤ sys.write_rounds)
    (ha : a < 2 ^ 32) (hb : b < 2 ^ 32) (others : (j : ℕ) → i ≢ j → sockets i ≢ sockets j)
    (frame : (j : ℕ)
      → i ≢ j
      → (inc sent : Bytes) → Untouched sys (sockets j) (λ w. conn w inc sent)) where
  -- Let the example server start with a CallbackParam of 12 bytes and any number of connections,
  -- where connection i does not fail (IsConnection), has the four messages of a client for 32-bit
  -- values a and b to come, and has a descriptor of its own whose streams the calls on the other
  -- descriptors leave alone (Untouched); `send` has enough rounds for a packet. The other
  -- connections may send anything. However the steps of the threads follow one another, and whatever
  -- the system does elsewhere between them, once thread i has had eight turns (two for each
  -- message), none of which finds force_finish set, it has sent its client exactly the four
  -- acknowledgements and the sum of a and b modulo 2 ^ 32, has taken the four messages and no byte
  -- more, and waits for the next packet.
  pub Among-sum :
      (param : Bytes) (w : W) {t : Threads W Object}
      → length param ≡ 12
      → conn w (requests a b ++ rest) out
      → Among sys sockets i conn (serving sys param w) 8 t
      → (t.pcs i ≡ waiting) × conn t.world rest (out ++ replies ((a + b) % 2 ^ 32))
  unfolding callbacks
  Among-sum param w {t = t} n c run =
      let table = (callbacks sys []).funcmap in
      let x : ℕ = (a + b) % 2 ^ 32 in
      let last = make_packet code_download_result in
      let end =
        Among-After sys sockets i conn a b table last [] (number_message code_data_result x) rest
          out law rounds ha hb (callbacks-Table sys)
          (make_packet-IsPacket code_download_result (omega arith))
          (answer_result sys sockets i conn law rounds a b) others frame run (omega arith)
          (serving-Stands sys sockets i conn a b table (callbacks sys param) param w
            (callbacks-AllRaise sys param) refl refl refl n
            (subst (λ m. conn w m out)
              (unpacked (to_bytes (value_packet code_value_a a)) (encode 4 a)
                (to_bytes (value_packet code_value_b b)) (encode 4 b)
                (to_bytes (make_packet code_request_compute)) (to_bytes last) rest)
              c)) in
      (
        end.at_pc,
        subst (conn t.world rest)
            (regroup out accept_message (number_message code_data_result ((a + b) % 2 ^ 32)))
            end.wire,
      )
