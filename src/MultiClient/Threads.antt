-- ===== src/MultiClient/Threads.antt =====
-- Any number of clients of the multi_client server at once: whatever the others send, and in whatever
-- order the threads run, a client that keeps the protocol is told whether its sum is right.
use stdsc.Base.{
  ℕ, ◌+◌, ◌%◌, ◌^◌, ◌≤◌, ◌<◌, ◌≡◌, ◌≢◌, refl, subst, false, [], ◌++◌, arith, length, append_assoc,
}
use stdsc.Base.Assoc.{emplace}
use stdsc.Exec.{ok}
use stdsc.Exec.Preserving.{Preserves, same-Preserves}
use stdsc.System.{System}
use stdsc.Packet.{Bytes, packet_size, to_bytes, make_packet}
use stdsc.Packet.Codec.{encode}
use stdsc.Packet.Groups.{announced-IsPacket}
use stdsc.Socket.{Socket}
use stdsc.Socket.Connection.{IsConnection}
use stdsc.Socket.Frame.{Untouched}
use stdsc.Callback.Registered.{AllDo, data_class-Does, request_class-Does, updownload_class-Does}
use stdsc.Server.Frame.{OnView}
use stdsc.Server.Steps.{Pc, waiting, answering}
use stdsc.Server.Threads.{Threads, session_of}
use stdsc.AddServer.State.{Object}
use stdsc.AddServer.Callbacks.{code_value_a, code_value_b, code_request_compute, code_data_result}
use stdsc.AddServer.Protocol.{accept_message, number_message, replies}
use stdsc.AddServer.Protocol.ServerSide.{regroup}
use stdsc.AddServer.Threads.Changes.{
  Raises, receive_value_a-Raises, receive_value_b-Raises, compute-Raises, compare_result-Raises,
}
use stdsc.AddServer.Threads.Evaluation.{AllRaise, pure-Raises}
use stdsc.AddServer.Threads.Frame.{
  receive_value_a-Preserves, receive_value_b-Preserves, compute-Preserves, compare_result-Preserves,
}
use stdsc.AddServer.Threads.Separation.{serving_with}
use stdsc.AddServer.Threads.Table.{Table}
use stdsc.AddServer.Threads.Standing.{Phase, has_sum, Stands, moved_on}
use stdsc.AddServer.Threads.Turns.{answer-Stands}
use stdsc.AddServer.Threads.Served.{value_packet, computed_id, Allowed-result}
use stdsc.AddServer.Threads.Start.{serving-Stands}
use stdsc.AddServer.Threads.Among.{Among, Among-After}
use stdsc.MultiClient.{code_compare_result, comparing_callbacks}
use stdsc.MultiClient.Comparing.{compared}
use stdsc.MultiClient.ServerSide.{
  questions, table, known_a, known_b, known_compute, compare_packet, compare_eval,
}

comparing-AllRaise :
    {W : Type 0} (sys : System W) (param : Bytes) → AllRaise (comparing_callbacks sys param).funcmap
unfolding comparing_callbacks emplace
comparing-AllRaise sys param s = (
  data_class-Does Raises pure-Raises s _ (λ code. receive_value_a-Raises),
  (
    data_class-Does Raises pure-Raises s _ (λ code. receive_value_b-Raises),
    (
      request_class-Does Raises pure-Raises s _ (λ code. compute-Raises),
      (
        updownload_class-Does Raises pure-Raises s _
            (λ code buffer. compare_result-Raises sys buffer s),
        tt,
      ),
    ),
  ),
)

comparing-Preserves :
    {W : Type 0} (sys : System W) (s : Socket) (P : W → Type 0)
    → Untouched sys s P
    → AllDo (Preserves (OnView {Object = Object} P)) s (table sys)
unfolding comparing_callbacks emplace
comparing-Preserves sys s P frame =
    let nothing = same-Preserves (OnView P) (ok tt) in
    (
      data_class-Does _ nothing s _ (λ code. receive_value_a-Preserves P),
      (
        data_class-Does _ nothing s _ (λ code. receive_value_b-Preserves P),
        (
          request_class-Does _ nothing s _ (λ code. compute-Preserves P),
          (
            updownload_class-Does _ nothing s _
                (λ code buffer. compare_result-Preserves sys s P frame buffer),
            tt,
          ),
        ),
      ),
    )

comparing-Table : {W : Type 0} (sys : System W) → Table sys (table sys)
comparing-Table sys = record {
  raises = comparing-AllRaise sys [];
  keeps = comparing-Preserves sys;
  has_a = known_a sys;
  has_b = known_b sys;
  has_compute = known_compute sys;
}

-- the server of multi_client's `run`
abbrev pub comparing : {W : Type 0} → System W → Bytes → W → Threads W Object
comparing sys param w = serving_with (comparing_callbacks sys param) w

unpacked :
    (p x q y m n z r : Bytes)
    → ((p ++ x) ++ ((q ++ y) ++ (m ++ (n ++ z)))) ++ r
      ≡ p ++ (x ++ (q ++ (y ++ (m ++ (n ++ (z ++ r))))))
unpacked p x q y m n z r = simp append_assoc

module _ {W : Type 0} (sys : System W) (sockets : ℕ → Socket) (i : ℕ)
    (conn : W → Bytes → Bytes → Type 0) (law : IsConnection sys (sockets i) conn)
    (rounds : packet_size ≤ sys.write_rounds) (a b expected : ℕ) (he : expected < 2 ^ 32) where
  abbrev Reached : Phase → Pc → Bytes → Bytes → Threads W Object → Type 0
  Reached = Stands sys sockets i conn a b (table sys)

  answer_compare :
      (inc out : Bytes) (t : Threads W Object)
      → Reached has_sum (answering (compare_packet expected)) (encode 4 expected ++ inc) out t
      → Reached has_sum waiting inc
          (out
            ++ number_message code_data_result (compared ((a + b) % 2 ^ 32) expected)
            ++ accept_message)
          (moved_on sys sockets i false t)
  answer_compare inc out t h =
      answer-Stands sys sockets i conn a b (table sys) law rounds (compare_packet expected) t h
        (compare_eval sys (sockets i) law rounds expected ((a + b) % 2 ^ 32) h.object h.bytes inc
          out (session_of t i) he (computed_id h.allowed) h.stored h.at h.wire)
        (Allowed-result h.allowed) h.stored

module _ {W : Type 0} (sys : System W) (sockets : ℕ → Socket) (i : ℕ)
    (conn : W → Bytes → Bytes → Type 0) (a b expected : ℕ) (rest out : Bytes)
    (law : IsConnection sys (sockets i) conn) (rounds : packet_size ≤ sys.write_rounds)
    (ha : a < 2 ^ 32) (hb : b < 2 ^ 32) (he : expected < 2 ^ 32)
    (others : (j : ℕ) → i ≢ j → sockets i ≢ sockets j)
    (frame : (j : ℕ)
      → i ≢ j
      → (inc sent : Bytes) → Untouched sys (sockets j) (λ w. conn w inc sent)) where
  -- Let the multi_client server start with a CallbackParam of 12 bytes and any number of
  -- connections, where connection i does not fail (IsConnection), has the four messages of a client
  -- for 32-bit values a and b and the sum that it expects to come (`questions`), and has a
  -- descriptor of its own whose streams the calls on the other descriptors leave alone (Untouched);
  -- `send` has enough rounds for a packet. The other connections may send anything. However the
  -- steps of the threads follow one another, and whatever the system does elsewhere between them,
  -- once thread i has had eight turns (two for each message), none of which finds force_finish set,
  -- it has sent its client exactly the four acknowledgements and the number 1 when the sum of a and
  -- b modulo 2 ^ 32 is the expected one and 0 when not, has taken the four messages and no byte
  -- more, and waits for the next packet.
  pub Among-compared :
      (param : Bytes) (w : W) {t : Threads W Object}
      → length param ≡ 12
      → conn w (questions a b expected ++ rest) out
      → Among sys sockets i conn (comparing sys param w) 8 t
      → (t.pcs i ≡ waiting)
        × conn t.world rest (out ++ replies (compared ((a + b) % 2 ^ 32) expected))
  unfolding comparing_callbacks
  Among-compared param w {t = t} n c run =
      let x : ℕ = compared ((a + b) % 2 ^ 32) expected in
      let last = compare_packet expected in
      let end =
        Among-After sys sockets i conn a b (table sys) last (encode 4 expected)
          (number_message code_data_result x) rest out law rounds ha hb (comparing-Table sys)
          (announced-IsPacket code_compare_result (length (encode 4 expected)) (omega arith))
          (answer_compare sys sockets i conn law rounds a b expected he) others frame run
          (omega arith)
          (serving-Stands sys sockets i conn a b (table sys) (comparing_callbacks sys param) param w
            (comparing-AllRaise sys param) refl refl refl n
            (subst (λ m. conn w m out)
              (unpacked (to_bytes (value_packet code_value_a a)) (encode 4 a)
                (to_bytes (value_packet code_value_b b)) (encode 4 b)
                (to_bytes (make_packet code_request_compute)) (to_bytes last) (encode 4 expected)
                rest)
              c)) in
      (
        end.at_pc,
        subst (conn t.world rest) (regroup out accept_message (number_message code_data_result x))
            end.wire,
      )
