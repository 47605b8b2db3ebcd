-- ===== src/MultiClient/ServerSide.antt =====
-- What the server's thread answers to a client that has its sum compared.
use stdsc.Base.{
  ℕ, ◌+◌, ◌%◌, ◌^◌, ◌≤◌, ◌<◌, ◌≡◌, refl, ap, subst, ◌∙◌, Bool, true, false, some, List, [], ◌∷◌,
  ◌++◌, arith, length, append_assoc,
}
use stdsc.Base.Assoc.{lookup, emplace}
use stdsc.Base.Int.{pos, leb_ℤ}
use stdsc.Exec.{ok}
use stdsc.System.{System}
use stdsc.Packet.{Bytes, Packet, packet_size, to_bytes, new_packet, set_data_size, make_packet}
use stdsc.Packet.Codec.{encode, length-encode}
use stdsc.Packet.Wire.{control_code-new_packet, data_size-set_data_size}
use stdsc.Packet.Groups.{announced-IsPacket}
use stdsc.Socket.{Socket}
use stdsc.Socket.Connection.{IsConnection}
use stdsc.Callback.{
  View, Session, CallbackFunction, base, nat_eq, register_connection, close_view, eval,
}
use stdsc.Callback.Dispatch.{viewed, eval_up_download}
use stdsc.Server.{serve_packet, exec, ThreadException}
use stdsc.Server.Answers.{accepted, serve_packet_lem, exec_round}
use stdsc.AddServer.State.{
  Object, state_id, state_init, state_ready, state_computed, received_compute_request,
  received_result_request,
}
use stdsc.AddServer.Sharing.{follow}
use stdsc.AddServer.Callbacks.{
  load, sum, code_value_a, code_value_b, code_request_compute, code_data_result, receive_value_a,
  receive_value_b, compute, compare_result,
}
use stdsc.AddServer.Memory.{store_lem, load-encode}
use stdsc.AddServer.Rounds.{compute_lem, moved}
use stdsc.AddServer.Protocol.{data_message, accept_message, number_message, replies}
use stdsc.AddServer.Protocol.Serving.{At, Serves, settle, run_registered}
use stdsc.AddServer.Protocol.Loop.{request_round}
use stdsc.AddServer.Protocol.ServerSide.{values_received, regroup, spread}
use stdsc.MultiClient.{code_compare_result, comparing_callbacks}
use stdsc.MultiClient.Comparing.{compared, compare_result_lem}

-- what the client sends: the values, the request, and the sum that it expects
abbrev pub questions : ℕ → ℕ → ℕ → Bytes
questions a b expected =
    data_message code_value_a (encode 4 a)
    ++ (data_message code_value_b (encode 4 b)
        ++ (to_bytes (make_packet code_request_compute)
            ++ data_message code_compare_result (encode 4 expected)))

abbrev pub compare_packet : ℕ → Packet
compare_packet expected =
    set_data_size (new_packet code_compare_result) (length (encode 4 expected))

module _ {W : Type 0} (sys : System W) where
  abbrev pub table : List (ℕ × CallbackFunction (View W Object))
  table = (comparing_callbacks sys []).funcmap

  pub known_a :
      lookup code_value_a table
      ≡ some (record base { data_function = λ code buffer. receive_value_a buffer })
  unfolding comparing_callbacks lookup emplace
  known_a = refl

  pub known_b :
      lookup code_value_b table
      ≡ some (record base { data_function = λ code buffer. receive_value_b buffer })
  unfolding comparing_callbacks lookup emplace
  known_b = refl

  pub known_compute :
      lookup code_request_compute table ≡ some (record base { request_function = λ code. compute })
  unfolding comparing_callbacks lookup emplace
  known_compute = refl

  known_compare :
      lookup code_compare_result table
      ≡ some (record base { updownload_function = λ code buffer s. compare_result sys buffer s })
  unfolding comparing_callbacks lookup emplace
  known_compare = refl

module _ {W : Type 0} (sys : System W) (s : Socket) {conn : W → Bytes → Bytes → Type 0}
    (law : IsConnection sys s conn) (rounds : packet_size ≤ sys.write_rounds) where
  -- The evaluation of the last message, in any state in which a sum is there.
  pub compare_eval :
      (expected x : ℕ) (o : Object) (bytes i out : Bytes) (ses : Session W Object)
      → expected < 2 ^ 32
      → leb_ℤ (pos 3) (state_id o) ≡ true
      → load bytes sum ≡ some x
      → At sys s (table sys) o bytes ses.context ses.objects ses.container
      → conn ses.world (encode 4 expected ++ i) out
      → Serves sys s law rounds
          (table sys)
          (follow o received_result_request)
          bytes
          i
          (out ++ number_message code_data_result (compared x expected))
          (eval sys s (compare_packet expected) ses)
  compare_eval expected x o bytes i out ses small there ls h c =
      let payload = encode 4 expected in
      let p = compare_packet expected in
      let named = control_code-new_packet code_compare_result (length payload) in
      let (w₁, run, c₁) =
        eval_up_download sys s law p payload i out ses (rw named refl)
          (data_size-set_data_size (new_packet code_compare_result) (length payload)
            (omega (arith, length-encode 4 expected)))
          c in
      let v = record (viewed sys s ses) { world = w₁ } in
      let (w₂, done, c₂) =
        compare_result_lem sys s law rounds payload bytes expected x v i out h.found there
          (load-encode expected small) h.pointer ls c₁ in
      let close = close_view s (register_connection s ses.container) in
      (
        (close (ok tt, moved received_result_request bytes (record v { world = w₂ }))).1,
        run
            ∙ ap (λ m. close (m v))
                (run_registered (λ f k. f.updownload_function k payload s) p.control_code
                  code_compare_result _ _ _ named h.functions (known_compare sys))
            ∙ ap close done,
        c₂,
        settle sys s (table sys) received_result_request o bytes bytes ses w₂ (ok tt) h,
      )

  pub compare_round :
      (expected x : ℕ) (bytes i out : Bytes) (ses : Session W Object)
      → expected < 2 ^ 32
      → load bytes sum ≡ some x
      → At sys s (table sys) state_computed bytes ses.context ses.objects ses.container
      → conn ses.world (data_message code_compare_result (encode 4 expected) ++ i) out
      → Serves sys s law rounds
          (table sys)
          (follow state_computed received_result_request)
          bytes
          i
          (out ++ number_message code_data_result (compared x expected) ++ accept_message)
          (serve_packet sys s ses)
  compare_round expected x bytes i out ses small ls h c =
      let p = compare_packet expected in
      serve_packet_lem sys s law rounds p ses (encode 4 expected ++ i) out i
        (out ++ number_message code_data_result (compared x expected))
        (At sys s (table sys) (follow state_computed received_result_request) bytes)
        (announced-IsPacket code_compare_result (length (encode 4 expected)) (omega arith)) accepted
        (λ w c'.
          compare_eval expected x state_computed bytes i out (record ses { world = w }) small refl
            ls h c')
        (rw (append_assoc (to_bytes p) (encode 4 expected) i) at c)

  -- Over a connection that does not fail (IsConnection), with enough rounds of `send` for a packet:
  -- the thread of a connection of the multi_client server in the first state, whose common data
  -- takes 12 bytes, answers the four messages of a client with the 32-bit values a and b and the sum
  -- that it expects (`questions`), each in one round of the loop, by three acknowledgements, the
  -- number 1 when the sum of a and b modulo 2 ^ 32 is the expected one and 0 when not, and a fourth
  -- acknowledgement. The connection is in the state Computed afterwards.
  pub exec-compared :
      (a b expected : ℕ) (bytes i out : Bytes) (ses : Session W Object) (flags : List Bool)
      (te : ThreadException)
      → a < 2 ^ 32
      → b < 2 ^ 32
      → expected < 2 ^ 32
      → length bytes ≡ 12
      → At sys s (table sys) (state_init false false) bytes ses.context ses.objects ses.container
      → conn ses.world (questions a b expected ++ i) out
      → (ses' : Session W Object) × (bytes' : Bytes) × (exec sys s
            (false ∷ false ∷ false ∷ false ∷ flags)
            ses
            te
          ≡ exec sys s flags ses' te)
        × conn ses'.world i (out ++ replies (compared ((a + b) % 2 ^ 32) expected))
        × At sys s (table sys) state_computed bytes' ses'.context ses'.objects ses'.container
  unfolding follow
  exec-compared a b expected bytes i out ses flags te ha hb he n h c =
      let x : ℕ = (a + b) % 2 ^ 32 in
      let m₃ = to_bytes (make_packet code_request_compute) in
      let m₄ = data_message code_compare_result (encode 4 expected) in
      let got = out ++ accept_message ++ accept_message in
      let (s₂, b₂, e₂, c₂, la, lb, n₂, h₂) =
        values_received sys s law rounds (table sys) (known_a sys) (known_b sys) a b bytes
          (m₃ ++ (m₄ ++ i)) out ses (false ∷ false ∷ flags) te ha hb n h
          (subst (λ t. conn ses.world t out)
            (spread (data_message code_value_a (encode 4 a))
              (data_message code_value_b (encode 4 b)) m₃ m₄ i)
            c) in
      let (b₃, st, n₃, ls) = store_lem b₂ sum x (omega arith) (omega arith) in
      let (s₃, e₃, c₃, h₃) =
        request_round sys s law rounds (table sys) code_request_compute received_compute_request
          state_ready b₂ b₃ (m₄ ++ i) got s₂ _ refl (known_compute sys)
          (λ v f p. compute_lem b₂ b₃ a b v f refl p la lb st) h₂ c₂ in
      let (s₄, e₄, c₄, h₄) = compare_round expected x b₃ i (got ++ accept_message) s₃ he ls h₃ c₃ in
      (
        s₄,
        b₃,
        e₂
            ∙ exec_round sys s law rounds _ s₂ s₃ te e₃
            ∙ exec_round sys s law rounds flags s₃ s₄ te e₄,
        subst (λ t. conn s₄.world i t)
            (regroup out accept_message (number_message code_data_result (compared x expected))) c₄,
        h₄,
      )
