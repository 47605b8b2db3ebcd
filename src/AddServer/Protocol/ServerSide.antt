-- ===== src/AddServer/Protocol/ServerSide.antt =====
-- What the server's thread answers to the example client as a whole.
use stdsc.Base.{
  ℕ, ◌+◌, ◌%◌, ◌^◌, ◌≤◌, ◌<◌, ◌≡◌, refl, subst, ◌∙◌, Bool, true, false, some, List, [], ◌∷◌, ◌++◌,
  arith, length, append_assoc,
}
use stdsc.System.{System}
use stdsc.Packet.{Bytes, packet_size, to_bytes, make_packet}
use stdsc.Packet.Codec.{encode, length-encode}
use stdsc.Socket.{Socket}
use stdsc.Socket.Connection.{IsConnection}
use stdsc.Base.Assoc.{lookup}
use stdsc.Callback.{View, CallbackFunction, base, Session, nat_eq}
use stdsc.Server.{exec, ThreadException}
use stdsc.Server.Answers.{exec_round}
use stdsc.AddServer.State.{
  Object, state_init, state_ready, state_computed, received_value_a, received_value_b,
  received_compute_request, received_result_request,
}
use stdsc.AddServer.Sharing.{follow}
use stdsc.AddServer.Callbacks.{
  load, value_a, sum, code_value_a, code_value_b, code_request_compute, code_download_result,
  code_data_result, callbacks, receive_value_a, receive_value_b,
}
use stdsc.AddServer.Protocol.{data_message, accept_message, number_message, requests, replies}
use stdsc.AddServer.Memory.{store_lem, store_b, load-encode}
use stdsc.AddServer.Rounds.{
  receive_value_a_lem, receive_value_b_lem, compute_lem, download_result_lem,
}
use stdsc.AddServer.Callbacks.{value_b}
use stdsc.AddServer.Protocol.Serving.{At, known_a, known_b, known_compute, known_result}
use stdsc.AddServer.Protocol.Loop.{data_round, request_round, download_round}

pub regroup : (o a n : Bytes) → o ++ a ++ a ++ a ++ n ++ a ≡ o ++ (a ++ (a ++ (a ++ (n ++ a))))
regroup o a n = simp append_assoc

pub spread :
    (m₁ m₂ m₃ m₄ i : Bytes) → (m₁ ++ (m₂ ++ (m₃ ++ m₄))) ++ i ≡ m₁ ++ (m₂ ++ (m₃ ++ (m₄ ++ i)))
spread m₁ m₂ m₃ m₄ i = simp append_assoc

module _ {W : Type 0} (sys : System W) (s : Socket) {conn : W → Bytes → Bytes → Type 0}
    (law : IsConnection sys s conn) (rounds : packet_size ≤ sys.write_rounds)
    (table : List (ℕ × CallbackFunction (View W Object)))
    (has_a : lookup code_value_a table
      ≡ some (record base { data_function = λ code buffer. receive_value_a buffer }))
    (has_b : lookup code_value_b table
      ≡ some (record base { data_function = λ code buffer. receive_value_b buffer })) where
  pub values_received :
      (a b : ℕ) (bytes i out : Bytes) (ses : Session W Object) (flags : List Bool)
      (te : ThreadException)
      → a < 2 ^ 32
      → b < 2 ^ 32
      → length bytes ≡ 12
      → At sys s table (state_init false false) bytes ses.context ses.objects ses.container
      → conn ses.world
          (data_message code_value_a (encode 4 a) ++ (data_message code_value_b (encode 4 b) ++ i))
          out
      → (ses' : Session W Object) × (bytes' : Bytes) × (exec sys s (false ∷ false ∷ flags) ses te
          ≡ exec sys s flags ses' te)
        × conn ses'.world i (out ++ accept_message ++ accept_message)
        × (load bytes' value_a ≡ some a)
        × (load bytes' value_b ≡ some b)
        × (length bytes' ≡ 12)
        × At sys s table state_ready bytes' ses'.context ses'.objects ses'.container
  unfolding follow
  values_received a b bytes i out ses flags te ha hb n h c =
      let (b₁, st₁, n₁, la₁) = store_lem bytes value_a a (omega arith) ha in
      let (b₂, st₂, n₂, la₂, lb₂) = store_b b₁ a b (omega arith) hb la₁ in
      let (s₁, e₁, c₁, h₁) =
        data_round sys s law rounds table code_value_a received_value_a (state_init false false)
          bytes b₁ (encode 4 a) (data_message code_value_b (encode 4 b) ++ i) out ses _ refl
          (omega (arith, length-encode 4 a)) has_a
          (λ v f p. receive_value_a_lem (encode 4 a) bytes b₁ a v f (load-encode a ha) p st₁) h c in
      let (s₂, e₂, c₂, h₂) =
        data_round sys s law rounds table code_value_b received_value_b (state_init true false) b₁
          b₂ (encode 4 b) i (out ++ accept_message) s₁ _ refl (omega (arith, length-encode 4 b))
          has_b (λ v f p. receive_value_b_lem (encode 4 b) b₁ b₂ b v f (load-encode b hb) p st₂) h₁
          c₁ in
      (
        s₂,
        b₂,
        exec_round sys s law rounds _ ses s₁ te e₁ ∙ exec_round sys s law rounds flags s₁ s₂ te e₂,
        c₂,
        la₂,
        lb₂,
        omega arith,
        h₂,
      )

module _ {W : Type 0} (sys : System W) (s : Socket) {conn : W → Bytes → Bytes → Type 0}
    (law : IsConnection sys s conn) (rounds : packet_size ≤ sys.write_rounds) where
  -- Over a connection that does not fail (IsConnection), with enough rounds of `send` for a packet:
  -- the thread of a connection in the first state, whose common data takes 12 bytes, answers the
  -- four messages of the example client, with 32-bit values a and b, by three acknowledgements, the
  -- sum modulo 2 ^ 32 and a fourth acknowledgement. Each message takes one round of the loop. The
  -- connection is in the state Computed afterwards, and its common data holds the sum.
  pub exec-sum :
      (a b : ℕ) (bytes i out : Bytes) (ses : Session W Object) (flags : List Bool)
      (te : ThreadException)
      → a < 2 ^ 32
      → b < 2 ^ 32
      → length bytes ≡ 12
      → At sys s
          (callbacks sys []).funcmap
          (state_init false false)
          bytes
          ses.context
          ses.objects
          ses.container
      → conn ses.world (requests a b ++ i) out
      → (ses' : Session W Object) × (bytes' : Bytes) × (exec sys s
            (false ∷ false ∷ false ∷ false ∷ flags)
            ses
            te
          ≡ exec sys s flags ses' te)
        × conn ses'.world i (out ++ replies ((a + b) % 2 ^ 32))
        × (load bytes' sum ≡ some ((a + b) % 2 ^ 32))
        × At sys s
            (callbacks sys []).funcmap
            state_computed
            bytes'
            ses'.context
            ses'.objects
            ses'.container
  unfolding follow
  exec-sum a b bytes i out ses flags te ha hb n h c =
      let x : ℕ = (a + b) % 2 ^ 32 in
      let m₃ = to_bytes (make_packet code_request_compute) in
      let m₄ = to_bytes (make_packet code_download_result) in
      let got = out ++ accept_message ++ accept_message in
      let (s₂, b₂, e₂, c₂, la, lb, n₂, h₂) =
        values_received sys s law rounds (callbacks sys []).funcmap (known_a sys) (known_b sys) a b
          bytes (m₃ ++ (m₄ ++ i)) out ses (false ∷ false ∷ flags) te ha hb n h
          (subst (λ t. conn ses.world t out)
            (spread (data_message code_value_a (encode 4 a))
              (data_message code_value_b (encode 4 b)) m₃ m₄ i)
            c) in
      let (b₃, st, n₃, ls) = store_lem b₂ sum x (omega arith) (omega arith) in
      let (s₃, e₃, c₃, h₃) =
        request_round sys s law rounds (callbacks sys []).funcmap code_request_compute
          received_compute_request state_ready b₂ b₃ (m₄ ++ i) got s₂ _ refl (known_compute sys)
          (λ v f p. compute_lem b₂ b₃ a b v f refl p la lb st) h₂ c₂ in
      let (s₄, e₄, c₄, h₄) =
        download_round sys s law rounds (callbacks sys []).funcmap code_download_result
          received_result_request state_computed b₃ i (got ++ accept_message)
          (number_message code_data_result x) s₃ _ refl (known_result sys)
          (λ v f p c'. download_result_lem sys s law rounds b₃ x v i _ f refl p ls c') h₃ c₃ in
      (
        s₄,
        b₃,
        e₂
            ∙ exec_round sys s law rounds _ s₂ s₃ te e₃
            ∙ exec_round sys s law rounds flags s₃ s₄ te e₄,
        subst (λ t. conn s₄.world i t)
            (regroup out accept_message (number_message code_data_result x)) c₄,
        ls,
        h₄,
      )
