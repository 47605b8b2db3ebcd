-- ===== src/AddServer/Callbacks.antt =====
-- examples/add_server/server/callback_function.hpp, callback_function.cpp and main.cpp, with the
-- comparing callback of examples/multi_client/server/callback_function.cpp.
use stdsc.Base.{
  ℕ, ◌+◌, ◌%◌, ◌^◌, String, Option, none, some, [], ◌++◌, ◌==◌, leb, if◌then◌else◌, length, take,
  drop,
}
use stdsc.Base.Int.{pos, leb_ℤ}
use stdsc.Exec.{callback, ok, fault, Exec, ◌>>=◌, ◌>>◌, check}
use stdsc.System.{System}
use stdsc.Packet.{Bytes, make_data_packet}
use stdsc.Packet.Codec.{encode, decode}
use stdsc.Socket.{Socket, send_packet, send_buffer}
use stdsc.State.{set, current_state}
use stdsc.Callback.{
  View, CallbackFunction, request_class, data_class, download_class, updownload_class, Container,
  new_container, set_commondata, on_each_connection,
}
use stdsc.Callback
use stdsc.AddServer.State.{
  Object, states, received_value_a, received_value_b, received_compute_request,
  received_result_request,
}

-- share/packet.hpp
abbrev pub code_request_compute : ℕ
code_request_compute = 0x0201

abbrev pub code_value_a : ℕ
code_value_a = 0x0401

abbrev pub code_value_b : ℕ
code_value_b = 0x0402

abbrev pub code_data_result : ℕ
code_data_result = 0x0403

abbrev pub code_download_result : ℕ
code_download_result = 0x0801

-- the members of CallbackParam, by their offsets
abbrev pub value_a : ℕ
value_a = 0

abbrev pub value_b : ℕ
value_b = 4

abbrev pub sum : ℕ
sum = 8

-- a `uint32_t` in memory, where there are four bytes for it
abbrev pub load : Bytes → ℕ → Option ℕ
load bytes offset =
    if leb (offset + 4) (length bytes) then some (decode (take 4 (drop offset bytes))) else none

abbrev pub store : Bytes → ℕ → ℕ → Option Bytes
store bytes offset v =
    if leb (offset + 4) (length bytes)
    then some (take offset bytes ++ (encode 4 v ++ drop (offset + 4) bytes))
    else none

-- a member of `*cdata_e`; a null pointer has no bytes
abbrev pub each_bytes : Option Bytes → Bytes
each_bytes none = []
each_bytes (some bytes) = bytes

abbrev pub Action : Type 0 → Type 0 → Type 0
Action W A = Exec (View W Object) A

module _ {W : Type 0} where
  abbrev pub or_fault : {A : Type 0} → Option A → Action W A
  or_fault none v = (fault, v)
  or_fault (some a) v = (ok a, v)

  -- STDSC_THROW_CALLBACK_IF_CHECK(id <= state.current_state(), message)
  abbrev pub require_state : ℕ → String → Action W (Unit {0})
  require_state id message v =
      check (leb_ℤ (pos id) (current_state states v.context v.objects)) (callback message) v

  -- state.set(event)
  abbrev pub notify : ℕ → Action W (Unit {0})
  notify event v =
      let (sc, objects) = set states event v.context v.objects in
      (ok tt, record v { context = sc; objects = objects })

  abbrev pub load_member : ℕ → Action W ℕ
  load_member offset v = or_fault (load (each_bytes v.on_each) offset) v

  abbrev pub store_member : ℕ → ℕ → Action W (Unit {0})
  store_member offset x v =
      (do
        bytes ← or_fault (store (each_bytes v.on_each) offset x)
        λ v. (ok tt, record v { on_each = some bytes }))
        v

  -- *static_cast<const uint32_t*>(buffer.data())
  abbrev pub load_buffer : Bytes → Action W ℕ
  load_buffer buffer = or_fault (load buffer 0)

  -- CallbackFunctionForValueA, CallbackFunctionForValueB, CallbackFunctionForComputeRequest
  unfoldable pub receive_value_a : Bytes → Action W (Unit {0})
  receive_value_a buffer = do
    require_state 1 "Warn: must be connected state to receive valueA."
    a ← load_buffer buffer
    store_member value_a a
    notify received_value_a

  unfoldable pub receive_value_b : Bytes → Action W (Unit {0})
  receive_value_b buffer = do
    require_state 1 "Warn: must be connected state to receive valueB."
    b ← load_buffer buffer
    store_member value_b b
    notify received_value_b

  unfoldable pub compute : Action W (Unit {0})
  compute = do
    require_state 2 "Warn: must be connected state to receive valueB."
    a ← load_member value_a
    b ← load_member value_b
    store_member sum ((a + b) % 2 ^ 32)
    notify received_compute_request

module _ {W : Type 0} (sys : System W) where
  abbrev pub on_system : {A : Type 0} → Exec W A → Action W A
  on_system m v = ((m v.world).0, record v { world = (m v.world).1 })

  abbrev pub send_result : Socket → ℕ → Action W (Unit {0})
  send_result s x = do
    packet ← make_data_packet code_data_result 4
    on_system (send_packet sys s packet)
    on_system (send_buffer sys s (encode 4 x))
    notify received_result_request

  -- CallbackFunctionForResultRequest of add_server
  unfoldable pub download_result : Socket → Action W (Unit {0})
  download_result s = do
    require_state 3 "Warn: must be connected state to receive valueB."
    x ← load_member sum
    send_result s x

  -- CallbackFunctionForResultRequest of multi_client: whether the client expects this sum
  unfoldable pub compare_result : Bytes → Socket → Action W (Unit {0})
  compare_result buffer s = do
    require_state 3 "Warn: must be connected state to receive valueB."
    expected ← load_buffer buffer
    x ← load_member sum
    send_result s (if x == expected then 1 else 0)

  -- the container that the server's `run` fills; `param` is the memory of its CallbackParam
  unfoldable pub callbacks : Bytes → Container (View W Object)
  unfolding new_container Callback.set set_commondata
  callbacks param = set_commondata param on_each_connection (
      Callback.set code_download_result (download_class (λ code s. download_result s)) (
        Callback.set code_request_compute (request_class (λ code. compute)) (
          Callback.set code_value_b (data_class (λ code buffer. receive_value_b buffer)) (
            Callback.set code_value_a (data_class (λ code buffer. receive_value_a buffer))
              new_container))))
