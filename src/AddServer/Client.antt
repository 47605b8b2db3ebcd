-- ===== src/AddServer/Client.antt =====
-- examples/add_server/client/main.cpp: the run of the example client, for any two values.
use stdsc.Base.{ℕ, String, Option, none, some, []}
use stdsc.Exec.{Result, ok, throws, running, fault, Exec, ◌>>=◌, ◌>>◌}
use stdsc.System.{System, minus_one}
use stdsc.Packet.{Bytes}
use stdsc.Packet.Codec.{encode}
use stdsc.Socket.{Socket, time_infinite}
use stdsc.Client.{
  Filling, connect, send_request_blocking, send_data_blocking, recv_data_blocking, close,
}
use stdsc.AddServer.Callbacks.{
  load, code_value_a, code_value_b, code_request_compute, code_download_result,
}

-- STDSC_RETRY_INTERVAL_USEC
abbrev pub retry_interval_usec : ℕ
retry_interval_usec = 1000000

module _ {W : Type 0} (sys : System W) where
  abbrev pub filled_buffer : Result (Unit {0}) × Filling sys → Result Bytes × W
  filled_buffer (ok _, (buffer, w)) = (ok buffer, w)
  filled_buffer (throws e, (buffer, w)) = (throws e, w)
  filled_buffer (running, (buffer, w)) = (running, w)
  filled_buffer (fault, (buffer, w)) = (fault, w)

  -- `stdsc::Buffer result;` and a call that fills it
  abbrev pub into_buffer : Exec (Filling sys) (Unit {0}) → Exec W Bytes
  into_buffer m w = filled_buffer (m ([], w))

  -- *static_cast<const uint32_t*>(result.data())
  abbrev pub number_of : Option ℕ → Exec W ℕ
  number_of none w = (fault, w)
  number_of (some x) w = (ok x, w)

  -- the exchanges once the client is connected, and its `close`
  unfoldable pub exchange : Socket → ℕ → ℕ → Exec W ℕ
  exchange s va vb = do
    send_data_blocking sys s code_value_a (encode 4 va) retry_interval_usec time_infinite
    send_data_blocking sys s code_value_b (encode 4 vb) retry_interval_usec time_infinite
    send_request_blocking sys s code_request_compute retry_interval_usec time_infinite
    result ←
        into_buffer
          (recv_data_blocking sys s code_download_result retry_interval_usec time_infinite)
    close sys s
    number_of (load result 0)

  -- the destructor of a local Client that an exception passes: ~Client::Impl closes its socket, which
  -- `exchange` has not closed yet when it throws
  abbrev pub unwound : {A : Type 0} → Socket → Result A × W → Result A × W
  unwound s (throws e, w) = (throws e, (close sys s w).1)
  unwound s (ok a, w) = (ok a, w)
  unwound s (running, w) = (running, w)
  unwound s (fault, w) = (fault, w)

  unfoldable pub run : String → String → ℕ → ℕ → Exec W ℕ
  run host port va vb = do
    s ← connect sys minus_one host port retry_interval_usec time_infinite
    λ w. unwound s (exchange s va vb w)
