-- ===== src/AddServer/Protocol.antt =====
-- The example as a whole: what the server answers to the four messages of the client, and what the
-- client makes of the answers.
pub mod Serving
pub mod Loop
pub mod ServerSide
pub mod ClientSide
use stdsc.Base.{ℕ, ◌+◌, ◌%◌, ◌^◌, ◌++◌, length}
use stdsc.Packet.{Bytes, to_bytes, new_packet, set_data_size, make_packet}
use stdsc.Packet.Codec.{encode}
use stdsc.Packet.ControlCode
use stdsc.AddServer.Callbacks.{
  code_value_a, code_value_b, code_request_compute, code_download_result, code_data_result,
}

-- a data packet with its data, a request, and an acknowledgement
abbrev pub data_message : ℕ → Bytes → Bytes
data_message code bytes = to_bytes (set_data_size (new_packet code) (length bytes)) ++ bytes

abbrev pub accept_message : Bytes
accept_message = to_bytes (make_packet ControlCode.accept)

abbrev pub number_message : ℕ → ℕ → Bytes
number_message code x = to_bytes (set_data_size (new_packet code) 4) ++ encode 4 x

-- what the client sends, up to its download, for the values a and b
abbrev pub requests : ℕ → ℕ → Bytes
requests a b =
    data_message code_value_a (encode 4 a)
    ++ (data_message code_value_b (encode 4 b)
        ++ (to_bytes (make_packet code_request_compute)
            ++ to_bytes (make_packet code_download_result)))

-- what it gets: three acknowledgements, and the sum with a fourth
abbrev pub replies : ℕ → Bytes
replies x =
    accept_message
    ++ (accept_message ++ (accept_message ++ (number_message code_data_result x ++ accept_message)))
