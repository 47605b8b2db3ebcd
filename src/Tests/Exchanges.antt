-- ===== src/Tests/Exchanges.antt =====
-- Runs of the client's exchanges.
use stdsc.Base.{◌≡◌, refl, [], ◌∷◌, ◌++◌, ◌==◌, false, arith, length, inl, inr}
use stdsc.Packet.{Bytes, Packet, to_bytes, new_packet, make_packet, set_data_size, data_size}
use stdsc.Packet.ControlCode
use stdsc.Packet.Wire.{
  IsPacket, make_packet-IsPacket, control_code-new_packet, data_size-set_data_size,
}
use stdsc.Packet.Groups.{announced-IsPacket}
use stdsc.Client.{send_data, recv_data, send_recv_data}
use stdsc.Client.Exchange.{verdict, filled, send_data_lem, recv_data_lem, send_recv_data_lem}
use stdsc.Tests.{Wire, wire, loopback, sock, Here, loopback_lem}

abbrev refusal : Packet
refusal = make_packet ControlCode.reject

abbrev accepted : Packet
accepted = make_packet ControlCode.accept

abbrev payload : Bytes
payload = 10 ∷ 0 ∷ 0 ∷ 0 ∷ []

abbrev header : Packet
header = set_data_size (new_packet 0x0403) 4

header_size : data_size header ≡ length payload
header_size = data_size-set_data_size (new_packet 0x0403) 4 (omega arith)

header_accepts : (header.control_code == ControlCode.reject) ≡ false
header_accepts = rw (control_code-new_packet 0x0403 4) refl

accepted-IsPacket : IsPacket accepted
accepted-IsPacket = make_packet-IsPacket ControlCode.accept (omega arith)

refusal-IsPacket : IsPacket refusal
refusal-IsPacket = make_packet-IsPacket ControlCode.reject (omega arith)

abbrev reply : Bytes
reply = to_bytes header ++ (payload ++ (to_bytes accepted ++ []))

send_data_lem_example :
    (w' : Wire) × (send_data loopback sock 0x0401 payload (wire (to_bytes accepted ++ [])) ≡ (
      verdict "Rejected to send data. (0x102)" "Failed to send data. (0x103)" accepted.control_code,
      w',
    ))
    × Here w' [] ([] ++ to_bytes (set_data_size (new_packet 0x0401) (length payload)) ++ payload)
send_data_lem_example =
    send_data_lem loopback sock loopback_lem (omega arith) 0x0401 payload accepted
      (wire (to_bytes accepted ++ [])) [] [] (omega arith) (inl (omega arith)) (omega arith)
      (omega arith) accepted-IsPacket (refl, refl)

recv_data_lem_example :
    (w' : Wire) × (recv_data loopback sock 0x0801 ([], wire reply) ≡ (
      verdict "Rejected to recv data. (0x102)" "Failed to recv data. (0x103)" accepted.control_code,
      (filled payload [], w'),
    ))
    × Here w' [] ([] ++ to_bytes (make_packet 0x0801))
recv_data_lem_example =
    recv_data_lem loopback sock loopback_lem (omega arith) 0x0801 header accepted payload []
      (wire reply) [] [] (omega arith) (announced-IsPacket 0x0403 4 (omega arith)) header_accepts
      header_size accepted-IsPacket (refl, refl)

send_recv_data_lem_example :
    (w' : Wire) × (send_recv_data loopback sock 0x1001 payload ([], wire reply) ≡ (
      verdict "Rejected to recv data. (0x102)" "Failed to recv data. (0x103)" accepted.control_code,
      (filled payload [], w'),
    ))
    × Here w' [] ([] ++ to_bytes (set_data_size (new_packet 0x1001) (length payload)) ++ payload)
send_recv_data_lem_example =
    send_recv_data_lem loopback sock loopback_lem (omega arith) 0x1001 payload header accepted
      payload [] (wire reply) [] [] (omega arith) (inr (omega arith)) (omega arith) (omega arith)
      (announced-IsPacket 0x0403 4 (omega arith)) header_accepts header_size accepted-IsPacket
      (refl, refl)
