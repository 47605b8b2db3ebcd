-- ===== src/Tests/Transfer.antt =====
-- Runs of the transfer loops and of the packets.
use stdsc.Base.{◌≡◌, refl, [], ◌∷◌, ◌++◌, arith, take, drop, length, inl}
use stdsc.Exec.{ok}
use stdsc.Packet.{
  Bytes, Packet, packet_size, to_bytes, of_bytes, new_packet, make_packet, set_data_size, data_size,
}
use stdsc.Packet.ControlCode
use stdsc.Packet.Wire.{make_packet-IsPacket}
use stdsc.Packet.Groups.{make_data_packet-ok, make_data_packet-to_bytes}
use stdsc.Socket.{read, write, recv_packet, time_infinite}
use stdsc.Socket.Connection.{read_lem, write_lem}
use stdsc.Socket.Exchange.{recv_packet_lem}
use stdsc.Tests.{Wire, wire, loopback, sock, Here, loopback_lem}

abbrev five : Bytes
five = 1 ∷ 2 ∷ 3 ∷ 4 ∷ 5 ∷ []

read_lem_example :
    (w' : Wire) × (read loopback sock 3 (wire five) ≡ (ok tt, take 3 five, w'))
    × Here w' (drop 3 five) []
read_lem_example =
    read_lem loopback sock loopback_lem 3 (wire five) five [] (omega arith) (refl, refl)

write_lem_example :
    (w' : Wire) × (write loopback sock five (wire []) ≡ (ok tt, w')) × Here w' [] ([] ++ five)
write_lem_example =
    write_lem loopback sock loopback_lem five (wire []) [] [] (omega arith) (refl, refl)

abbrev ack : Packet
ack = make_packet ControlCode.accept

recv_packet_lem_example :
    (w' : Wire) × (recv_packet loopback sock
        (new_packet 0)
        time_infinite
        (wire (to_bytes ack ++ five))
      ≡ (ok ack, w'))
    × Here w' five []
recv_packet_lem_example =
    recv_packet_lem loopback sock loopback_lem ack (new_packet 0) (wire (to_bytes ack ++ five)) five
      [] (make_packet-IsPacket ControlCode.accept (omega arith)) (refl, refl)

make_data_packet-to_bytes_example :
    let p = set_data_size (new_packet 0x0401) 4 in
    (length (to_bytes p) ≡ packet_size)
    × (of_bytes (to_bytes p) ≡ p)
    × (p.control_code ≡ 0x0401)
    × (data_size p ≡ 4)
make_data_packet-to_bytes_example =
    make_data_packet-to_bytes tt 0x0401 4 (omega arith) (omega arith)
      (make_data_packet-ok tt 0x0401 4 (inl (omega arith)))
