-- ===== src/Packet.antt =====
-- stdsc/stdsc_packet.hpp and stdsc_packet.cpp: packets, the reserved control codes and the packet
-- makers. The union `Body` is its bytes; its members are read and written at offset 0, in the byte
-- order of the platform that the README names (x86-64, little-endian).
pub mod ControlCode
pub mod Codec
pub mod Wire
pub mod Groups
use stdsc.Base.{ℕ, ◌+◌, ◌%◌, ◌^◌, ◌||◌, List, ◌++◌, take, drop, replicate}
use stdsc.Exec.{invariant, Exec, ◌>>◌, pure, check}
use Codec.{encode, decode}
use ControlCode.{in_group}
use ControlCode

abbrev pub Bytes : Type 0
Bytes = List ℕ

abbrev pub packet_body_size : ℕ
packet_body_size = 1024

-- sizeof(Packet)
abbrev pub packet_size : ℕ
packet_size = 1032

pub record Packet : Type 0 where
  pub control_code : ℕ
  pub body : Bytes

-- Packet::Packet(uint64_t)
unfoldable pub new_packet : ℕ → Packet
new_packet code = record { control_code = code; body = replicate packet_body_size 0 }

-- the `padding` filled by 0, and the code reset; nothing of the old packet is left
pub initialize_packet : Packet → Packet
initialize_packet p = record { control_code = ControlCode.nil; body = replicate packet_body_size 0 }

-- u_body.data.size, u_body.enum_field.val
unfoldable pub data_size : Packet → ℕ
data_size p = decode (take 8 p.body)

-- a write of that member
unfoldable pub set_data_size : Packet → ℕ → Packet
set_data_size p n = record p { body = encode 8 n ++ drop 8 p.body }

pub make_enum_field_packet : ℕ → ℕ → Packet
make_enum_field_packet code val = set_data_size (new_packet code) (val % 2 ^ 64)

unfoldable pub make_packet : ℕ → Packet
unfolding make_enum_field_packet
make_packet code = make_enum_field_packet code 0

unfoldable pub make_data_packet : {S : Type 0} → ℕ → ℕ → Exec S Packet
make_data_packet code size =
    check (in_group code ControlCode.group_data || in_group code ControlCode.group_up_download)
      (invariant "invalid control code")
    >> pure (set_data_size (new_packet code) size)

-- The object representation, as `send_packet` passes it to the socket and `recv_packet` fills it.
unfoldable pub to_bytes : Packet → Bytes
to_bytes p = encode 8 p.control_code ++ p.body

unfoldable pub of_bytes : Bytes → Packet
of_bytes bs = record { control_code = decode (take 8 bs); body = drop 8 bs }
