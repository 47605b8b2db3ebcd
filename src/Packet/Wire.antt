-- ===== src/Packet/Wire.antt =====
-- Packets on the wire: sizes, and the round trip through bytes.
use stdsc.Base.{
  ℕ, ◌^◌, ◌<◌, ◌≡◌, refl, ap, ◌∙◌, arith, length, drop, length-append, length-drop,
  length-replicate, take-append, drop-append,
}
use stdsc.Packet.{
  Packet, packet_size, packet_body_size, new_packet, initialize_packet, data_size, set_data_size,
  make_packet, to_bytes, of_bytes,
}
use stdsc.Packet.Codec.{encode, decode, length-encode, decode-encode}

-- A packet of the declared layout.
pub record IsPacket (p : Packet) : Type 0 where
  pub code_fits : p.control_code < 2 ^ 64
  pub body_fits : length p.body ≡ packet_body_size

pub length-to_bytes : (p : Packet) → IsPacket p → length (to_bytes p) ≡ packet_size
unfolding to_bytes
length-to_bytes p h =
    omega (arith, length-append (encode 8 p.control_code) p.body, length-encode 8 p.control_code, h)

pub of_bytes-to_bytes : (p : Packet) → IsPacket p → of_bytes (to_bytes p) ≡ p
unfolding of_bytes to_bytes
of_bytes-to_bytes p h =
    let code =
      take-append (encode 8 p.control_code) p.body 8
        (omega (arith, length-encode 8 p.control_code)) in
    let body =
      drop-append (encode 8 p.control_code) p.body 8
        (omega (arith, length-encode 8 p.control_code)) in
    λ i. record {
      control_code = (ap decode code ∙ decode-encode 8 p.control_code h.code_fits) i;
      body = body i;
    }

pub new_packet-IsPacket : (code : ℕ) → code < 2 ^ 64 → IsPacket (new_packet code)
unfolding new_packet
new_packet-IsPacket code h = record { code_fits = h; body_fits = length-replicate {A = ℕ} 1024 0 }

pub set_data_size-IsPacket : (p : Packet) (n : ℕ) → IsPacket p → IsPacket (set_data_size p n)
unfolding set_data_size
set_data_size-IsPacket p n h = record {
  code_fits = h.code_fits;
  body_fits = omega (
    arith,
    length-append (encode 8 n) (drop 8 p.body),
    length-encode 8 n,
    length-drop 8 p.body,
    h.body_fits,
  );
}

pub data_size-set_data_size : (p : Packet) (n : ℕ) → n < 2 ^ 64 → data_size (set_data_size p n) ≡ n
unfolding data_size set_data_size
data_size-set_data_size p n h =
    ap decode (take-append (encode 8 n) (drop 8 p.body) 8 (omega (arith, length-encode 8 n)))
    ∙ decode-encode 8 n h

pub make_packet-IsPacket : (code : ℕ) → code < 2 ^ 64 → IsPacket (make_packet code)
unfolding make_packet
make_packet-IsPacket code h =
    set_data_size-IsPacket (new_packet code) _ (new_packet-IsPacket code h)

pub control_code-new_packet :
    (code size : ℕ) → (set_data_size (new_packet code) size).control_code ≡ code
unfolding set_data_size new_packet
control_code-new_packet code size = refl

pub control_code-make_packet : (code : ℕ) → (make_packet code).control_code ≡ code
unfolding make_packet set_data_size new_packet
control_code-make_packet code = refl

pub initialize_packet-IsPacket : (p : Packet) → IsPacket (initialize_packet p)
unfolding initialize_packet
initialize_packet-IsPacket p = record {
  code_fits = omega arith;
  body_fits = length-replicate {A = ℕ} 1024 0;
}
