-- ===== src/Packet/Groups.antt =====
-- Which packets `make_data_packet` accepts, by the binary digits of the code.
use stdsc.Base.{
  ℕ, ◌*◌, ◌/◌, ◌%◌, ◌^◌, ◌<◌, ◌≡◌, ap, ◌∙◌, true, ◌||◌, ◌⊎◌, subst, if◌then◌else◌, length, arith,
  ◌==◌,
}
use stdsc.Base.Bits.{bit_and-one, bit_and-double}
use stdsc.Exec.{ok, throws, invariant}
use stdsc.Packet.Wire.{
  IsPacket, length-to_bytes, of_bytes-to_bytes, set_data_size-IsPacket, new_packet-IsPacket,
  data_size-set_data_size, control_code-new_packet,
}
use stdsc.Packet.{
  Packet, packet_size, to_bytes, of_bytes, make_data_packet, new_packet, set_data_size, data_size,
}
use stdsc.Packet.ControlCode.{
  in_group, group_request, group_data, group_download, group_up_download,
}

in_group-double : (a b : ℕ) → in_group a (b * 2) ≡ in_group (a / 2) b
in_group-double a b = ground (arith, bit_and-double a b)

in_group-one : (a : ℕ) → in_group a 1 ≡ (a % 2 == 1)
in_group-one a = ground (arith, bit_and-one a)

-- Six digits at a time.
in_group_up : (a b : ℕ) → in_group a (b * 32) ≡ in_group (a / 32) b
in_group_up a b =
    ap (in_group a) {x = b * 32} {y = b * 2 * 2 * 2 * 2 * 2} (omega arith)
    ∙ in_group-double a (b * 2 * 2 * 2 * 2)
    ∙ in_group-double (a / 2) (b * 2 * 2 * 2)
    ∙ in_group-double (a / 2 / 2) (b * 2 * 2)
    ∙ in_group-double (a / 2 / 2 / 2) (b * 2)
    ∙ in_group-double (a / 2 / 2 / 2 / 2) b
    ∙ ap (λ x. in_group x b) {x = a / 2 / 2 / 2 / 2 / 2} {y = a / 32} (omega arith)

-- A group is one binary digit of the code.
pub in_group_request : (code : ℕ) → in_group code group_request ≡ (code / 512 % 2 == 1)
in_group_request code =
    in_group_up code 16
    ∙ in_group-double (code / 32) 8
    ∙ in_group-double (code / 32 / 2) 4
    ∙ in_group-double (code / 32 / 2 / 2) 2
    ∙ in_group-double (code / 32 / 2 / 2 / 2) 1
    ∙ in_group-one (code / 32 / 2 / 2 / 2 / 2)
    ∙ ap (λ x. x % 2 == 1) {x = code / 32 / 2 / 2 / 2 / 2} {y = code / 512} (omega arith)

pub in_group_download : (code : ℕ) → in_group code group_download ≡ (code / 2048 % 2 == 1)
in_group_download code =
    in_group_up code 64
    ∙ in_group_up (code / 32) 2
    ∙ in_group-double (code / 32 / 32) 1
    ∙ in_group-one (code / 32 / 32 / 2)
    ∙ ap (λ x. x % 2 == 1) {x = code / 32 / 32 / 2} {y = code / 2048} (omega arith)

pub in_group_data : (code : ℕ) → in_group code group_data ≡ (code / 1024 % 2 == 1)
in_group_data code =
    in_group_up code 32
    ∙ in_group_up (code / 32) 1
    ∙ in_group-one (code / 32 / 32)
    ∙ ap (λ x. x % 2 == 1) {x = code / 32 / 32} {y = code / 1024} (omega arith)

pub in_group_up_download : (code : ℕ) → in_group code group_up_download ≡ (code / 4096 % 2 == 1)
in_group_up_download code =
    in_group_up code 128
    ∙ in_group_up (code / 32) 4
    ∙ in_group-double (code / 32 / 32) 2
    ∙ in_group-double (code / 32 / 32 / 2) 1
    ∙ in_group-one (code / 32 / 32 / 2 / 2)
    ∙ ap (λ x. x % 2 == 1) {x = code / 32 / 32 / 2 / 2} {y = code / 4096} (omega arith)

-- The codes that a data packet may have.
abbrev pub CarriesData : ℕ → Type 0
CarriesData code = (code / 1024 % 2 ≡ 1) ⊎ (code / 4096 % 2 ≡ 1)

pub in_group-CarriesData :
    (code : ℕ)
    → CarriesData code
    → (in_group code group_data || in_group code group_up_download) ≡ true
in_group-CarriesData code h = rw (in_group_data code, in_group_up_download code) (ground arith)

pub announced-IsPacket :
    (code size : ℕ) → code < 2 ^ 64 → IsPacket (set_data_size (new_packet code) size)
announced-IsPacket code size h =
    set_data_size-IsPacket (new_packet code) size (new_packet-IsPacket code h)

pub make_data_packet-ok :
    {S : Type 0} (s : S) (code size : ℕ)
    → CarriesData code
    → make_data_packet code size s ≡ (ok (set_data_size (new_packet code) size), s)
unfolding make_data_packet
make_data_packet-ok s code size h = rw (in_group-CarriesData code h)

-- `make_data_packet` accepts exactly the codes whose binary digit 10 or 12 is set, and refuses the
-- others by the invariant exception.
pub make_data_packet_lem :
    {S : Type 0} (s : S) (code size : ℕ)
    → make_data_packet code size s ≡ (
        if (code / 1024 % 2 == 1) || (code / 4096 % 2 == 1)
        then (ok (set_data_size (new_packet code) size), s)
        else (throws (invariant "invalid control code"), s))
unfolding make_data_packet
make_data_packet_lem s code size = rw (in_group_data code, in_group_up_download code) (ground arith)

-- A data packet that was made for a 64-bit code and size takes 1032 bytes, comes back from these
-- bytes unchanged, and holds the code and the size.
pub make_data_packet-to_bytes :
    {S : Type 0} (s : S) (code size : ℕ) {p : Packet}
    → code < 2 ^ 64
    → size < 2 ^ 64
    → make_data_packet code size s ≡ (ok p, s)
    → (length (to_bytes p) ≡ packet_size)
      × (of_bytes (to_bytes p) ≡ p)
      × (p.control_code ≡ code)
      × (data_size p ≡ size)
make_data_packet-to_bytes s code size {p} hc hs h = subst Holds made (
  length-to_bytes _ (announced-IsPacket code size hc),
  of_bytes-to_bytes _ (announced-IsPacket code size hc),
  control_code-new_packet code size,
  data_size-set_data_size (new_packet code) size hs,
)
  where
    Holds : Packet → Type 0
    Holds q =
        (length (to_bytes q) ≡ packet_size)
        × (of_bytes (to_bytes q) ≡ q)
        × (q.control_code ≡ code)
        × (data_size q ≡ size)

    made : set_data_size (new_packet code) size ≡ p
    made = ground (arith, make_data_packet_lem s code size)
