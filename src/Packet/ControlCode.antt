-- ===== src/Packet/ControlCode.antt =====
-- stdsc/stdsc_packet.hpp: `ControlCode_t`, and the test of a code against a group.
use stdsc.Base.{ℕ, Bool, not, ◌==◌, bit_and}

abbrev pub nil : ℕ
nil = 0x0

abbrev pub accept : ℕ
accept = 0x0101

abbrev pub reject : ℕ
reject = 0x0102

abbrev pub failed : ℕ
failed = 0x0103

abbrev pub group_request : ℕ
group_request = 0x0200

abbrev pub group_data : ℕ
group_data = 0x0400

abbrev pub group_download : ℕ
group_download = 0x0800

abbrev pub group_up_download : ℕ
group_up_download = 0x1000

-- `code & group` in a condition
abbrev pub in_group : ℕ → ℕ → Bool
in_group code group = not (bit_and code group == 0)
