-- ===== src/Tests/Sleeping.antt =====
-- A clock for a system that counts what it has slept.
use stdsc.Base.{ℕ, refl, [], ◌∷◌}
use stdsc.Packet.{to_bytes, make_packet}
use stdsc.Packet.ControlCode
use stdsc.Client.{
  send_request_blocking, send_data_blocking, recv_data_blocking, send_recv_data_blocking,
}
use stdsc.Client.Sleeping.{Clock, SoonAfter, blocking-SoonAfter}
use stdsc.Tests.{Wire, wire, loopback, sock}

abbrev slept : Wire → ℕ
slept w = w.slept

clock : Clock loopback sock slept
clock = record {
  asleep = λ n w. refl;
  awake = λ n. record {
    after_recv = λ m w p. p;
    after_send = λ b w p. p;
    after_select_read = λ t w p. p;
  };
}

-- a server that rejects what it is asked, with an interval that is nearly two seconds
abbrev rejecting : Wire
rejecting = wire (to_bytes (make_packet ControlCode.reject))

blocking-SoonAfter_example :
    SoonAfter 3 0 (send_request_blocking loopback sock 0x1001 1999999 3 rejecting).1.slept
    × SoonAfter 3 0 (send_data_blocking loopback sock 0x1001 (1 ∷ []) 1999999 3 rejecting).1.slept
    × SoonAfter 3 0 (recv_data_blocking loopback sock 0x1001 1999999 3 ([], rejecting)).1.1.slept
    × SoonAfter 3 0
        (send_recv_data_blocking loopback sock 0x1001 (1 ∷ []) 1999999 3 ([], rejecting)).1.1.slept
blocking-SoonAfter_example =
    blocking-SoonAfter loopback sock slept clock 0x1001 1999999 3 (1 ∷ []) rejecting ([], rejecting)
