-- ===== src/Tests/Silent.antt =====
-- A request to a server that keeps the connection and sends nothing.
use stdsc.Base.{◌<◌, ◌≡◌, refl, none, some, [], ◌++◌, arith, ltb, length, if◌then◌else◌}
use stdsc.Exec.{running}
use stdsc.System.{System, nonneg}
use stdsc.Packet.{to_bytes, make_packet}
use stdsc.Socket.Connection.{IsConnection}
use stdsc.Client.{send_request_blocking}
use stdsc.Client.Retry.{calc_retry_count}
use stdsc.Client.Silent.{IsSilent, send_request_blocking-silent}
use stdsc.Tests.{Wire, wire, loopback, sock, Here, loopback_lem}

-- `select` waits for bytes to come
abbrev patient : System Wire
patient = record loopback {
  select_read = λ s timeout w. (if ltb 0 (length w.incoming) then some (nonneg 1) else none, w);
}

patient_lem : IsConnection patient sock Here
patient_lem = record {
  recv_some = loopback_lem.recv_some;
  send_some = loopback_lem.send_some;
  select_some = λ w i o c h. (0, w, rw (c.0) (ground (arith, h)), c);
}

patient-IsSilent : IsSilent patient sock Here
patient-IsSilent = record {
  connection = patient_lem;
  select_waits = λ w o c. (w, rw (c.0) refl, c);
}

attempts : 0 < calc_retry_count 3 1000000
unfolding calc_retry_count
attempts = omega arith

send_request_blocking-silent_example :
    (w' : Wire) × (send_request_blocking patient sock 0x0201 1000000 3 (wire []) ≡ (running, w'))
    × Here w' [] ([] ++ to_bytes (make_packet 0x0201))
send_request_blocking-silent_example =
    send_request_blocking-silent patient sock patient-IsSilent (omega arith) 0x0201 1000000 3
      (wire []) [] attempts (omega arith) (refl, refl)
