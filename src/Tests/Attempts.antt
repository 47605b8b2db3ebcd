-- ===== src/Tests/Attempts.antt =====
-- Runs of the loops that retry.
use stdsc.Base.{
  ℕ, ◌≡◌, refl, sym, ap, ◌∙◌, append-nil, [], ◌∷◌, ◌++◌, arith, false, inl, inr, if◌then◌else◌, ltb,
}
use stdsc.Exec.{throws, reject, socket}
use stdsc.System.{System, minus_one}
use stdsc.Packet.{Packet, to_bytes, make_packet}
use stdsc.Packet.ControlCode
use stdsc.Packet.Wire.{make_packet-IsPacket, control_code-make_packet}
use stdsc.Socket.Setup.{establish_connection}
use stdsc.Client.{send_request, send_request_blocking, connect, conn_timeout_sec}
use stdsc.Client.Retry.{calc_retry_count, is_reject}
use stdsc.Exec.Ending.{Ends}
use stdsc.Socket.Ending.{Responds}
use stdsc.Client.Ending.{blocking-Ends}
use stdsc.Client.{send_data_blocking, recv_data_blocking, send_recv_data_blocking}
use stdsc.Client.Exchange.{verdict, send_request_lem}
use stdsc.Client.Attempts.{none_yet, once_more, is_refused, send_request_blocking_lem, connect_lem}
use stdsc.Tests.{Wire, wire, loopback, sock, Here, loopback_lem}

responds : Responds loopback sock
responds = record {
  selects = record { answers = λ t w e. ground (arith, e) };
  recv_answers = λ n w e. ground (arith, e);
  send_answers = λ bytes w e. ground (arith, e);
  some_byte = λ b bs w e. ground (arith, e);
}

-- The system answers nothing that the client expects.
blocking-Ends_example :
    Ends (send_request_blocking loopback sock 0x1001 1000000 3)
    × Ends (send_data_blocking loopback sock 0x1001 (1 ∷ 2 ∷ []) 1000000 3)
    × Ends (recv_data_blocking loopback sock 0x1001 1000000 3)
    × Ends (send_recv_data_blocking loopback sock 0x1001 (1 ∷ 2 ∷ []) 1000000 3)
blocking-Ends_example =
    blocking-Ends loopback sock responds (omega arith) 0x1001 1000000 3 (omega arith) (1 ∷ 2 ∷ [])
      (omega arith)

abbrev reply : ℕ → Packet
reply code = make_packet code

-- a server that rejects once and then accepts
abbrev answers : Wire
answers = wire (to_bytes (reply ControlCode.reject) ++ to_bytes (reply ControlCode.accept))

first :
    (w' : Wire) × (send_request loopback sock 0x0201 answers
      ≡ (throws (reject "Rejected to send request. (0x102)"), w'))
    × Here w' (to_bytes (reply ControlCode.accept)) ([] ++ to_bytes (make_packet 0x0201))
first =
    let (w', e, h) =
      send_request_lem loopback sock loopback_lem (omega arith) 0x0201 (reply ControlCode.reject)
        answers (to_bytes (reply ControlCode.accept)) [] (omega arith)
        (make_packet-IsPacket ControlCode.reject (omega arith)) (refl, refl) in
    (
      w',
      e
          ∙ ap
              (λ (code : ℕ). (
                verdict "Rejected to send request. (0x102)" "Failed to send request. (0x103)" code,
                w',
              ))
              (control_code-make_packet ControlCode.reject),
      h,
    )

abbrev then_on : Wire
then_on = loopback.usleep 1000000 first.0

second : is_refused is_reject (send_request loopback sock 0x0201 then_on).0 ≡ false
second =
    let (w', e, h) =
      send_request_lem loopback sock loopback_lem (omega arith) 0x0201 (reply ControlCode.accept)
        then_on [] ([] ++ to_bytes (make_packet 0x0201)) (omega arith)
        (make_packet-IsPacket ControlCode.accept (omega arith))
        (rw (append-nil (to_bytes (reply ControlCode.accept))) first.2.0, first.2.1) in
    rw e (rw (control_code-make_packet ControlCode.accept) refl)

three_attempts : calc_retry_count 3 1000000 ≡ 3
unfolding calc_retry_count
three_attempts = refl

pub one_attempt : calc_retry_count 3 500 ≡ 1
unfolding calc_retry_count
one_attempt = refl

send_request_blocking_lem_example : send_request_blocking loopback sock 0x0201 1000000 3 answers ≡ (
    if ltb 1 (calc_retry_count 3 1000000)
    then send_request loopback sock 0x0201 then_on
    else (throws (socket "Sending request time out" 0), then_on))
send_request_blocking_lem_example =
    send_request_blocking_lem loopback sock 0x0201 1000000 3 1 answers then_on
      (once_more (reject "Rejected to send request. (0x102)") first.1 refl none_yet)
      (inr (omega (arith, three_attempts), second))

-- a system that has no sockets left
abbrev offline : System Wire
offline = record loopback { new_socket = λ w. (minus_one, w) }

unreachable :
    establish_connection offline "localhost" "8080" conn_timeout_sec (wire [])
    ≡ (throws (socket "Failed to create socket" 0), wire [])
unfolding establish_connection
unreachable = refl

connect_lem_example : connect offline minus_one "localhost" "8080" 500 3 (wire []) ≡ (
    if ltb 1 (calc_retry_count 3 500)
    then establish_connection offline "localhost" "8080" conn_timeout_sec
        (loopback.usleep 500 (wire []))
    else (throws (socket "Connection time out" 0), loopback.usleep 500 (wire [])))
connect_lem_example =
    connect_lem offline minus_one "localhost" "8080" 500 3 1 (wire [])
      (loopback.usleep 500 (wire []))
      (once_more (socket "Failed to create socket" 0) unreachable refl none_yet)
      (inl (sym one_attempt))
