-- ===== src/Client/Exchange.antt =====
-- The exchanges of a client over a connection: what goes out, and what the replies come to.
use stdsc.Base.{
  ℕ, ◌-◌, ◌^◌, ◌≤◌, ◌<◌, ◌≡◌, refl, sym, [], ◌∷◌, ◌++◌, arith, length, ◌==◌, replicate, length-take,
  length-append, length-replicate, false, ltb, if◌then◌else◌, Bool-cases, inl, inr, String, lt→ltb,
}
use stdsc.Exec.{reject, failure, Result, ok, throws, ◌>>◌}
use stdsc.System.{System}
use stdsc.Packet.{
  Bytes, Packet, packet_size, to_bytes, new_packet, make_packet, set_data_size, data_size,
}
use stdsc.Packet.ControlCode
use stdsc.Packet.Wire.{IsPacket, make_packet-IsPacket}
use stdsc.Packet.Groups.{CarriesData, make_data_packet-ok, announced-IsPacket}
use stdsc.Socket.{Socket}
use stdsc.Socket.Connection.{IsConnection}
use stdsc.Socket.Exchange.{send_packet_lem, recv_packet_lem, send_buffer_lem, recv_buffer_lem}
use stdsc.Client.{
  Filling, fill_from, resize, check_reject, check_failed, drop_socket_exception, send_request,
  send_request_impl, send_data, send_data_impl, recv_data, recv_data_impl, send_recv_data,
  send_recv_data_impl, recv_reply,
}

-- What an exchange comes to when its acknowledgement has this code.
abbrev pub verdict : String → String → ℕ → Result (Unit {0})
verdict rejected failed code =
    if code == ControlCode.reject
    then throws (reject rejected)
    else if code == ControlCode.failed
    then throws (failure failed)
    else ok tt

pub check_verdict :
    {S : Type 0} (rejected failed : String) (ack : Packet) (s : S)
    → drop_socket_exception ((check_reject rejected ack >> check_failed failed ack) s)
      ≡ (verdict rejected failed ack.control_code, s)
unfolding drop_socket_exception
check_verdict rejected failed ack s = elim (Bool-cases (ack.control_code == ControlCode.reject)) [
  | inl e ↦ rw e refl
  | inr n ↦ rw n (elim (Bool-cases (ack.control_code == ControlCode.failed)) [
    | inl e ↦ rw e refl
    | inr m ↦ rw m refl
  ])
]

length-resize : (n : ℕ) (buffer : Bytes) → length (resize n buffer) ≡ n
length-resize n buffer = omega (
  arith,
  length-take n (buffer ++ replicate (n - length buffer) 0),
  length-append buffer (replicate (n - length buffer) 0),
  length-replicate {A = ℕ} (n - length buffer) 0,
)

-- What a buffer holds after a reply: no data leaves it as it was.
abbrev pub filled : Bytes → Bytes → Bytes
filled bytes buffer = if ltb 0 (length bytes) then bytes else buffer

module _ {W : Type 0} (sys : System W) (s : Socket) {conn : W → Bytes → Bytes → Type 0}
    (law : IsConnection sys s conn) (rounds : packet_size ≤ sys.write_rounds) where
  -- Over a connection that does not fail (IsConnection), with enough rounds of `send` for a packet:
  -- a request with a 64-bit code goes out as one packet, and the acknowledgement that comes next
  -- decides the result: the reject exception, the failure exception or success.
  pub send_request_lem :
      (code : ℕ) (ack : Packet) (w : W) (i o : Bytes)
      → code < 2 ^ 64
      → IsPacket ack
      → conn w (to_bytes ack ++ i) o
      → (w' : W) × (send_request sys s code w ≡ (
        verdict "Rejected to send request. (0x102)" "Failed to send request. (0x103)"
            ack.control_code,
        w',
      ))
        × conn w' i (o ++ to_bytes (make_packet code))
  unfolding send_request send_request_impl
  send_request_lem code ack w i o h a c =
      let (w₁, sent, c₁) =
        send_packet_lem sys s law (make_packet code) w (to_bytes ack ++ i) o rounds
          (make_packet-IsPacket code h) c in
      let (w₂, got, c₂) = recv_packet_lem sys s law ack (new_packet 0) w₁ i _ a c₁ in
      (w₂, rw sent (rw got (check_verdict _ _ ack w₂)), c₂)

  -- Over a connection that does not fail (IsConnection), with enough rounds of `send` for a packet
  -- and for the buffer: data under a 64-bit code of the Data or UpDownload group goes out as a
  -- packet with its size and then the bytes. The acknowledgement that comes next decides the result:
  -- the reject exception for Reject, the failure exception for Failed, success for every other code.
  pub send_data_lem :
      (code : ℕ) (buffer : Bytes) (ack : Packet) (w : W) (i o : Bytes)
      → code < 2 ^ 64
      → CarriesData code
      → length buffer < 2 ^ 64
      → length buffer ≤ sys.write_rounds
      → IsPacket ack
      → conn w (to_bytes ack ++ i) o
      → (w' : W) × (send_data sys s code buffer w ≡ (
        verdict "Rejected to send data. (0x102)" "Failed to send data. (0x103)" ack.control_code,
        w',
      ))
        × conn w' i (o ++ to_bytes (set_data_size (new_packet code) (length buffer)) ++ buffer)
  unfolding send_data send_data_impl
  send_data_lem code buffer ack w i o h g l r a c =
      let announced = set_data_size (new_packet code) (length buffer) in
      let (w₁, sent, c₁) =
        send_packet_lem sys s law announced w (to_bytes ack ++ i) o rounds
          (announced-IsPacket code (length buffer) h) c in
      let (w₂, buffered, c₂) = send_buffer_lem sys s law buffer w₁ (to_bytes ack ++ i) _ r c₁ in
      let (w₃, got, c₃) = recv_packet_lem sys s law ack (new_packet 0) w₂ i _ a c₂ in
      (
        w₃,
        rw (make_data_packet-ok w code (length buffer) g)
            (rw sent (rw buffered (rw got (check_verdict _ _ ack w₃)))),
        c₃,
      )

  fill_from_lem :
      (p : Packet) (bytes buffer : Bytes) (w : W) (i o : Bytes)
      → data_size p ≡ length bytes
      → conn w (bytes ++ i) o
      → (w' : W) × (fill_from sys s p (buffer, w) ≡ (ok tt, (filled bytes buffer, w')))
        × conn w' i o
  fill_from_lem p [] buffer w i o e c = (w, rw e refl, c)
  fill_from_lem p (b ∷ bs) buffer w i o e c =
      let (w', got, c') =
        recv_buffer_lem sys s law (b ∷ bs) (resize (length (b ∷ bs)) buffer) w i o
          (sym (length-resize (length (b ∷ bs)) buffer)) c in
      (w', rw e (rw (lt→ltb 0 (length (b ∷ bs)) (omega arith)) (rw got refl)), c')

  pub recv_reply_lem :
      (p ack : Packet) (bytes buffer : Bytes) (w : W) (i o : Bytes)
      → IsPacket p
      → (p.control_code == ControlCode.reject) ≡ false
      → data_size p ≡ length bytes
      → IsPacket ack
      → conn w (to_bytes p ++ (bytes ++ (to_bytes ack ++ i))) o
      → (w' : W) × (drop_socket_exception (recv_reply sys s (buffer, w)) ≡ (
        verdict "Rejected to recv data. (0x102)" "Failed to recv data. (0x103)" ack.control_code,
        (filled bytes buffer, w'),
      ))
        × conn w' i o
  unfolding recv_reply
  recv_reply_lem p ack bytes buffer w i o hp n e a c =
      let (w₁, header, c₁) =
        recv_packet_lem sys s law p (new_packet 0) w (bytes ++ (to_bytes ack ++ i)) o hp c in
      let (w₂, data', c₂) = fill_from_lem p bytes buffer w₁ (to_bytes ack ++ i) o e c₁ in
      let (w₃, got, c₃) = recv_packet_lem sys s law ack (new_packet 0) w₂ i o a c₂ in
      (
        w₃,
        rw header (rw n (rw data' (rw got (check_verdict _ _ ack (filled bytes buffer, w₃))))),
        c₃,
      )

  -- Over a connection that does not fail (IsConnection), with enough rounds of `send` for a packet:
  -- a download sends its request packet and takes the reply whole, which is a header that is no
  -- rejection, as many bytes as the header announces, and an acknowledgement. The buffer holds these
  -- bytes afterwards, or what it held before where there are none, and the acknowledgement decides
  -- the result.
  pub recv_data_lem :
      (code : ℕ) (p ack : Packet) (bytes buffer : Bytes) (w : W) (i o : Bytes)
      → code < 2 ^ 64
      → IsPacket p
      → (p.control_code == ControlCode.reject) ≡ false
      → data_size p ≡ length bytes
      → IsPacket ack
      → conn w (to_bytes p ++ (bytes ++ (to_bytes ack ++ i))) o
      → (w' : W) × (recv_data sys s code (buffer, w) ≡ (
        verdict "Rejected to recv data. (0x102)" "Failed to recv data. (0x103)" ack.control_code,
        (filled bytes buffer, w'),
      ))
        × conn w' i (o ++ to_bytes (make_packet code))
  unfolding recv_data recv_data_impl
  recv_data_lem code p ack bytes buffer w i o h hp n e a c =
      let (w₁, sent, c₁) =
        send_packet_lem sys s law (make_packet code) w _ o rounds (make_packet-IsPacket code h) c in
      let (w₂, rest, c₂) = recv_reply_lem p ack bytes buffer w₁ i _ hp n e a c₁ in
      (w₂, rw sent rest, c₂)

  -- Over a connection that does not fail (IsConnection), with enough rounds of `send` for a packet
  -- and for the data: under a 64-bit code of the Data or UpDownload group, the packet with the size
  -- and the data go out, and the reply is taken whole: a header that is no rejection, the bytes that
  -- it announces and an acknowledgement. The buffer holds these bytes, or what it held before where
  -- there are none, and the acknowledgement decides the result.
  pub send_recv_data_lem :
      (code : ℕ) (sbuffer : Bytes) (p ack : Packet) (bytes buffer : Bytes) (w : W) (i o : Bytes)
      → code < 2 ^ 64
      → CarriesData code
      → length sbuffer < 2 ^ 64
      → length sbuffer ≤ sys.write_rounds
      → IsPacket p
      → (p.control_code == ControlCode.reject) ≡ false
      → data_size p ≡ length bytes
      → IsPacket ack
      → conn w (to_bytes p ++ (bytes ++ (to_bytes ack ++ i))) o
      → (w' : W) × (send_recv_data sys s code sbuffer (buffer, w) ≡ (
        verdict "Rejected to recv data. (0x102)" "Failed to recv data. (0x103)" ack.control_code,
        (filled bytes buffer, w'),
      ))
        × conn w' i (o ++ to_bytes (set_data_size (new_packet code) (length sbuffer)) ++ sbuffer)
  unfolding send_recv_data send_recv_data_impl
  send_recv_data_lem code sbuffer p ack bytes buffer w i o h g l r hp n e a c =
      let announced = set_data_size (new_packet code) (length sbuffer) in
      let (w₁, sent, c₁) =
        send_packet_lem sys s law announced w _ o rounds
          (announced-IsPacket code (length sbuffer) h) c in
      let (w₂, buffered, c₂) = send_buffer_lem sys s law sbuffer w₁ _ _ r c₁ in
      let (w₃, rest, c₃) = recv_reply_lem p ack bytes buffer w₂ i _ hp n e a c₂ in
      (
        w₃,
        rw (make_data_packet-ok {S = Filling sys} (buffer, w) code (length sbuffer) g)
            (rw sent (rw buffered rest)),
        c₃,
      )
