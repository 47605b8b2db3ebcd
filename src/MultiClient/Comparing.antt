-- ===== src/MultiClient/Comparing.antt =====
-- What the comparing callback leaves, and the round of the server's thread that runs it.
use stdsc.Base.{
  ℕ, ◌≤◌, ◌≡◌, refl, sym, ap, ◌∙◌, true, some, ◌++◌, arith, get_elem?, inl, append_assoc, ◌==◌,
  if◌then◌else◌,
}
use stdsc.Base.Int.{pos, leb_ℤ}
use stdsc.Exec.{ok}
use stdsc.System.{System}
use stdsc.Packet.{Bytes, packet_size, to_bytes, new_packet, set_data_size}
use stdsc.Packet.Codec.{encode, length-encode}
use stdsc.Packet.Groups.{make_data_packet-ok, announced-IsPacket}
use stdsc.Socket.{Socket}
use stdsc.Socket.Connection.{IsConnection}
use stdsc.Socket.Exchange.{send_packet_lem, send_buffer_lem}
use stdsc.Callback.{View, nat_eq}
use stdsc.AddServer.State.{Object, state_id, received_result_request}
use stdsc.AddServer.Callbacks.{load, sum, send_result, compare_result, code_data_result}
use stdsc.AddServer.Rounds.{current_state-id, moved, pointing, pointing_lem, result_bytes}

abbrev pub compared : ℕ → ℕ → ℕ
compared x expected = if x == expected then 1 else 0

module _ {W : Type 0} (sys : System W) (s : Socket) {conn : W → Bytes → Bytes → Type 0}
    (law : IsConnection sys s conn) (rounds : packet_size ≤ sys.write_rounds) where
  send_result_lem :
      (bytes : Bytes) (x : ℕ) (v : View W Object) (i out : Bytes)
      → conn v.world i out
      → (w : W) × (send_result sys s x (pointing bytes v)
          ≡ (ok tt, moved received_result_request bytes (record v { world = w })))
        × conn w i (out ++ result_bytes sys s law rounds x)
  send_result_lem bytes x v i out c =
      let announced = set_data_size (new_packet code_data_result) 4 in
      let (w₁, sent, c₁) =
        send_packet_lem sys s law announced v.world i out rounds
          (announced-IsPacket code_data_result 4 (omega arith)) c in
      let (w₂, buffered, c₂) =
        send_buffer_lem sys s law (encode 4 x) w₁ i _ (omega (arith, length-encode 4 x)) c₁ in
      (
        w₂,
        rw (make_data_packet-ok (pointing bytes v) code_data_result 4 (inl refl))
            (rw sent (rw buffered refl)),
        rw (sym (append_assoc out (to_bytes announced) (encode 4 x))) c₂,
      )

  pub compare_result_lem :
      (buffer bytes : Bytes) (expected x : ℕ) (v : View W Object) (i out : Bytes) {o : Object}
      → get_elem? v.objects v.context.state ≡ some o
      → leb_ℤ (pos 3) (state_id o) ≡ true
      → load buffer 0 ≡ some expected
      → v.on_each ≡ some bytes
      → load bytes sum ≡ some x
      → conn v.world i out
      → (w : W) × (compare_result sys buffer s v
          ≡ (ok tt, moved received_result_request bytes (record v { world = w })))
        × conn w i (out ++ result_bytes sys s law rounds (compared x expected))
  unfolding compare_result
  compare_result_lem buffer bytes expected x v i out h l b e t c =
      let (w, run, c') = send_result_lem bytes (compared x expected) v i out c in
      (
        w,
        ap (compare_result sys buffer s) (pointing_lem bytes v e)
            ∙ rw (current_state-id v.context v.objects h) (rw l (rw b (rw t run))),
        c',
      )
