-- ===== src/AddServer/Rounds.antt =====
-- What each callback of the example server leaves, for a session in a given state.
use stdsc.Base.{
  ℕ, ◌+◌, ◌%◌, ◌^◌, ◌≤◌, ◌≡◌, refl, sym, ap, ◌∙◌, true, false, some, List, ◌++◌, arith, get_elem?,
  inl, append_assoc,
}
use stdsc.Base.Int.{pos, leb_ℤ}
use stdsc.Exec.{ok, throws, callback}
use stdsc.System.{System}
use stdsc.Packet.{Bytes, packet_size, to_bytes, new_packet, set_data_size}
use stdsc.Packet.Codec.{encode, length-encode}
use stdsc.Packet.Groups.{make_data_packet-ok, announced-IsPacket}
use stdsc.Socket.{Socket}
use stdsc.Socket.Connection.{IsConnection}
use stdsc.Socket.Exchange.{send_packet_lem, send_buffer_lem}
use stdsc.State.{StateContext, current_state}
use stdsc.State
use stdsc.Callback.{View}
use stdsc.AddServer.State.{
  Object, state_init, state_ready, state_computed, state_id, states, received_value_a,
  received_value_b, received_compute_request, received_result_request,
}
use stdsc.AddServer.Callbacks.{
  load, store, each_bytes, receive_value_a, receive_value_b, compute, download_result,
  code_data_result, value_a, value_b, sum,
}

pub current_state-id :
    (sc : StateContext) (objects : List Object) {o : Object}
    → get_elem? objects sc.state ≡ some o
    → current_state states sc objects ≡ state_id o
unfolding current_state
current_state-id sc objects h = rw (h, current_state) refl

-- every state of the server is one in which values are received
first_id : (o : Object) → leb_ℤ (pos 1) (state_id o) ≡ true
first_id (state_init a b) = refl
first_id state_ready = refl
first_id state_computed = refl

module _ {W : Type 0} where
  -- the view after an event and a write to the connection's data
  abbrev pub moved : ℕ → Bytes → View W Object → View W Object
  moved event bytes v = record v {
    context = (State.set states event v.context v.objects).0;
    objects = (State.set states event v.context v.objects).1;
    on_each = some bytes;
  }

  pub receive_value_a_lem :
      (buffer bytes bytes' : Bytes) (x : ℕ) (v : View W Object) {o : Object}
      → get_elem? v.objects v.context.state ≡ some o
      → load buffer 0 ≡ some x
      → v.on_each ≡ some bytes
      → store bytes value_a x ≡ some bytes'
      → receive_value_a buffer v ≡ (ok tt, moved received_value_a bytes' v)
  unfolding receive_value_a
  receive_value_a_lem buffer bytes bytes' x v {o} h l e t =
      rw (current_state-id v.context v.objects h)
        (rw (first_id o) (rw l (rw (e, each_bytes) (rw t refl))))

  pub receive_value_b_lem :
      (buffer bytes bytes' : Bytes) (x : ℕ) (v : View W Object) {o : Object}
      → get_elem? v.objects v.context.state ≡ some o
      → load buffer 0 ≡ some x
      → v.on_each ≡ some bytes
      → store bytes value_b x ≡ some bytes'
      → receive_value_b buffer v ≡ (ok tt, moved received_value_b bytes' v)
  unfolding receive_value_b
  receive_value_b_lem buffer bytes bytes' x v {o} h l e t =
      rw (current_state-id v.context v.objects h)
        (rw (first_id o) (rw l (rw (e, each_bytes) (rw t refl))))

  -- a view whose pointer leads to these bytes
  abbrev pub pointing : Bytes → View W Object → View W Object
  pointing bytes v = record v { on_each = some bytes }

  pub pointing_lem :
      (bytes : Bytes) (v : View W Object) → v.on_each ≡ some bytes → v ≡ pointing bytes v
  pointing_lem bytes v e = λ i. record v { on_each = e i }

  compute-pointing :
      (bytes bytes' : Bytes) (a b : ℕ) (v : View W Object) {o : Object}
      → get_elem? v.objects v.context.state ≡ some o
      → leb_ℤ (pos 2) (state_id o) ≡ true
      → load bytes value_a ≡ some a
      → load bytes value_b ≡ some b
      → store bytes sum ((a + b) % 2 ^ 32) ≡ some bytes'
      → compute (pointing bytes v) ≡ (ok tt, moved received_compute_request bytes' v)
  unfolding compute
  compute-pointing bytes bytes' a b v {o} h i la lb t =
      rw (current_state-id v.context v.objects h) (rw i (rw la (rw lb (rw t refl))))

  pub compute_lem :
      (bytes bytes' : Bytes) (a b : ℕ) (v : View W Object) {o : Object}
      → get_elem? v.objects v.context.state ≡ some o
      → leb_ℤ (pos 2) (state_id o) ≡ true
      → v.on_each ≡ some bytes
      → load bytes value_a ≡ some a
      → load bytes value_b ≡ some b
      → store bytes sum ((a + b) % 2 ^ 32) ≡ some bytes'
      → compute v ≡ (ok tt, moved received_compute_request bytes' v)
  compute_lem bytes bytes' a b v h i e la lb t =
      ap compute (pointing_lem bytes v e) ∙ compute-pointing bytes bytes' a b v h i la lb t

  -- A computation before both values are there is refused, and changes nothing.
  pub compute_early :
      (v : View W Object) {o : Object}
      → get_elem? v.objects v.context.state ≡ some o
      → leb_ℤ (pos 2) (state_id o) ≡ false
      → compute v ≡ (throws (callback "Warn: must be connected state to receive valueB."), v)
  unfolding compute
  compute_early v {o} h i = rw (current_state-id v.context v.objects h) (rw i refl)

module _ {W : Type 0} (sys : System W) (s : Socket) {conn : W → Bytes → Bytes → Type 0}
    (law : IsConnection sys s conn) (rounds : packet_size ≤ sys.write_rounds) where
  -- what the answer with the result consists of, before the acknowledgement
  abbrev pub result_bytes : ℕ → Bytes
  result_bytes x = to_bytes (set_data_size (new_packet code_data_result) 4) ++ encode 4 x

  download_pointing :
      (bytes : Bytes) (x : ℕ) (v : View W Object) (i out : Bytes) {o : Object}
      → get_elem? v.objects v.context.state ≡ some o
      → leb_ℤ (pos 3) (state_id o) ≡ true
      → load bytes sum ≡ some x
      → conn v.world i out
      → (w : W) × (download_result sys s (pointing bytes v)
          ≡ (ok tt, moved received_result_request bytes (record v { world = w })))
        × conn w i (out ++ result_bytes x)
  unfolding download_result
  download_pointing bytes x v i out {o} h l t c =
      let announced = set_data_size (new_packet code_data_result) 4 in
      let (w₁, sent, c₁) =
        send_packet_lem sys s law announced v.world i out rounds
          (announced-IsPacket code_data_result 4 (omega arith)) c in
      let (w₂, buffered, c₂) =
        send_buffer_lem sys s law (encode 4 x) w₁ i _ (omega (arith, length-encode 4 x)) c₁ in
      (
        w₂,
        rw (current_state-id v.context v.objects h) (
            rw l (
              rw t (
                rw (make_data_packet-ok (pointing bytes v) code_data_result 4 (inl refl))
                  (rw sent (rw buffered refl))))),
        rw (sym (append_assoc out (to_bytes announced) (encode 4 x))) c₂,
      )

  pub download_result_lem :
      (bytes : Bytes) (x : ℕ) (v : View W Object) (i out : Bytes) {o : Object}
      → get_elem? v.objects v.context.state ≡ some o
      → leb_ℤ (pos 3) (state_id o) ≡ true
      → v.on_each ≡ some bytes
      → load bytes sum ≡ some x
      → conn v.world i out
      → (w : W) × (download_result sys s v
          ≡ (ok tt, moved received_result_request bytes (record v { world = w })))
        × conn w i (out ++ result_bytes x)
  download_result_lem bytes x v i out h l e t c =
      let (w, run, c') = download_pointing bytes x v i out h l t c in
      (w, ap (download_result sys s) (pointing_lem bytes v e) ∙ run, c')
