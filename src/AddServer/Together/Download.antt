-- ===== src/AddServer/Together/Download.antt =====
-- The download of the sum, by the client from the server's thread.
use stdsc.Base.{
  List, ℕ, ◌<◌, ◌≡◌, refl, sym, ap, subst, ◌∙◌, [], ◌++◌, append-nil, arith, length, length-append,
  inr, some, lt→ltb,
}
use stdsc.Exec.{ok, Result}
use stdsc.System.{System}
use stdsc.Packet.{Bytes, to_bytes, new_packet, set_data_size, make_packet}
use stdsc.Packet.Codec.{encode, length-encode}
use stdsc.Packet.ControlCode
use stdsc.Packet.Wire.{
  make_packet-IsPacket, control_code-new_packet, data_size-set_data_size, length-to_bytes,
}
use stdsc.Packet.Groups.{announced-IsPacket}
use stdsc.Socket.{Socket, time_infinite, send_packet, recv_packet}
use stdsc.Socket.Exchange.{send_packet_lem}
use stdsc.Client.{drop_socket_exception, recv_data, recv_data_impl, recv_reply, recv_data_blocking}
use stdsc.Client.Retry.{calc_retry_count}
use stdsc.Client.Exchange.{filled, recv_reply_lem}
use stdsc.Client.Attempts.{none_yet}
use stdsc.Client.Blocking.{recv_data_blocking_lem}
use stdsc.Callback.{View, CallbackFunction}
use stdsc.AddServer.State.{Object, state_computed, received_result_request}
use stdsc.AddServer.Sharing.{follow}
use stdsc.AddServer.Callbacks.{load, sum, code_download_result, code_data_result}
use stdsc.AddServer.Client.{retry_interval_usec}
use stdsc.AddServer.Rounds.{download_result_lem}
use stdsc.AddServer.Protocol.{accept_message, number_message}
use stdsc.AddServer.Protocol.Serving.{At, known_result}
use stdsc.AddServer.Protocol.Loop.{download_round}
use stdsc.AddServer.Protocol.ClientSide.{attempts_left, accepting, one_reply}
use stdsc.AddServer.Together.{Pipe, server_end, server_socket, Both, client_end, client_socket}
use stdsc.AddServer.Together.Ends.{
  server_end-IsConnection, AtClient, client_end-IsConnection, recv_packet-serve_packet,
}
use stdsc.AddServer.Together.Exchanges.{functions, rounds, Idle, sent-At}

module _ {W : Type 0} (sys : System W) (s : Socket) where
  pub recv_reply-from :
      (buffer : Bytes) (w v : W)
      → recv_packet sys s (new_packet 0) time_infinite w
        ≡ recv_packet sys s (new_packet 0) time_infinite v
      → recv_reply sys s (buffer, w) ≡ recv_reply sys s (buffer, v)
  unfolding recv_reply
  recv_reply-from buffer w v e = rw e refl

  recv_data-from :
      (code : ℕ) (buffer : Bytes) (w w₁ v : W)
      → send_packet sys s (make_packet code) w ≡ (ok tt, w₁)
      → recv_packet sys s (new_packet 0) time_infinite w₁
        ≡ recv_packet sys s (new_packet 0) time_infinite v
      → recv_data sys s code (buffer, w) ≡ drop_socket_exception (recv_reply sys s (buffer, v))
  unfolding recv_data recv_data_impl
  recv_data-from code buffer w w₁ v sent e =
      rw sent (ap drop_socket_exception (recv_reply-from buffer w₁ v e))

-- The server has sent a number and its acknowledgement, and the client takes both.
pub taken_reply :
    (table : List (ℕ × CallbackFunction (View Pipe Object))) (x : ℕ) (bytes : Bytes) (ses : Both)
    → ses.world ≡ ([], number_message code_data_result x ++ accept_message)
    → At server_end server_socket table state_computed bytes ses.context ses.objects ses.container
    → (w : Both) × (drop_socket_exception (recv_reply client_end client_socket ([], ses))
        ≡ (ok tt, (filled (encode 4 x) [], w)))
      × Idle table state_computed bytes w
taken_reply table x bytes ses pipe at =
    let header = set_data_size (new_packet code_data_result) 4 in
    let ack = make_packet ControlCode.accept in
    let here : AtClient ses ses (to_bytes header ++ (encode 4 x ++ (to_bytes ack ++ []))) [] =
      ap (λ (p : Pipe). record ses { world = p })
        (pipe ∙ ap (λ t. ([], t)) (one_reply (to_bytes header) (encode 4 x) (to_bytes ack))) in
    let (w, got, there) =
      recv_reply_lem client_end client_socket (client_end-IsConnection ses) rounds header ack
        (encode 4 x) [] ses [] [] (announced-IsPacket code_data_result 4 (omega arith))
        (rw (control_code-new_packet code_data_result 4) refl)
        (data_size-set_data_size (new_packet code_data_result) 4 (omega arith)
          ∙ omega (arith, length-encode 4 x))
        (make_packet-IsPacket ControlCode.accept (omega arith)) here in
    (
      w,
      got
          ∙ ap (λ (r : Result (Unit {0})). (r, (filled (encode 4 x) [], w)))
              (accepting "Rejected to recv data. (0x102)" "Failed to recv data. (0x103)"),
      subst (Idle table state_computed bytes) (sym there) (record { pipe = refl; server = at }),
    )

pub reply_some :
    (x : ℕ) (t : Bytes) → t ≡ number_message code_data_result x ++ accept_message → 0 < length t
reply_some x t e = omega (
  arith,
  ap length e,
  length-append (number_message code_data_result x) accept_message,
  length-to_bytes (make_packet ControlCode.accept)
      (make_packet-IsPacket ControlCode.accept (omega arith)),
)

pub download_exchange :
    (x : ℕ) (bytes : Bytes) (ses : Both)
    → load bytes sum ≡ some x
    → Idle functions state_computed bytes ses
    → (w : Both) × (recv_data_blocking client_end client_socket code_download_result
          retry_interval_usec time_infinite
          ([], ses)
        ≡ (ok tt, (filled (encode 4 x) [], w)))
      × Idle functions state_computed bytes w
unfolding follow
download_exchange x bytes ses ls h =
    let law = client_end-IsConnection ses in
    let start : AtClient ses ses [] [] = ap (λ (p : Pipe). record ses { world = p }) h.pipe in
    let (w₁, sent, c₁) =
      send_packet_lem client_end client_socket law (make_packet code_download_result) ses [] []
        rounds (make_packet-IsPacket code_download_result (omega arith)) start in
    let pipe : w₁.world ≡ (to_bytes (make_packet code_download_result), []) =
      ap (λ (v : Both). v.world) c₁ in
    let (ses', served, (taken, out), at) =
      download_round server_end server_socket server_end-IsConnection rounds functions
        code_download_result received_result_request state_computed bytes [] []
        (number_message code_data_result x) w₁ _ refl (known_result server_end)
        (λ v f p c'.
          download_result_lem server_end server_socket server_end-IsConnection rounds bytes x v []
            [] f refl p ls c')
        (sent-At functions state_computed bytes ses w₁ h c₁)
        (
          ap (λ (p : Pipe). p.0) pipe
              ∙ sym (append-nil (to_bytes (make_packet code_download_result))),
          ap (λ (p : Pipe). p.1) pipe,
        ) in
    let turn =
      recv_packet-serve_packet (new_packet 0) w₁ ses' (ap (λ (p : Pipe). p.1) pipe) served
        (reply_some x ses'.world.1 out) in
    let there : ses'.world ≡ ([], number_message code_data_result x ++ accept_message) =
      ap (λ t. (t, ses'.world.1)) taken ∙ ap (λ t. ([], t)) out in
    let (w₂, got, idle) = taken_reply functions x bytes ses' there at in
    let done =
      recv_data-from client_end client_socket code_download_result [] ses w₁ ses' sent turn ∙ got in
    (
      w₂,
      recv_data_blocking_lem client_end code_download_result retry_interval_usec time_infinite 0
            client_socket ([], ses) ([], ses) none_yet (inr (attempts_left, rw done refl))
          ∙ rw (lt→ltb 0 (calc_retry_count time_infinite retry_interval_usec) attempts_left) done,
      idle,
    )
