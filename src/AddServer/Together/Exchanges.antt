-- ===== src/AddServer/Together/Exchanges.antt =====
-- An exchange of the client with the server's thread: it sends, the server takes its round, and the
-- answer comes.
use stdsc.Base.{
  ℕ, ◌≤◌, ◌<◌, ◌≡◌, refl, sym, ap, subst, ◌∙◌, List, [], ◌++◌, append-nil, arith, length, inr,
  get_elem?, some, lt→ltb,
}
use stdsc.Base.Assoc.{lookup}
use stdsc.Exec.{ok}
use stdsc.Packet.{Bytes, packet_size, to_bytes, new_packet, set_data_size, make_packet}
use stdsc.Packet.ControlCode
use stdsc.Packet.Wire.{make_packet-IsPacket, length-to_bytes}
use stdsc.Packet.Groups.{CarriesData, announced-IsPacket}
use stdsc.Socket.{time_infinite, recv_packet}
use stdsc.Socket.Exchange.{send_packet_lem, recv_packet_lem, send_buffer_lem}
use stdsc.Callback.{View, CallbackFunction, nat_eq}
use stdsc.Callback.Dispatch.{InRange}
use stdsc.Server.{serve_packet}
use stdsc.Client.{send_data, send_request, send_data_blocking, send_request_blocking}
use stdsc.Client.Retry.{calc_retry_count}
use stdsc.Client.Attempts.{none_yet, send_request_blocking_lem}
use stdsc.Client.Blocking.{send_data_blocking_lem}
use stdsc.AddServer.State.{Object}
use stdsc.AddServer.Sharing.{follow}
use stdsc.AddServer.Callbacks.{callbacks}
use stdsc.AddServer.Client.{retry_interval_usec}
use stdsc.AddServer.Protocol.{data_message, accept_message}
use stdsc.AddServer.Protocol.Serving.{At, Serves}
use stdsc.AddServer.Protocol.Loop.{data_round, request_round}
use stdsc.AddServer.Protocol.ClientSide.{attempts_left}
use stdsc.AddServer.Rounds.{moved}
use stdsc.AddServer.Together.{Pipe, server_end, server_socket, Both, client_end, client_socket}
use stdsc.AddServer.Together.Accepted.{send_data-accepted, send_request-accepted}
use stdsc.AddServer.Together.Ends.{
  server_end-IsConnection, AtClient, client_end-IsConnection, recv_packet-serve_packet,
}

abbrev pub functions : List (ℕ × CallbackFunction (View Pipe Object))
functions = (callbacks server_end []).funcmap

pub rounds : packet_size ≤ 2000
rounds = omega arith

accept_some : 0 < length accept_message
accept_some = omega (
  arith,
  length-to_bytes (make_packet ControlCode.accept)
      (make_packet-IsPacket ControlCode.accept (omega arith)),
)

module _ (table : List (ℕ × CallbackFunction (View Pipe Object))) where
  -- The pipe is empty, and the server's thread stands at o with the connection's data.
  pub record Idle (o : Object) (bytes : Bytes) (w : Both) : Type 0 where
    pub pipe : w.world ≡ ([], [])
    pub server : At server_end server_socket table o bytes w.context w.objects w.container

  -- The client has sent a message whole and waits: the server serves it and the acknowledgement comes.
  pub acknowledged :
      (o : Object) (bytes : Bytes) (w : Both)
      → w.world.1 ≡ []
      → Serves server_end server_socket server_end-IsConnection rounds table o bytes []
          accept_message
          (serve_packet server_end server_socket w)
      → (w' : Both) × (recv_packet client_end client_socket (new_packet 0) time_infinite w
          ≡ (ok (make_packet ControlCode.accept), w'))
        × Idle o bytes w'
  acknowledged o bytes w e (ses, served, (taken, sent), at) =
      let here : AtClient ses ses (accept_message ++ []) [] =
        ap (λ (p : Pipe). record ses { world = p })
          (ap (λ t. (t, ses.world.1)) taken
            ∙ ap (λ t. ([], t)) (sent ∙ sym (append-nil accept_message))) in
      let (w', got, there) =
        recv_packet_lem client_end client_socket (client_end-IsConnection ses)
          (make_packet ControlCode.accept) (new_packet 0) ses [] []
          (make_packet-IsPacket ControlCode.accept (omega arith)) here in
      (
        w',
        recv_packet-serve_packet (new_packet 0) w ses e served
              (omega (arith, ap length sent, accept_some))
            ∙ got,
        subst (Idle o bytes) (sym there) (record { pipe = refl; server = at }),
      )

  pub sent-At :
      (o : Object) (bytes : Bytes) (ses w : Both) {i m : Bytes}
      → Idle o bytes ses
      → AtClient ses w i m
      → At server_end server_socket table o bytes w.context w.objects w.container
  sent-At o bytes ses w h c =
      subst
        (λ (v : Both). At server_end server_socket table o bytes v.context v.objects v.container)
        (sym c) h.server

  pub data_exchange :
      (code event : ℕ) (o : Object) (bytes bytes' payload : Bytes) (ses : Both)
      (f : CallbackFunction (View Pipe Object))
      → InRange code 4
      → CarriesData code
      → length payload ≡ 4
      → lookup code table ≡ some f
      → ((v : View Pipe Object)
          → get_elem? v.objects v.context.state ≡ some o
          → v.on_each ≡ some bytes
          → f.data_function code payload v ≡ (ok tt, moved event bytes' v))
      → Idle o bytes ses
      → (w : Both) × (send_data_blocking client_end client_socket code payload retry_interval_usec
            time_infinite ses
          ≡ (ok tt, w))
        × Idle (follow o event) bytes' w
  data_exchange code event o bytes bytes' payload ses f range g n known runs h =
      let law = client_end-IsConnection ses in
      let start : AtClient ses ses [] [] = ap (λ (p : Pipe). record ses { world = p }) h.pipe in
      let announced = set_data_size (new_packet code) (length payload) in
      let (w₁, sent, c₁) =
        send_packet_lem client_end client_socket law announced ses [] [] rounds
          (announced-IsPacket code (length payload) (omega arith)) start in
      let (w₂, buffered, c₂) =
        send_buffer_lem client_end client_socket law payload w₁ [] (to_bytes announced)
          (omega (arith, n)) c₁ in
      let pipe : w₂.world ≡ (to_bytes announced ++ payload, []) = ap (λ (v : Both). v.world) c₂ in
      let serves =
        data_round server_end server_socket server_end-IsConnection rounds table code event o bytes
          bytes' payload [] [] w₂ f range (omega (arith, n)) known runs
          (sent-At o bytes ses w₂ h c₂)
          (
            ap (λ (p : Pipe). p.0) pipe ∙ sym (append-nil (data_message code payload)),
            ap (λ (p : Pipe). p.1) pipe,
          ) in
      let (w₃, got, idle) =
        acknowledged (follow o event) bytes' w₂ (ap (λ (p : Pipe). p.1) pipe) serves in
      let done : send_data client_end client_socket code payload ses ≡ (ok tt, w₃) =
        send_data-accepted client_end client_socket code payload ses w₁ w₂ w₃ g sent buffered got in
      (
        w₃,
        send_data_blocking_lem client_end code retry_interval_usec time_infinite 0 payload
              client_socket ses ses none_yet (inr (attempts_left, rw done refl))
            ∙ rw (lt→ltb 0 (calc_retry_count time_infinite retry_interval_usec) attempts_left) done,
        idle,
      )

  pub request_exchange :
      (code event : ℕ) (o : Object) (bytes bytes' : Bytes) (ses : Both)
      (f : CallbackFunction (View Pipe Object))
      → InRange code 2
      → lookup code table ≡ some f
      → ((v : View Pipe Object)
          → get_elem? v.objects v.context.state ≡ some o
          → v.on_each ≡ some bytes
          → f.request_function code v ≡ (ok tt, moved event bytes' v))
      → Idle o bytes ses
      → (w : Both) × (send_request_blocking client_end client_socket code retry_interval_usec
            time_infinite ses
          ≡ (ok tt, w))
        × Idle (follow o event) bytes' w
  request_exchange code event o bytes bytes' ses f range known runs h =
      let law = client_end-IsConnection ses in
      let start : AtClient ses ses [] [] = ap (λ (p : Pipe). record ses { world = p }) h.pipe in
      let (w₁, sent, c₁) =
        send_packet_lem client_end client_socket law (make_packet code) ses [] [] rounds
          (make_packet-IsPacket code (omega arith)) start in
      let pipe : w₁.world ≡ (to_bytes (make_packet code), []) = ap (λ (v : Both). v.world) c₁ in
      let serves =
        request_round server_end server_socket server_end-IsConnection rounds table code event o
          bytes bytes' [] [] w₁ f range known runs (sent-At o bytes ses w₁ h c₁)
          (
            ap (λ (p : Pipe). p.0) pipe ∙ sym (append-nil (to_bytes (make_packet code))),
            ap (λ (p : Pipe). p.1) pipe,
          ) in
      let (w₂, got, idle) =
        acknowledged (follow o event) bytes' w₁ (ap (λ (p : Pipe). p.1) pipe) serves in
      let done : send_request client_end client_socket code ses ≡ (ok tt, w₂) =
        send_request-accepted client_end client_socket code ses w₁ w₂ sent got in
      (
        w₂,
        send_request_blocking_lem client_end client_socket code retry_interval_usec time_infinite 0
              ses ses none_yet (inr (attempts_left, rw done refl))
            ∙ rw (lt→ltb 0 (calc_retry_count time_infinite retry_interval_usec) attempts_left) done,
        idle,
      )
