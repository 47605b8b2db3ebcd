-- ===== src/AddServer/Together/Ends.antt =====
-- The two ends of the pipe as connections, and the round that the server takes when the client waits.
use stdsc.Base.{◌<◌, ◌≡◌, refl, ap, false, [], ◌++◌, arith, ltb, lt→ltb, length, take, drop}
use stdsc.Exec.{ok}
use stdsc.System.{received}
use stdsc.Packet.{Bytes, Packet}
use stdsc.Socket.{time_infinite, wait_read, recv_packet}
use stdsc.Socket.Connection.{IsConnection}
use stdsc.Server.{serve_packet}
use stdsc.AddServer.Together.{Pipe, server_end, server_socket, Both, client_end, client_socket}

abbrev pub AtServer : Pipe → Bytes → Bytes → Type 0
AtServer p i o = (p.0 ≡ i) × (p.1 ≡ o)

pub server_end-IsConnection : IsConnection server_end server_socket AtServer
server_end-IsConnection = record {
  recv_some = λ w i o n c h l. (
    1,
    (drop 1 w.0, w.1),
    rw c.0 refl,
    omega arith,
    omega arith,
    omega arith,
    (rw c.0 refl, c.1),
  );
  send_some = λ w i o bytes c l.
      (1, (w.0, w.1 ++ take 1 bytes), refl, omega arith, omega arith, (c.0, rw c.1 refl));
  select_some = λ w i o c l. (0, w, refl, c);
}

-- the client's end, beside a server's thread that stands still
abbrev pub AtClient : Both → Both → Bytes → Bytes → Type 0
AtClient ses w i o = w ≡ record ses { world = (o, i) }

pub client_end-IsConnection : (ses : Both) → IsConnection client_end client_socket (AtClient ses)
client_end-IsConnection ses = record {
  recv_some = λ w i o n c h l. (
    1,
    record w { world = (w.world.0, drop 1 w.world.1) },
    ap
        (λ (v : Both).
          (received (take 1 v.world.1), record w { world = (w.world.0, drop 1 w.world.1) }))
        c,
    omega arith,
    omega arith,
    omega arith,
    ap (λ (v : Both). record v { world = (v.world.0, drop 1 v.world.1) }) c,
  );
  send_some = λ w i o bytes c l. (
    1,
    record w { world = (w.world.0 ++ take 1 bytes, w.world.1) },
    refl,
    omega arith,
    omega arith,
    ap (λ (v : Both). record v { world = (v.world.0 ++ take 1 bytes, v.world.1) }) c,
  );
  select_some = λ w i o c l.
      let e : length w.world.1 ≡ length i = ap (λ (v : Both). length v.world.1) c in
      (0, w, rw (lt→ltb 0 (length w.world.1) (omega (arith, e, l))) refl, c);
}

-- With nothing to receive, the client waits for a round of the server that sends something.
pub recv_packet-serve_packet :
    (p : Packet) (w ses : Both)
    → w.world.1 ≡ []
    → serve_packet server_end server_socket w ≡ (ok tt, ses)
    → 0 < length ses.world.1
    → recv_packet client_end client_socket p time_infinite w
      ≡ recv_packet client_end client_socket p time_infinite ses
unfolding recv_packet wait_read
recv_packet-serve_packet p w ses e served h =
    let idle : ltb 0 (length w.world.1) ≡ false = ap (λ t. ltb 0 (length t)) e in
    rw idle (rw served (rw (lt→ltb 0 (length ses.world.1) h) refl))
