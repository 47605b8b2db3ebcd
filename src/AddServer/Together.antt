-- ===== src/AddServer/Together.antt =====
-- The client and a thread of the server of the example over the two ends of a pipe: whenever the client
-- waits for bytes and none are there, the server's thread takes a round of its loop.
pub mod Ends
pub mod Accepted
pub mod Exchanges
pub mod Download
pub mod Sum
use stdsc.Base.{ℕ, ◌++◌, List, [], ltb, length, take, drop, some, if◌then◌else◌}
use stdsc.Base.Int.{pos}
use stdsc.System.{System, CInt, minus_one, nonneg, received}
use stdsc.Packet.{Bytes}
use stdsc.Socket.{Socket}
use stdsc.Callback.{Session}
use stdsc.Server.{serve_packet}
use stdsc.AddServer.State.{Object}

-- what the server has yet to receive, and what the client has yet to receive
abbrev pub Pipe : Type 0
Pipe = Bytes × Bytes

-- Every other call succeeds, so that a connection is made at once.
abbrev willing : {W : Type 0} → System W
willing = record {
  recv = λ s n w. (received [], w);
  send = λ s bytes w. (some (nonneg 1), w);
  select_read = λ s timeout w. (some (nonneg 1), w);
  select_write = λ s timeout w. (nonneg 1, w);
  shutdown = λ s w. (nonneg 0, w);
  close = λ s w. (nonneg 0, w);
  new_socket = λ w. (nonneg 7, w);
  setsockopt = λ s option value w. (nonneg 0, w);
  bind = λ s port w. (nonneg 0, w);
  listen = λ s backlog w. (nonneg 0, w);
  accept = λ s w. (nonneg 8, w);
  getaddrinfo = λ host port w. (some 1, w);
  connect = λ s address w. (nonneg 0, w);
  fcntl_getfl = λ s w. (nonneg 0, w);
  fcntl_setfl = λ s flags w. (nonneg 0, w);
  errno = λ w. 0;
  usleep = λ usec w. w;
  atoi = λ text. pos 0;
  write_rounds = 2000;
}

-- Both ends move a byte at a time.
abbrev pub server_end : System Pipe
server_end = record willing {
  recv = λ s n (i, o). (received (take 1 i), (drop 1 i, o));
  send = λ s bytes (i, o). (some (nonneg 1), (i, o ++ take 1 bytes));
}

abbrev pub server_socket : Socket
server_socket = nonneg 8

-- the server's thread and the pipe
abbrev pub Both : Type 0
Both = Session Pipe Object

abbrev pub client_end : System Both
client_end = record willing {
  select_read = λ s timeout ses.
      let next = (serve_packet server_end server_socket ses).1 in
      (some (nonneg 1), if ltb 0 (length ses.world.1) then ses else next);
  recv = λ s n ses.
      (received (take 1 ses.world.1), record ses { world = (ses.world.0, drop 1 ses.world.1) });
  send = λ s bytes ses.
      (some (nonneg 1), record ses { world = (ses.world.0 ++ take 1 bytes, ses.world.1) });
}

abbrev pub client_socket : Socket
client_socket = nonneg 7
