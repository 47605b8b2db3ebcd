-- ===== src/Tests/Setup.antt =====
-- Runs of the set-up of connections.
use stdsc.Base.{Option, ◌≢◌, arith, ℕ, ◌+◌, refl, some, [], ◌∷◌, true, false}
use stdsc.Base.Int.{pos}
use stdsc.System.{System, minus_one, nonneg}
use stdsc.Socket.{Socket}
use stdsc.Socket.Setup.{establish_connection}
use stdsc.Socket.Setup.Establishing.{Quiet, establish_connection-Hands}
use stdsc.Socket.Setup.Descriptors.{Ledger, Hands}
use stdsc.Exec.{failure}
use stdsc.Server.{leaves, exec_server}
use stdsc.Server.Descriptors.{now, then, Settled, exec_server-Settled}
use stdsc.Socket.Ending.{Selects, Responds}
use stdsc.AddServer.Client.{run}
use stdsc.AddServer.Protocol.{replies}
use stdsc.AddServer.Descriptors.{Moving, Finished, run-Finished}
use stdsc.Tests.{Wire, wire, loopback}

-- a system that counts the descriptors that it has opened beside its wire
abbrev Counting : Type 0
Counting = ℕ × Wire

abbrev counting : System Counting
counting = record {
  recv = λ s n (c, w). ((loopback.recv s n w).0, (c, (loopback.recv s n w).1));
  send = λ s bytes (c, w). ((loopback.send s bytes w).0, (c, (loopback.send s bytes w).1));
  select_read = λ s timeout w. (some (nonneg 1), w);
  select_write = λ s timeout w. (nonneg 1, w);
  shutdown = λ s w. (nonneg 0, w);
  close = λ s (c, w). (nonneg 0, (c, record w { closed = w.closed + 1 }));
  new_socket = λ (c, w). (nonneg 7, (c + 1, w));
  setsockopt = λ s option value w. (nonneg 0, w);
  bind = λ s port w. (minus_one, w);
  listen = λ s backlog w. (nonneg 0, w);
  accept = λ s (c, w). (nonneg 8, (c + 1, w));
  getaddrinfo = λ host port w. (some 1, w);
  connect = λ s address w. (nonneg 0, w);
  fcntl_getfl = λ s w. (nonneg 0, w);
  fcntl_setfl = λ s flags w. (nonneg 0, w);
  errno = λ w. 98;
  usleep = λ usec w. w;
  atoi = λ text. pos 8080;
  write_rounds = 5000;
}

abbrev opened : Counting → ℕ
opened (c, w) = c

abbrev closed : Counting → ℕ
closed (c, w) = w.closed

ledger : Ledger opened closed counting
ledger = record {
  on_new_socket = λ w. (refl, refl);
  on_accept = λ s w. (refl, refl);
  on_close = λ n w. (refl, refl);
  on_shutdown = λ s w. (refl, refl);
  on_setsockopt = λ s o v w. (refl, refl);
  on_bind = λ s port w. (refl, refl);
  on_listen = λ s backlog w. (refl, refl);
  on_select_read = λ s t w. (refl, refl);
}

-- the same, where `bind` succeeds
abbrev listening : System Counting
listening = record counting { bind = λ s port w. (nonneg 0, w) }

listening-Ledger : Ledger opened closed listening
listening-Ledger = record {
  on_new_socket = ledger.on_new_socket;
  on_accept = ledger.on_accept;
  on_close = ledger.on_close;
  on_shutdown = ledger.on_shutdown;
  on_setsockopt = ledger.on_setsockopt;
  on_bind = λ s port w. (refl, refl);
  on_listen = ledger.on_listen;
  on_select_read = ledger.on_select_read;
}

selects : (s : Socket) → Selects listening s
selects s = record { answers = λ t w e. ground (arith, e) }

-- Two connections, one of whose threads has failed.
exec_server-Settled_example :
    Settled opened closed
      (0, wire [])
      (exec_server listening "8080" 2 10
        (false ∷ false ∷ true ∷ [])
        (λ s. leaves (some (failure "callback failed")))
        (0, wire []))
exec_server-Settled_example =
    exec_server-Settled opened closed listening listening-Ledger selects "8080" 2 10
      (λ s. some (failure "callback failed")) (false ∷ false ∷ true ∷ []) (0, wire [])
      (then (then now))

quiet : Quiet opened closed counting
quiet = record {
  on_getaddrinfo = λ host port w. (refl, refl);
  on_connect = λ s address w. (refl, refl);
  on_fcntl_getfl = λ s w. (refl, refl);
  on_fcntl_setfl = λ s flags w. (refl, refl);
  on_select_write = λ s t w. (refl, refl);
}

writable : (s : Socket) (t : Option ℕ) (w : Counting) → (counting.select_write s t w).0 ≢ minus_one
writable s t w e = ground (arith, e)

establish_connection-Hands_example :
    Hands opened closed
      (0, wire [])
      (establish_connection counting "localhost" "8080" 30 (0, wire []))
establish_connection-Hands_example =
    establish_connection-Hands opened closed counting ledger quiet writable "localhost" "8080" 30
      (0, wire [])

moving : Moving opened closed counting
moving = record {
  on_recv = λ s n w. (refl, refl);
  on_send = λ s bytes w. (refl, refl);
  on_usleep = λ n w. (refl, refl);
}

responds : (s : Socket) → Responds counting s
responds s = record {
  selects = record { answers = λ t w e. ground (arith, e) };
  recv_answers = λ n w e. ground (arith, e);
  send_answers = λ bytes w e. ground (arith, e);
  some_byte = λ b bs w e. ground (arith, e);
}

-- The server answers as it should.
run-Finished_example :
    Finished opened closed
      (0, wire (replies 30))
      (run counting "localhost" "8080" 10 20 (0, wire (replies 30)))
run-Finished_example =
    run-Finished opened closed counting ledger moving quiet writable responds (omega arith)
      "localhost" "8080" 10 20 (0, wire (replies 30))
