-- ===== src/Tests/Closed.antt =====
-- Runs on a connection whose peer closes it.
use stdsc.Base.{◌+◌, ◌<◌, ◌≡◌, refl, false, none, [], ◌∷◌, ◌++◌, arith}
use stdsc.Exec.{ok, throws}
use stdsc.System.{nonneg}
use stdsc.Packet.{to_bytes, make_packet}
use stdsc.Socket.{read}
use stdsc.Socket.Closed.{IsClosed, closed_by_peer, read_short}
use stdsc.Callback.{Session}
use stdsc.Client.{recv_data_blocking}
use stdsc.Client.Retry.{calc_retry_count}
use stdsc.Client.Closed.{recv_data_blocking-short}
use stdsc.Server.{ThreadException, leaves, exec, wait}
use stdsc.Server.Resources.{released}
use stdsc.Server.Ending.{exec-wait}
use stdsc.AddServer.State.{Object, state_init}
use stdsc.AddServer.Callbacks.{callbacks}
use stdsc.Tests.Serving.{counts}
use stdsc.Tests.{Wire, wire, loopback, sock, Here, loopback_lem}

loopback-IsClosed : IsClosed loopback sock Here
loopback-IsClosed = record {
  connection = loopback_lem;
  recv_end = λ w o n c h. (record w { incoming = [] }, rw c.0 refl, (refl, c.1));
  select_end = λ w o c. (0, w, refl, c);
}

read_short_example :
    (w' : Wire) × (read loopback sock 5 (wire (1 ∷ 2 ∷ []))
      ≡ (throws (closed_by_peer 0), 1 ∷ 2 ∷ [], w'))
    × Here w' [] []
read_short_example =
    read_short loopback sock loopback-IsClosed 5 (wire (1 ∷ 2 ∷ [])) (1 ∷ 2 ∷ []) [] (omega arith)
      (refl, refl)

attempts : 0 < calc_retry_count 3 500
unfolding calc_retry_count
attempts = omega arith

-- half of a header comes, and no data
recv_data_blocking-short_example :
    (w' : Wire) × (recv_data_blocking loopback sock 0x0801 500 3 (9 ∷ [], wire (1 ∷ 8 ∷ []))
      ≡ (ok tt, (9 ∷ [], w')))
    × Here w' [] ([] ++ to_bytes (make_packet 0x0801))
recv_data_blocking-short_example =
    recv_data_blocking-short loopback sock loopback-IsClosed (omega arith) 0x0801 500 3 (9 ∷ [])
      (wire (1 ∷ 8 ∷ [])) (1 ∷ 8 ∷ []) [] attempts (omega arith) (omega arith) (refl, refl)

abbrev gone : Session Wire Object
gone = record {
  world = wire (7 ∷ []);
  context = record { state = 0 };
  objects = state_init false false ∷ [];
  container = callbacks loopback (1 ∷ 2 ∷ []);
}

exec-wait_example :
    (w' : Wire) × (te' : ThreadException) × (exec loopback sock (false ∷ []) gone none
      ≡ (ok tt, record gone { world = w' }, te'))
    × ((w : Wire)
        → (w'' : Wire) × (wait loopback
              (leaves te')
              (record { sock = nonneg 7; is_released = false })
              w
            ≡ (ok released, w''))
          × (w''.closed ≡ w.closed + 1))
exec-wait_example =
    exec-wait loopback sock loopback-IsClosed counts [] gone none (7 ∷ []) []
      (record { sock = nonneg 7; is_released = false }) (omega arith) (refl, refl) (7, refl, refl)
