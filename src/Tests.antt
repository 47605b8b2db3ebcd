-- ===== src/Tests.antt =====
-- Runs at concrete inputs, over a system that is one connection which delivers and takes the bytes
-- one by one.
mod Transfer
mod Setup
mod Exchanges
mod Attempts
mod Serving
mod Threads
mod Closed
mod Silent
mod Sleeping
mod Saved
mod Buffers
mod Example
mod Comparing
mod Strings
mod Together
mod Among
mod Lines
mod Run
use stdsc.Base.{ℕ, ◌+◌, ◌≡◌, refl, none, some, [], ◌∷◌, ◌++◌, String, arith, length, take, drop}
use stdsc.Base.Int.{pos}
use stdsc.System.{System, CInt, minus_one, nonneg, received}
use stdsc.Packet.{Bytes}
use stdsc.Socket.{Socket}
use stdsc.Socket.Connection.{IsConnection}

-- What is still to come, what was sent, how often `close` was called, and the time that was slept.
pub record Wire : Type 0 where
  pub incoming : Bytes
  pub outgoing : Bytes
  pub closed : ℕ
  pub slept : ℕ

abbrev pub wire : Bytes → Wire
wire bytes = record { incoming = bytes; outgoing = []; closed = 0; slept = 0 }

abbrev pub loopback : System Wire
loopback = record {
  recv = λ s n w. (received (take 1 w.incoming), record w { incoming = drop 1 w.incoming });
  send = λ s bytes w. (some (nonneg 1), record w { outgoing = w.outgoing ++ take 1 bytes });
  select_read = λ s timeout w. (some (nonneg 1), w);
  select_write = λ s timeout w. (nonneg 1, w);
  shutdown = λ s w. (nonneg 0, w);
  close = λ s w. (nonneg 0, record w { closed = w.closed + 1 });
  new_socket = λ w. (nonneg 7, w);
  setsockopt = λ s option value w. (nonneg 0, w);
  bind = λ s port w. (nonneg 0, w);
  listen = λ s backlog w. (nonneg 0, w);
  accept = λ s w. (minus_one, w);
  getaddrinfo = λ host port w. (some 1, w);
  connect = λ s address w. (nonneg 0, w);
  fcntl_getfl = λ s w. (nonneg 0, w);
  fcntl_setfl = λ s flags w. (nonneg 0, w);
  errno = λ w. 0;
  usleep = λ usec w. record w { slept = w.slept + usec };
  atoi = λ text. pos 8080;
  write_rounds = 5000;
}

abbrev pub sock : Socket
sock = nonneg 7

abbrev pub Here : Wire → Bytes → Bytes → Type 0
Here w i o = (w.incoming ≡ i) × (w.outgoing ≡ o)

pub loopback_lem : IsConnection loopback sock Here
loopback_lem = record {
  recv_some = λ w i o n c h l. (
    1,
    record w { incoming = drop 1 w.incoming },
    rw c.0 refl,
    omega arith,
    omega arith,
    omega arith,
    (rw c.0 refl, c.1),
  );
  send_some = λ w i o bytes c l. (
    1,
    record w { outgoing = w.outgoing ++ take 1 bytes },
    refl,
    omega arith,
    omega arith,
    (c.0, rw c.1 refl),
  );
  select_some = λ w i o c l. (0, w, refl, c);
}
