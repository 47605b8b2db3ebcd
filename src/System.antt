-- ===== src/System.antt =====
-- What the code calls of the operating system and the C library. None of it is in this repository,
-- so every operation is a field of a parameter; `W` is whatever state lies behind the calls.
use stdsc.Base.{ℕ, String, List, Option}
use stdsc.Base.Int.{ℤ}

-- A C `int` that a call returns: -1 for an error, otherwise not negative. Descriptors are such
-- numbers too, and `INVALID_SOCKET` and `SOCKET_ERROR` are both -1.
pub data CInt : Type 0 where
  minus_one : CInt
  nonneg : ℕ → CInt

-- What `recv` returns: -1, or the bytes that it wrote, none at the end of the stream. `recv_waits` is a
-- call that never returns, since no byte and no end of the stream ever arrives.
pub data Received : Type 0 where
  recv_error : Received
  received : List ℕ → Received
  recv_waits : Received

pub data SocketOption : Type 0 where
  no_delay rcv_buf snd_buf keep_alive keep_idle keep_intvl keep_cnt : SocketOption
  other : ℕ → SocketOption

pub record System (W : Type 0) : Type 0 where
  pub recv : CInt → ℕ → W → Received × W
  -- `none` for the result of this call and of the next one is a call that never returns
  pub send : CInt → List ℕ → W → Option CInt × W
  -- `none` for the timeout is a call without one
  pub select_read : CInt → Option ℕ → W → Option CInt × W
  pub select_write : CInt → Option ℕ → W → CInt × W
  pub shutdown : CInt → W → CInt × W
  pub close : CInt → W → CInt × W
  pub new_socket : W → CInt × W
  pub setsockopt : CInt → SocketOption → ℕ → W → CInt × W
  pub bind : CInt → ℕ → W → CInt × W
  pub listen : CInt → ℕ → W → CInt × W
  pub accept : CInt → W → CInt × W
  -- the address of the first answer, as a number; `none` for a result other than 0
  pub getaddrinfo : String → String → W → Option ℕ × W
  pub connect : CInt → ℕ → W → CInt × W
  pub fcntl_getfl : CInt → W → CInt × W
  pub fcntl_setfl : CInt → ℕ → W → CInt × W
  pub errno : W → ℕ
  pub usleep : ℕ → W → W
  pub atoi : String → ℤ
  -- how many calls of `send` one write is followed for
  pub write_rounds : ℕ
