-- ===== src/Socket/Setup.antt =====
-- stdsc/stdsc_socket.cpp: the three functions that make a connection, and the descriptor that they
-- hold while they do.
pub mod Descriptors
pub mod Establishing
pub mod Results
use stdsc.Base.{
  ℕ, ◌-◌, ◌%◌, ◌^◌, String, Bool, true, false, ◌||◌, Option, none, some, List, [], ◌∷◌, ◌==◌, leb,
  if◌then◌else◌, bit_and,
}
use stdsc.Base.Int.{ℤ, pos, negsuc}
use stdsc.Exec.{socket, invariant, Result, ok, throws, Exec, ◌>>=◌, ◌>>◌, pure, throw, check}
use stdsc.System.{
  CInt, minus_one, nonneg, SocketOption, no_delay, rcv_buf, snd_buf, keep_alive, keep_idle,
  keep_intvl, keep_cnt, other, System,
}
use stdsc.Socket.{
  Socket, succeeded, call, throw_socket, socket_check, shutdown_socket, close_socket, wait_write,
  wait_read,
}

abbrev pub einprogress : ℕ
einprogress = 115

-- STDSC_TCP_BUFFER_SIZE
abbrev pub tcp_buffer_size : ℕ
tcp_buffer_size = 1048576

-- uint32_t uint32_port = atoi(port)
abbrev pub to_uint32 : ℤ → ℕ
to_uint32 (pos n) = n % 2 ^ 32
to_uint32 (negsuc n) = 2 ^ 32 - 1 - n % 2 ^ 32

-- ret & ~O_NONBLOCK
abbrev clear_nonblock : ℕ → ℕ
clear_nonblock flags = bit_and flags 0x7FFFF7FF

-- `fcntl` has not failed where this is used
abbrev blocking_flags : CInt → ℕ
blocking_flags minus_one = 0
blocking_flags (nonneg flags) = clear_nonblock flags

-- the options that a connected socket gets, in the order of the calls of `setsockopt`
abbrev pub connection_options : List (SocketOption × ℕ)
connection_options =
    (no_delay, 1)
    ∷ (rcv_buf, tcp_buffer_size)
    ∷ (snd_buf, tcp_buffer_size)
    ∷ (keep_alive, 1)
    ∷ (keep_idle, 60)
    ∷ (keep_intvl, 30)
    ∷ (keep_cnt, 10)
    ∷ []

module _ {W : Type 0} (sys : System W) where
  -- SOCKET_IF_CHECK_CLOSE: the error code is read when the socket is closed already
  unfoldable pub check_close : Bool → String → Socket → Exec W (Unit {0})
  check_close true message s = pure tt
  check_close false message s = do
    shutdown_socket sys s
    close_socket sys s
    throw_socket sys message

  unfoldable pub set_options : Socket → List (SocketOption × ℕ) → Exec W (Unit {0})
  set_options s [] = pure tt
  set_options s ((option, value) ∷ rest) = do
    ret ← call sys (sys.setsockopt s option value)
    check_close (succeeded ret) "Failed to setsockopt" s
    set_options s rest

  unfoldable pub make_listen_socket : String → ℕ → ℕ → Exec W Socket
  make_listen_socket port optname backlog = do
    let uint32_port = to_uint32 (sys.atoi port)
    check (leb uint32_port 65535) (invariant "invalid port number")
    listen_socket ← call sys sys.new_socket
    socket_check sys (succeeded listen_socket) "Failed to create socket"
    ret ← call sys (sys.setsockopt listen_socket (other optname) 1)
    check_close (succeeded ret) "Failed to setsockopt" listen_socket
    ret ← call sys (sys.bind listen_socket uint32_port)
    check_close (succeeded ret) "Failed to bind" listen_socket
    ret ← call sys (sys.listen listen_socket backlog)
    check_close (succeeded ret) "Failed to listen" listen_socket
    pure listen_socket

  unfoldable pub accept_connection : Socket → ℕ → Exec W Socket
  accept_connection listen_sock timeout_sec = do
    wait_result ← wait_read sys listen_sock timeout_sec
    socket_check sys wait_result "Accept connection timed out"
    s ← call sys (sys.accept listen_sock)
    socket_check sys (succeeded s) "Failed to accept"
    set_options s connection_options
    pure s

  unfoldable pub make_blocking : Socket → Exec W (Unit {0})
  make_blocking s = do
    ret ← call sys (sys.fcntl_getfl s)
    socket_check sys (succeeded ret) "Failed to make socket blocking using ioctlsocket"
    ret ← call sys (sys.fcntl_setfl s (blocking_flags ret))
    socket_check sys (succeeded ret) "Failed to make socket blocking using ioctlsocket"

  abbrev first_address : Socket → Option ℕ → Exec W ℕ
  first_address s none = do check_close false "Failed to get addr info" s; pure 0
  first_address s (some address) = pure address

  -- the `catch` around `make_blocking`
  abbrev close_and_rethrow : Socket → Result (Unit {0}) × W → Result (Unit {0}) × W
  close_and_rethrow s (throws (socket message code), w) =
      (do shutdown_socket sys s; close_socket sys s; throw (socket message code)) w
  close_and_rethrow s (r, w) = (r, w)

  -- the `select` while the connection is in progress; an exception of `wait_write` passes through
  unfoldable pub await_connection : Socket → ℕ → Exec W (Unit {0})
  await_connection s timeout_sec = do
    wait_result ← wait_write sys s timeout_sec
    if wait_result
        then pure tt
        else do shutdown_socket sys s; close_socket sys s; throw_socket sys "Connection timed out"

  unfoldable pub establish_connection : String → String → ℕ → Exec W Socket
  establish_connection host port timeout_sec = do
    let uint32_port = to_uint32 (sys.atoi port)
    check (leb uint32_port 65535) (invariant "invalid port number")
    s ← call sys sys.new_socket
    socket_check sys (succeeded s) "Failed to create socket"
    set_options s connection_options
    info ← call sys (sys.getaddrinfo host port)
    server ← first_address s info
    ret ← call sys (sys.connect s server)
    err ← λ w. (ok (sys.errno w), w)
    check_close (succeeded ret || err == einprogress) "Failed to connect" s
    if err == einprogress then await_connection s timeout_sec else pure tt
    λ w. close_and_rethrow s (make_blocking s w)
    pure s
