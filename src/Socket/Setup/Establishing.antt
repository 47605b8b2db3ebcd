-- ===== src/Socket/Setup/Establishing.antt =====
-- The descriptor of `establish_connection`.
use stdsc.Base.{
  ℕ, zero, suc, ◌≢◌, refl, String, Bool, true, false, Option, none, some, arith, leb, ◌==◌, ◌||◌,
  if◌then◌else◌,
}
use stdsc.Exec.{Exception, socket, ok, throws, ◌>>=◌, ◌>>◌, pure}
use stdsc.System.{System, CInt, minus_one, nonneg}
use stdsc.Socket.{
  Socket, succeeded, socket_check, call, throw_socket, shutdown_socket, close_socket, wait_write,
  timeout_of, after_select,
}
use stdsc.Socket.Setup.{
  to_uint32, check_close, set_options, make_blocking, blocking_flags, close_and_rethrow,
  first_address, await_connection, establish_connection, connection_options, einprogress,
}
use stdsc.Socket.Setup.Descriptors.{
  Same, MayOpen, Holds, held, dropped, Hands, taken_back, later, then-Holds, call-Holds,
  after_opening, check_close-Holds, set_options-Holds, port_checked, Ledger,
}

-- What the other calls do to the counts: nothing.
pub record Quiet {W : Type 0} (opened closed : W → ℕ) (sys : System W) : Type 0 where
  pub on_getaddrinfo :
      (host port : String) (w : W) → Same opened closed w (sys.getaddrinfo host port w).1
  pub on_connect :
      (s : Socket) (address : ℕ) (w : W) → Same opened closed w (sys.connect s address w).1
  pub on_fcntl_getfl : (s : Socket) (w : W) → Same opened closed w (sys.fcntl_getfl s w).1
  pub on_fcntl_setfl :
      (s : Socket) (flags : ℕ) (w : W) → Same opened closed w (sys.fcntl_setfl s flags w).1
  pub on_select_write :
      (s : Socket) (t : Option ℕ) (w : W) → Same opened closed w (sys.select_write s t w).1

module _ {W : Type 0} (opened closed : W → ℕ) (sys : System W) (ledger : Ledger opened closed sys)
    (quiet : Quiet opened closed sys) where
  first_address-Holds :
      (n : ℕ) (info : Option ℕ) (w : W)
      → Holds opened closed w (first_address sys (nonneg n) info w)
  first_address-Holds n none w =
      then-Holds opened closed
        (check_close-Holds opened closed sys ledger false "Failed to get addr info" n w)
        (λ _ w'. held {a = 0} refl refl)
  first_address-Holds n (some address) w = held refl refl

  -- closing after a failure
  closed_after :
      {A : Type 0} (n : ℕ) (w w' : W) (e : W → Exception)
      → Same opened closed w w'
      → Holds opened closed {A = A} w (
          (do shutdown_socket sys (nonneg n); close_socket sys (nonneg n); λ v. (throws (e v), v))
            w')
  unfolding shutdown_socket close_socket
  closed_after n w w' e h =
      let w₁ = (sys.shutdown (nonneg n) w').1 in
      dropped (omega (arith, h, ledger.on_close n w₁, ledger.on_shutdown (nonneg n) w'))
        (omega (arith, h, ledger.on_close n w₁, ledger.on_shutdown (nonneg n) w'))

  waited-Holds :
      (n : ℕ) (w : W) (r : CInt × W)
      → r.0 ≢ minus_one
      → Same opened closed w r.1
      → Holds opened closed w (
          (do
            wait_result ← after_select sys r.0
            if wait_result then pure tt else do
              shutdown_socket sys (nonneg n)
              close_socket sys (nonneg n)
              throw_socket sys "Connection timed out")
            r.1)
  waited-Holds n w (minus_one, w') up h = absurd (up refl)
  waited-Holds n w (nonneg zero, w') up h =
      closed_after n w w' (λ v. socket "Connection timed out" (sys.errno v)) h
  waited-Holds n w (nonneg (suc k), w') up h = held (omega (arith, h)) (omega (arith, h))

  set_flags-Holds :
      (n : ℕ) (w : W) (r : CInt × W)
      → Same opened closed w r.1
      → Holds opened closed w (
          close_and_rethrow sys (nonneg n) (
            socket_check sys
              (succeeded r.0)
              "Failed to make socket blocking using ioctlsocket"
              r.1))
  set_flags-Holds n w (minus_one, w') h =
      let code = sys.errno w' in
      closed_after n w w' (λ v. socket "Failed to make socket blocking using ioctlsocket" code) h
  set_flags-Holds n w (nonneg k, w') h = held (omega (arith, h)) (omega (arith, h))

  blocking-Holds :
      (n : ℕ) (w : W) (r : CInt × W)
      → Same opened closed w r.1
      → Holds opened closed w (
          close_and_rethrow sys (nonneg n) (
            (do
              socket_check sys (succeeded r.0) "Failed to make socket blocking using ioctlsocket"
              ret ← call sys (sys.fcntl_setfl (nonneg n) (blocking_flags r.0))
              socket_check sys (succeeded ret) "Failed to make socket blocking using ioctlsocket")
              r.1))
  blocking-Holds n w (minus_one, w') h =
      let code = sys.errno w' in
      closed_after n w w' (λ v. socket "Failed to make socket blocking using ioctlsocket" code) h
  blocking-Holds n w (nonneg k, w') h = later opened closed h (
      set_flags-Holds n w' (sys.fcntl_setfl (nonneg n) (blocking_flags (nonneg k)) w')
        (quiet.on_fcntl_setfl (nonneg n) (blocking_flags (nonneg k)) w'))

  module _
      (writable : (s : Socket) (t : Option ℕ) (w : W)
        → (sys.select_write s t w).0 ≢ minus_one) where
    in_progress-Holds :
        (b : Bool) (n timeout_sec : ℕ) (w : W)
        → Holds opened closed w
            ((if b then await_connection sys (nonneg n) timeout_sec else pure tt) w)
    unfolding await_connection wait_write
    in_progress-Holds false n timeout_sec w = held refl refl
    in_progress-Holds true n timeout_sec w =
        waited-Holds n w (sys.select_write (nonneg n) (timeout_of timeout_sec) w)
          (writable (nonneg n) (timeout_of timeout_sec) w)
          (quiet.on_select_write (nonneg n) (timeout_of timeout_sec) w)

    connected-Hands :
        (host port : String) (timeout_sec : ℕ) (w : W) (r : CInt × W)
        → MayOpen opened closed w r
        → Hands opened closed w (
            (do
              socket_check sys (succeeded r.0) "Failed to create socket"
              set_options sys r.0 connection_options
              info ← call sys (sys.getaddrinfo host port)
              server ← first_address sys r.0 info
              ret ← call sys (sys.connect r.0 server)
              err ← λ w. (ok (sys.errno w), w)
              check_close sys (succeeded ret || err == einprogress) "Failed to connect" r.0
              if err == einprogress then await_connection sys r.0 timeout_sec else pure tt
              λ w. close_and_rethrow sys r.0 (make_blocking sys r.0 w)
              pure r.0)
              r.1)
    unfolding make_blocking
    connected-Hands host port timeout_sec w (minus_one, w') h = taken_back (omega (arith, h))
    connected-Hands host port timeout_sec w (nonneg n, w') h = after_opening opened closed h.0 h.1 (
        then-Holds opened closed
          (set_options-Holds opened closed sys ledger n connection_options w')
          (λ _ w₁.
            call-Holds opened closed sys ledger (sys.getaddrinfo host port) w₁
              (quiet.on_getaddrinfo host port w₁)
              (λ info w₂. then-Holds opened closed (first_address-Holds n info w₂) (λ server w₃.
                call-Holds opened closed sys ledger (sys.connect (nonneg n) server) w₃
                  (quiet.on_connect (nonneg n) server w₃)
                  (λ ret w₄.
                    then-Holds opened closed
                      (check_close-Holds opened closed sys ledger
                        (succeeded ret || (sys.errno w₄ == einprogress)) "Failed to connect" n w₄)
                      (λ _ w₅.
                        then-Holds opened closed
                          (in_progress-Holds (sys.errno w₄ == einprogress) n timeout_sec w₅)
                          (λ _ w₆.
                            then-Holds opened closed
                              (blocking-Holds n w₆ (sys.fcntl_getfl (nonneg n) w₆)
                                (quiet.on_fcntl_getfl (nonneg n) w₆))
                              (λ _ w₇. held {a = nonneg n} refl refl))))))))

    -- Where the calls of the system count the descriptors that they open and close (Ledger, Quiet)
    -- and a `select` for writing never fails: `establish_connection` either returns with one
    -- descriptor more opened and none closed, or throws with as many more closed as opened,
    -- whichever of its other calls fails.
    pub establish_connection-Hands :
        (host port : String) (timeout_sec : ℕ) (w : W)
        → Hands opened closed w (establish_connection sys host port timeout_sec w)
    unfolding establish_connection
    establish_connection-Hands host port timeout_sec w =
        port_checked opened closed sys ledger (leb (to_uint32 (sys.atoi port)) 65535) _ w
          (connected-Hands host port timeout_sec w (sys.new_socket w) (ledger.on_new_socket w))
