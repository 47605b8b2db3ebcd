-- ===== src/Socket/Setup/Results.antt =====
-- What `accept_connection` and `make_listen_socket` return and throw: descriptors that are not -1,
-- and of an accepted connection no exception but a socket exception.
use stdsc.Base.{
  Option, none, some, ◌≢◌, refl, if◌then◌else◌, ◌==◌, ◌||◌, ℕ, zero, suc, String, Bool, true, false,
  List, [], ◌∷◌, leb,
}
use stdsc.Exec.{
  Exception, socket, invariant, Result, ok, throws, running, fault, Exec, ◌>>=◌, ◌>>◌, and_then,
  check, pure,
}
use stdsc.System.{System, CInt, minus_one, nonneg, SocketOption, other}
use stdsc.Socket.{
  Socket, succeeded, socket_check, call, wait_read, timeout_of, after_select, await_answer,
  shutdown_socket, close_socket,
}
use stdsc.Socket.Ending.{Selects}
use stdsc.Socket.Setup.{
  to_uint32, einprogress, check_close, set_options, first_address, await_connection,
  close_and_rethrow, make_blocking, make_listen_socket, accept_connection, establish_connection,
  connection_options,
}

-- A result, or a socket exception.
pub data OrSocket {W A : Type 0} : Result A × W → Type 0 where
  returns : {a : A} {w : W} → OrSocket (ok a, w)
  throws_socket : {message : String} {code : ℕ} {w : W} → OrSocket (throws (socket message code), w)

-- The same with a descriptor for the result.
pub data Accepts {W : Type 0} : Result Socket × W → Type 0 where
  accepts : {n : ℕ} {w : W} → Accepts (ok (nonneg n), w)
  passes : {message : String} {code : ℕ} {w : W} → Accepts (throws (socket message code), w)

-- A descriptor, or any other end.
pub data Listens {W : Type 0} : Result Socket × W → Type 0 where
  listens : {n : ℕ} {w : W} → Listens (ok (nonneg n), w)
  fails : {e : Exception} {w : W} → Listens (throws e, w)
  listens_on : {w : W} → Listens (running, w)
  faults : {w : W} → Listens (fault, w)

module _ {W A : Type 0} where
  then-OrSocket :
      {B : Type 0} {r : Result A × W} {f : A → Exec W B}
      → OrSocket r
      → ((a : A) (w : W) → OrSocket (f a w))
      → OrSocket (and_then r.0 f r.1)
  then-OrSocket (returns {a} {w}) g = g a w
  then-OrSocket throws_socket g = throws_socket

  then-Accepts :
      {r : Result A × W} {f : A → Exec W Socket}
      → OrSocket r
      → ((a : A) (w : W) → Accepts (f a w))
      → Accepts (and_then r.0 f r.1)
  then-Accepts (returns {a} {w}) g = g a w
  then-Accepts throws_socket g = passes

  then-Listens :
      (r : Result A × W) (f : A → Exec W Socket)
      → ((a : A) (w : W) → Listens (f a w))
      → Listens (and_then r.0 f r.1)
  then-Listens (ok a, w) f g = g a w
  then-Listens (throws e, w) f g = fails
  then-Listens (running, w) f g = listens_on
  then-Listens (fault, w) f g = faults

module _ {W : Type 0} (sys : System W) where
  socket_check-OrSocket : (b : Bool) (m : String) (w : W) → OrSocket (socket_check sys b m w)
  socket_check-OrSocket true m w = returns
  socket_check-OrSocket false m w = throws_socket

  after_select-OrSocket : (ret : CInt) (w : W) → OrSocket (after_select sys ret w)
  after_select-OrSocket minus_one w = throws_socket
  after_select-OrSocket (nonneg zero) w = returns
  after_select-OrSocket (nonneg (suc n)) w = returns

  answered-OrSocket :
      (r : Option CInt × W)
      → r.0 ≢ none
      → OrSocket ((do ret ← await_answer sys r.0; after_select sys ret) r.1)
  answered-OrSocket (none, w) h = absurd (h refl)
  answered-OrSocket (some ret, w) h = after_select-OrSocket ret w

  check_close-OrSocket :
      (b : Bool) (m : String) (n : ℕ) (w : W) → OrSocket (check_close sys b m (nonneg n) w)
  unfolding check_close shutdown_socket close_socket
  check_close-OrSocket true m n w = returns
  check_close-OrSocket false m n w = throws_socket

  set_options-OrSocket :
      (n : ℕ) (options : List (SocketOption × ℕ)) (w : W)
      → OrSocket (set_options sys (nonneg n) options w)
  unfolding set_options
  set_options-OrSocket n [] w = returns
  set_options-OrSocket n ((option, value) ∷ rest) w =
      let r = sys.setsockopt (nonneg n) option value w in
      then-OrSocket (check_close-OrSocket (succeeded r.0) "Failed to setsockopt" n r.1)
        (λ _ w'. set_options-OrSocket n rest w')

  accepted :
      (s : Socket) (w : W)
      → Accepts (
          (do
            socket_check sys (succeeded s) "Failed to accept"
            set_options sys s connection_options
            pure s)
            w)
  accepted minus_one w = passes
  accepted (nonneg n) w =
      then-Accepts (set_options-OrSocket n connection_options w) (λ _ w'. accepts)

  pub accept_connection-Accepts :
      (s : Socket)
      → Selects sys s
      → (timeout_sec : ℕ) (w : W) → Accepts (accept_connection sys s timeout_sec w)
  unfolding accept_connection wait_read
  accept_connection-Accepts s selects timeout_sec w =
      let r = sys.select_read s (timeout_of timeout_sec) w in
      then-Accepts (answered-OrSocket r (selects.answers (timeout_of timeout_sec) w)) (λ ready w₁.
        then-Accepts (socket_check-OrSocket ready "Accept connection timed out" w₁)
          (λ _ w₂. accepted (sys.accept s w₂).0 (sys.accept s w₂).1))

  created :
      (optname port backlog : ℕ) (s : Socket) (w : W)
      → Listens (
          (do
            socket_check sys (succeeded s) "Failed to create socket"
            ret ← call sys (sys.setsockopt s (other optname) 1)
            check_close sys (succeeded ret) "Failed to setsockopt" s
            ret ← call sys (sys.bind s port)
            check_close sys (succeeded ret) "Failed to bind" s
            ret ← call sys (sys.listen s backlog)
            check_close sys (succeeded ret) "Failed to listen" s
            pure s)
            w)
  created optname port backlog minus_one w = fails
  created optname port backlog (nonneg n) w =
      let set = sys.setsockopt (nonneg n) (other optname) 1 w in
      then-Listens (check_close sys (succeeded set.0) "Failed to setsockopt" (nonneg n) set.1) _
        (λ _ w₁.
          let bound = sys.bind (nonneg n) port w₁ in
          then-Listens (check_close sys (succeeded bound.0) "Failed to bind" (nonneg n) bound.1) _
            (λ _ w₂.
              let heard = sys.listen (nonneg n) backlog w₂ in
              then-Listens
                (check_close sys (succeeded heard.0) "Failed to listen" (nonneg n) heard.1) _
                (λ _ w₃. listens)))

  pub make_listen_socket-Listens :
      (port : String) (optname backlog : ℕ) (w : W)
      → Listens (make_listen_socket sys port optname backlog w)
  unfolding make_listen_socket
  make_listen_socket-Listens port optname backlog w =
      let number = to_uint32 (sys.atoi port) in
      then-Listens (check (leb number 65535) (invariant "invalid port number") w) _
        (λ _ w₁. let made = sys.new_socket w₁ in created optname number backlog made.0 made.1)

  connecting :
      (host port : String) (timeout_sec : ℕ) (s : Socket) (w : W)
      → Listens (
          (do
            socket_check sys (succeeded s) "Failed to create socket"
            set_options sys s connection_options
            info ← call sys (sys.getaddrinfo host port)
            server ← first_address sys s info
            ret ← call sys (sys.connect s server)
            err ← λ w. (ok (sys.errno w), w)
            check_close sys (succeeded ret || err == einprogress) "Failed to connect" s
            if err == einprogress then await_connection sys s timeout_sec else pure tt
            λ w. close_and_rethrow sys s (make_blocking sys s w)
            pure s)
            w)
  connecting host port timeout_sec minus_one w = fails
  connecting host port timeout_sec (nonneg n) w =
      then-Listens (set_options sys (nonneg n) connection_options w) _ (λ _ w₁.
        let info = sys.getaddrinfo host port w₁ in
        then-Listens (first_address sys (nonneg n) info.0 info.1) _ (λ server w₃.
          let ret = sys.connect (nonneg n) server w₃ in
          let err = sys.errno ret.1 in
          then-Listens
            (check_close sys (succeeded ret.0 || err == einprogress) "Failed to connect" (nonneg n)
              ret.1)
            _
            (λ _ w₅.
              then-Listens
                ((if err == einprogress
                    then await_connection sys (nonneg n) timeout_sec
                    else pure tt)
                  w₅)
                _
                (λ _ w₆.
                  then-Listens (close_and_rethrow sys (nonneg n) (make_blocking sys (nonneg n) w₆))
                    _ (λ _ w₇. listens)))))

  pub establish_connection-Listens :
      (host port : String) (timeout_sec : ℕ) (w : W)
      → Listens (establish_connection sys host port timeout_sec w)
  unfolding establish_connection
  establish_connection-Listens host port timeout_sec w =
      let number = to_uint32 (sys.atoi port) in
      then-Listens (check (leb number 65535) (invariant "invalid port number") w) _
        (λ _ w₁. let made = sys.new_socket w₁ in connecting host port timeout_sec made.0 made.1)
