-- ===== src/Socket/Setup/Descriptors.antt =====
-- The descriptors that `make_listen_socket` and `accept_connection` take and give back.
use stdsc.Base.{
  none, some, ◌≢◌, ℕ, zero, suc, ◌+◌, ◌≡◌, refl, String, Bool, true, false, Option, List, [], ◌∷◌,
  arith, leb,
}
use stdsc.Exec.{Exception, invariant, Result, ok, throws, Exec, ◌>>=◌, ◌>>◌, and_then, check, pure}
use stdsc.System.{System, CInt, minus_one, nonneg, SocketOption, other}
use stdsc.Socket.Ending.{Selects}
use stdsc.Socket.{
  await_answer, Socket, succeeded, socket_check, call, shutdown_socket, close_socket, wait_read,
  timeout_of, after_select,
}
use stdsc.Socket.Setup.{
  to_uint32, check_close, set_options, make_listen_socket, accept_connection, connection_options,
}

module _ {W : Type 0} (opened closed : W → ℕ) where
  -- both counts are the same
  abbrev pub Same : W → W → Type 0
  Same w w' = (opened w' ≡ opened w) × (closed w' ≡ closed w)

  -- a call that may return a new descriptor
  abbrev pub MayOpen : W → CInt × W → Type 0
  MayOpen w (minus_one, w') = Same w w'
  MayOpen w (nonneg n, w') = (opened w' ≡ opened w + 1) × (closed w' ≡ closed w)

  -- a step of a function that holds a descriptor: it closes it when it throws
  pub data Holds {A : Type 0} (w : W) : Result A × W → Type 0 where
    held : {a : A} {w' : W} → opened w' ≡ opened w → closed w' ≡ closed w → Holds w (ok a, w')
    dropped :
        {e : Exception} {w' : W}
        → opened w' ≡ opened w
        → closed w' ≡ closed w + 1
        → Holds w (throws e, w')

  -- A function that returns a descriptor leaves one more open, and one that throws as many as before.
  pub data Hands {A : Type 0} (w : W) : Result A × W → Type 0 where
    given : {a : A} {w' : W} → opened w' ≡ opened w + 1 → closed w' ≡ closed w → Hands w (ok a, w')
    taken_back :
        {e : Exception} {w' : W}
        → opened w' + closed w ≡ opened w + closed w'
        → Hands w (throws e, w')

  module _ {B : Type 0} where
    pub later : {w w' : W} {r : Result B × W} → Same w w' → Holds w' r → Holds w r
    later h (held o c) = held (omega (arith, h, o)) (omega (arith, h, c))
    later h (dropped o c) = dropped (omega (arith, h, o)) (omega (arith, h, c))

    pub later-Hands : {w w' : W} {r : Result B × W} → Same w w' → Hands w' r → Hands w r
    later-Hands h (given o c) = given (omega (arith, h, o)) (omega (arith, h, c))
    later-Hands h (taken_back e) = taken_back (omega (arith, h, e))

    -- what a function that has just taken a descriptor comes to
    pub after_opening :
        {w w' : W} {r : Result B × W}
        → opened w' ≡ opened w + 1
        → closed w' ≡ closed w
        → Holds w' r
        → Hands w r
    after_opening ho hc (held o c) = given (omega (arith, ho, o)) (omega (arith, hc, c))
    after_opening ho hc (dropped o c) = taken_back (omega (arith, ho, o, hc, c))

  pub then-Holds :
      {A B : Type 0} {w : W} {r : Result A × W} {f : A → Exec W B}
      → Holds w r
      → ((a : A) (w' : W) → Holds w' (f a w'))
      → Holds w (and_then r.0 f r.1)
  then-Holds (held {a} {w'} o c) g = later (o, c) (g a w')
  then-Holds (dropped o c) g = dropped o c

  -- What the calls do to the counts: `socket` and `accept` may open a descriptor, `close` closes one,
  -- and the others leave them alone.
  pub record Ledger (sys : System W) : Type 0 where
    pub on_new_socket : (w : W) → MayOpen w (sys.new_socket w)
    pub on_accept : (s : Socket) (w : W) → MayOpen w (sys.accept s w)
    pub on_close :
        (n : ℕ) (w : W)
        → (opened (sys.close (nonneg n) w).1 ≡ opened w)
          × (closed (sys.close (nonneg n) w).1 ≡ closed w + 1)
    pub on_shutdown : (s : Socket) (w : W) → Same w (sys.shutdown s w).1
    pub on_setsockopt :
        (s : Socket) (o : SocketOption) (v : ℕ) (w : W) → Same w (sys.setsockopt s o v w).1
    pub on_bind : (s : Socket) (port : ℕ) (w : W) → Same w (sys.bind s port w).1
    pub on_listen : (s : Socket) (backlog : ℕ) (w : W) → Same w (sys.listen s backlog w).1
    pub on_select_read : (s : Socket) (t : Option ℕ) (w : W) → Same w (sys.select_read s t w).1

module _ {W : Type 0} (opened closed : W → ℕ) (sys : System W)
    (ledger : Ledger opened closed sys) where
  pub call-Holds :
      {A B : Type 0} (f : W → A × W) {g : A → Exec W B} (w : W)
      → Same opened closed w (f w).1
      → ((a : A) (w' : W) → Holds opened closed w' (g a w'))
      → Holds opened closed w ((call sys f >>= g) w)
  call-Holds f w h g = later opened closed h (g (f w).0 (f w).1)

  pub check_close-Holds :
      (b : Bool) (message : String) (n : ℕ) (w : W)
      → Holds opened closed w (check_close sys b message (nonneg n) w)
  unfolding check_close shutdown_socket close_socket
  check_close-Holds true message n w = held refl refl
  check_close-Holds false message n w =
      let w₁ = (sys.shutdown (nonneg n) w).1 in
      dropped (omega (arith, ledger.on_close n w₁, ledger.on_shutdown (nonneg n) w))
        (omega (arith, ledger.on_close n w₁, ledger.on_shutdown (nonneg n) w))

  pub set_options-Holds :
      (n : ℕ) (options : List (SocketOption × ℕ)) (w : W)
      → Holds opened closed w (set_options sys (nonneg n) options w)
  unfolding set_options
  set_options-Holds n [] w = held refl refl
  set_options-Holds n ((option, value) ∷ rest) w =
      call-Holds (sys.setsockopt (nonneg n) option value) w
        (ledger.on_setsockopt (nonneg n) option value w)
        (λ ret w₁.
          then-Holds opened closed (check_close-Holds (succeeded ret) "Failed to setsockopt" n w₁)
            (λ _ w₂. set_options-Holds n rest w₂))

  options-Hands :
      (w : W) (r : CInt × W)
      → MayOpen opened closed w r
      → Hands opened closed w (
          (do
            socket_check sys (succeeded r.0) "Failed to accept"
            set_options sys r.0 connection_options
            pure r.0)
            r.1)
  options-Hands w (minus_one, w') h = taken_back (omega (arith, h))
  options-Hands w (nonneg n, w') h = after_opening opened closed h.0 h.1 (
      then-Holds opened closed (set_options-Holds n connection_options w') (λ _ w₂. held refl refl))

  waited-Hands :
      (s : Socket) (w : W) (r : Option CInt × W)
      → r.0 ≢ none
      → Same opened closed w r.1
      → Hands opened closed w (
          (do
            wait_result ← (do ret ← await_answer sys r.0; after_select sys ret)
            socket_check sys wait_result "Accept connection timed out"
            s ← call sys (sys.accept s)
            socket_check sys (succeeded s) "Failed to accept"
            set_options sys s connection_options
            pure s)
            r.1)
  waited-Hands s w (none, w₁) a h = absurd (a refl)
  waited-Hands s w (some minus_one, w₁) a h = taken_back (omega (arith, h))
  waited-Hands s w (some (nonneg zero), w₁) a h = taken_back (omega (arith, h))
  waited-Hands s w (some (nonneg (suc n)), w₁) a h =
      later-Hands opened closed h (options-Hands w₁ (sys.accept s w₁) (ledger.on_accept s w₁))

  -- Where the calls of the system count the descriptors that they open and close (Ledger):
  -- and a `select` on the socket returns (Selects), `accept_connection` either returns with one descriptor more opened and none closed, or throws
  -- with as many more closed as opened.
  pub accept_connection-Hands :
      (s : Socket)
      → Selects sys s
      → (timeout_sec : ℕ) (w : W) → Hands opened closed w (accept_connection sys s timeout_sec w)
  unfolding accept_connection wait_read
  accept_connection-Hands s selects timeout_sec w =
      waited-Hands s w (sys.select_read s (timeout_of timeout_sec) w)
        (selects.answers (timeout_of timeout_sec) w)
        (ledger.on_select_read s (timeout_of timeout_sec) w)

  listening-Hands :
      (optname port backlog : ℕ) (w : W) (r : CInt × W)
      → MayOpen opened closed w r
      → Hands opened closed w (
          (do
            socket_check sys (succeeded r.0) "Failed to create socket"
            ret ← call sys (sys.setsockopt r.0 (other optname) 1)
            check_close sys (succeeded ret) "Failed to setsockopt" r.0
            ret ← call sys (sys.bind r.0 port)
            check_close sys (succeeded ret) "Failed to bind" r.0
            ret ← call sys (sys.listen r.0 backlog)
            check_close sys (succeeded ret) "Failed to listen" r.0
            pure r.0)
            r.1)
  listening-Hands optname port backlog w (minus_one, w') h = taken_back (omega (arith, h))
  listening-Hands optname port backlog w (nonneg n, w') h = after_opening opened closed h.0 h.1 (
      call-Holds (sys.setsockopt (nonneg n) (other optname) 1) w'
        (ledger.on_setsockopt (nonneg n) (other optname) 1 w')
        (λ ret w₁.
          then-Holds opened closed (check_close-Holds (succeeded ret) "Failed to setsockopt" n w₁)
            (λ _ w₂.
              call-Holds (sys.bind (nonneg n) port) w₂ (ledger.on_bind (nonneg n) port w₂)
                (λ ret w₃.
                  then-Holds opened closed (check_close-Holds (succeeded ret) "Failed to bind" n w₃)
                    (λ _ w₄.
                      call-Holds (sys.listen (nonneg n) backlog) w₄
                        (ledger.on_listen (nonneg n) backlog w₄)
                        (λ ret w₅.
                          then-Holds opened closed
                            (check_close-Holds (succeeded ret) "Failed to listen" n w₅)
                            (λ _ w₆. held {a = nonneg n} refl refl)))))))

  pub port_checked :
      (b : Bool) (m : Exec W Socket) (w : W)
      → Hands opened closed w (m w)
      → Hands opened closed w ((check b (invariant "invalid port number") >> m) w)
  port_checked true m w h = h
  port_checked false m w h = taken_back refl

  -- Where the calls of the system count the descriptors that they open and close (Ledger):
  -- `make_listen_socket` either returns with one descriptor more opened and none closed, or throws
  -- with as many more closed as opened, whichever of its calls fails.
  pub make_listen_socket-Hands :
      (port : String) (optname backlog : ℕ) (w : W)
      → Hands opened closed w (make_listen_socket sys port optname backlog w)
  unfolding make_listen_socket
  make_listen_socket-Hands port optname backlog w =
      let number = to_uint32 (sys.atoi port) in
      port_checked (leb number 65535) _ w
        (listening-Hands optname number backlog w (sys.new_socket w) (ledger.on_new_socket w))
