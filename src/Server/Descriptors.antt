-- ===== src/Server/Descriptors.antt =====
-- The descriptors that the server thread takes and gives back, over its whole run.
use stdsc.Base.{
  ℕ, ◌+◌, ◌≡◌, refl, sym, ap, ◌∙◌, String, Bool, true, false, none, some, List, [], ◌∷◌, ◌++◌,
  arith, length, length-append,
}
use stdsc.Exec.{Exception, Result, ok, throws, running, fault, ◌>>=◌, ◌>>◌, and_then, pure}
use stdsc.Exec.Preserving.{Preserves, >>=-Preserves, same-Preserves, if-Preserves}
use stdsc.System.{System, minus_one, nonneg}
use stdsc.Socket.{Socket, time_infinite, shutdown_socket, close_socket}
use stdsc.Socket.Ending.{Selects}
use stdsc.Socket.Setup.Descriptors.{
  Ledger, Hands, given, taken_back, accept_connection-Hands, make_listen_socket-Hands,
}
use stdsc.Socket.Setup.Results.{
  Accepts, accepts, passes, Listens, listens, fails, listens_on, faults, accept_connection-Accepts,
  make_listen_socket-Listens,
}
use stdsc.Client.Retry.{is_socket}
use stdsc.Server.{
  Resource, ThreadException, ThreadEnd, leaves, goes_on, new_resource, release, wait, release_all,
  accept_loop, exec_server,
}
use stdsc.Server.Resources.{CountsClosed, AllOpen, AllReleased, release_all_lem}

-- The values of `force_finish` at the tests of a loop that is told to stop at one of them.
pub data Stops : List Bool → Type 0 where
  now : {rest : List Bool} → Stops (true ∷ rest)
  then : {rest : List Bool} → Stops rest → Stops (false ∷ rest)

AllOpen-append :
    (rs : List Resource) (n : ℕ) → AllOpen rs → AllOpen (rs ++ new_resource (nonneg n) ∷ [])
unfolding new_resource
AllOpen-append [] n h = ((n, refl, refl), tt)
AllOpen-append (r ∷ rs) n h = (h.0, AllOpen-append rs n h.1)

module _ {W : Type 0} (sys : System W) (P : W → Type 0)
    (on_shutdown : (s : Socket) (w : W) → P w → P (sys.shutdown s w).1)
    (on_close : (n : ℕ) (w : W) → P w → P (sys.close (nonneg n) w).1) where
  close_socket-Preserves : (s : Socket) → Preserves P (close_socket sys s)
  unfolding close_socket
  close_socket-Preserves minus_one = record { after = λ w p. p }
  close_socket-Preserves (nonneg n) = record { after = λ w p. on_close n w p }

  release-Preserves : (r : Resource) → Preserves P (release sys r)
  unfolding release shutdown_socket
  release-Preserves r = if-Preserves P r.is_released (same-Preserves P (ok r)) (
      >>=-Preserves P {m = shutdown_socket sys r.sock}
        (record { after = λ w p. on_shutdown r.sock w p })
        (λ _.
          >>=-Preserves P (close_socket-Preserves r.sock)
            (λ closed. same-Preserves P (ok (record { sock = closed; is_released = true })))))

  wait-Preserves : (joined : ThreadEnd) (r : Resource) → Preserves P (wait sys joined r)
  unfolding wait stdsc.Server.rethrow_if_has_exception
  wait-Preserves goes_on r = record { after = λ w p. p }
  wait-Preserves (leaves none) r = record { after = λ w p. p }
  wait-Preserves (leaves (some e)) r = record { after = λ w p. (release-Preserves r).after w p }

  release_all-Preserves :
      (joined : Socket → ThreadEnd) (rs : List Resource) → Preserves P (release_all sys joined rs)
  unfolding release_all
  release_all-Preserves joined [] = same-Preserves P (ok [])
  release_all-Preserves joined (r ∷ rs) =
      >>=-Preserves P (wait-Preserves (joined r.sock) r) (λ waited.
        >>=-Preserves P (release-Preserves waited) (λ released.
          >>=-Preserves P (release_all-Preserves joined rs) (λ others. same-Preserves P _)))

module _ {W : Type 0} (opened closed : W → ℕ) where
  -- so many more descriptors are open than before
  abbrev MoreOpen : W → W → ℕ → Type 0
  MoreOpen w w' n = opened w' + closed w ≡ opened w + closed w' + n

  -- what a loop of accepting that is told to stop comes to: an open connection for each descriptor
  data Holding (w : W) : Result (List Resource) × W → Type 0 where
    holding :
        {rs : List Resource} {w' : W}
        → AllOpen rs
        → MoreOpen w w' (length rs)
        → Holding w (ok rs, w')

  -- The end of the server thread: as many descriptors are open as before, and where it returns, all
  -- connections are released.
  pub data Settled (w : W) : Result (List Resource) × W → Type 0 where
    ended : {rs : List Resource} {w' : W} → AllReleased rs → MoreOpen w w' 0 → Settled w (ok rs, w')
    gave_up : {e : Exception} {w' : W} → MoreOpen w w' 0 → Settled w (throws e, w')

module _ {W : Type 0} (opened closed : W → ℕ) (sys : System W) (ledger : Ledger opened closed sys)
    (selects : (s : Socket) → Selects sys s) where
  -- what follows the call of accept_connection in the loop
  abbrev after_accept :
      List Bool → Socket → List Resource → Result Socket × W → Result (List Resource) × W
  after_accept rest l resources r = elim r.0 [
    | ok s ↦ accept_loop sys rest l (resources ++ new_resource s ∷ []) r.1
    | throws e ↦ elim (is_socket e) [
      | true ↦ accept_loop sys rest l resources r.1
      | false ↦ (throws e, r.1)
    ]
    | running ↦ (running, r.1)
    | fault ↦ (fault, r.1)
  ]

  accepted-Holding :
      (rest : List Bool) (l : Socket) (rs : List Resource) (from w : W) {r : Result Socket × W}
      → ((rs : List Resource) (w' : W)
          → AllOpen rs
          → MoreOpen opened closed from w' (length rs)
          → Holding opened closed from (accept_loop sys rest l rs w'))
      → AllOpen rs
      → MoreOpen opened closed from w (length rs)
      → Accepts r
      → Hands opened closed w r
      → Holding opened closed from (after_accept rest l rs r)
  accepted-Holding rest l rs from w next all n (accepts {n = m} {w = w'}) (given o c) =
      next (rs ++ new_resource (nonneg m) ∷ []) w' (AllOpen-append rs m all)
        (omega (arith, n, o, c, length-append rs (new_resource (nonneg m) ∷ [])))
  accepted-Holding rest l rs from w next all n (passes {w = w'}) (taken_back e) =
      next rs w' all (omega (arith, n, e))

  accept_loop-Holding :
      {flags : List Bool}
      → Stops flags
      → (l : Socket) (rs : List Resource) (from w : W) → AllOpen rs
      → MoreOpen opened closed from w (length rs)
      → Holding opened closed from (accept_loop sys flags l rs w)
  unfolding accept_loop
  accept_loop-Holding now l rs from w all n = holding all n
  accept_loop-Holding (then {rest} stops) l rs from w all n =
      accepted-Holding rest l rs from w (λ rs w'. accept_loop-Holding stops l rs from w') all n
        (accept_connection-Accepts sys l (selects l) time_infinite w)
        (accept_connection-Hands opened closed sys ledger l (selects l) time_infinite w)

  -- closing the listening socket at the end
  closed-Settled :
      (n : ℕ) (rs : List Resource) (from w : W)
      → AllReleased rs
      → MoreOpen opened closed from w 1
      → Settled opened closed from ((do close_socket sys (nonneg n); pure rs) w)
  unfolding close_socket
  closed-Settled n rs from w all h = ended all (omega (arith, h, ledger.on_close n w))

  counts : CountsClosed sys closed
  counts = record {
    closed-close = λ n w. (ledger.on_close n w).1;
    closed-shutdown = λ s w. (ledger.on_shutdown s w).1;
  }

  stopped-Settled :
      (joined : Socket → ThreadException) (n : ℕ) (from w : W) {r : Result (List Resource) × W}
      → MoreOpen opened closed from w 1
      → Holding opened closed w r
      → Settled opened closed from (
          and_then r.0
            (λ rs. do
              released ← release_all sys (λ s. leaves (joined s)) rs
              close_socket sys (nonneg n)
              pure released)
            r.1)
  stopped-Settled joined n from w h (holding {rs} {w'} all m) =
      let (rs', w₁, e, same, done, k) = release_all_lem sys counts joined rs w' all in
      let still : opened w₁ ≡ opened w' =
        ap (λ r. opened r.1) (sym e)
        ∙ (release_all-Preserves sys (λ v. opened v ≡ opened w')
              (λ s v p. (ledger.on_shutdown s v).0 ∙ p) (λ m v p. (ledger.on_close m v).0 ∙ p)
              (λ s. leaves (joined s)) rs).after
            w' refl in
      rw e (closed-Settled n rs' from w₁ done (omega (arith, h, m, k, still)))

  listening-Settled :
      {flags : List Bool}
      → Stops flags
      → (joined : Socket → ThreadException) (w : W) {r : Result Socket × W} → Listens r
      → Hands opened closed w r
      → Settled opened closed w (
          and_then r.0
            (λ l. do
              resources ← accept_loop sys flags l []
              released ← release_all sys (λ s. leaves (joined s)) resources
              close_socket sys l
              pure released)
            r.1)
  listening-Settled stops joined w (listens {n} {w = w'}) (given o c) =
      stopped-Settled joined n w w' (omega (arith, o, c))
        (accept_loop-Holding stops (nonneg n) [] w' w' tt (omega arith))
  listening-Settled stops joined w fails (taken_back e) = gave_up (omega (arith, e))
  listening-Settled stops joined w listens_on h = elim h [ ]
  listening-Settled stops joined w faults h = elim h [ ]

  -- Where the calls of the system count the descriptors that they open and close (Ledger): take a
  -- run of the server thread in which each `select` for reading returns (Selects), some test of the
  -- accept loop finds force_finish set (Stops), and every thread that is joined ends, leaving
  -- `joined`. Whatever `socket`, `bind`, `listen`, `accept` and the other calls return and whatever
  -- exceptions the threads have left, the run returns or throws, and as many descriptors are open
  -- then as before. Where it returns, every connection is released and its descriptor set to -1.
  pub exec_server-Settled :
      (port : String) (optname backlog : ℕ) (joined : Socket → ThreadException) (flags : List Bool)
      (w : W)
      → Stops flags
      → Settled opened closed w
          (exec_server sys port optname backlog flags (λ s. leaves (joined s)) w)
  unfolding exec_server
  exec_server-Settled port optname backlog joined flags w stops =
      listening-Settled stops joined w (make_listen_socket-Listens sys port optname backlog w)
        (make_listen_socket-Hands opened closed sys ledger port optname backlog w)
