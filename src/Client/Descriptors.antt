-- ===== src/Client/Descriptors.antt =====
-- The descriptor of a client, over all the attempts that `connect` makes.
use stdsc.Base.{ℕ, ◌+◌, ◌≡◌, ◌≢◌, refl, String, true, false, Option, arith, ltb}
use stdsc.Exec.{Exception, Result, ok, throws, ◌>>◌, and_then, pure}
use stdsc.System.{System, minus_one, nonneg}
use stdsc.Socket.{Socket}
use stdsc.Socket.Setup.{establish_connection}
use stdsc.Socket.Setup.Descriptors.{Ledger, Same, Hands, given, taken_back}
use stdsc.Socket.Setup.Establishing.{Quiet, establish_connection-Hands}
use stdsc.Socket.Setup.Results.{
  Listens, listens, fails, listens_on, faults, establish_connection-Listens,
}
use stdsc.Client.Rounds.{Next, retry_loop-induction}
use stdsc.Client.Retry.{is_socket, calc_retry_count, retry_loop}
use stdsc.Client.{conn_timeout_sec, check_attempts, connect}

module _ {W : Type 0} (opened closed : W → ℕ) where
  abbrev pub Balanced : W → W → Type 0
  Balanced w w' = opened w' + closed w ≡ opened w + closed w'

  -- what the loop of the attempts comes to
  data Attempted (most : ℕ) (w : W) : Result (ℕ × Socket) × W → Type 0 where
    up :
        {count n : ℕ} {w' : W}
        → ltb count most ≡ true
        → opened w' + closed w ≡ opened w + closed w' + 1
        → Attempted most w (ok (count, nonneg n), w')
    used_up :
        {count : ℕ} {s : Socket} {w' : W}
        → ltb count most ≡ false
        → Balanced w w'
        → Attempted most w (ok (count, s), w')
    threw : {e : Exception} {w' : W} → Balanced w w' → Attempted most w (throws e, w')

  -- what `connect` comes to: a descriptor that is open, or an exception and none
  pub data Connects (w : W) : Result Socket × W → Type 0 where
    connects :
        {n : ℕ} {w' : W}
        → opened w' + closed w ≡ opened w + closed w' + 1
        → Connects w (ok (nonneg n), w')
    refuses : {e : Exception} {w' : W} → Balanced w w' → Connects w (throws e, w')

module _ {W : Type 0} (opened closed : W → ℕ) (sys : System W) (ledger : Ledger opened closed sys)
    (quiet : Quiet opened closed sys)
    (writable : (s : Socket) (t : Option ℕ) (w : W) → (sys.select_write s t w).0 ≢ minus_one)
    (slept : (n : ℕ) (w : W) → Same opened closed w (sys.usleep n w)) (host port : String)
    (usec most : ℕ) where
  abbrev Tried : W → ℕ → Result Socket × W → Type 0
  Tried from n r =
      Next is_socket (sys.usleep usec) (establish_connection sys host port conn_timeout_sec)
        (λ _. Balanced opened closed from) (Attempted opened closed most from) n r

  refused-Tried :
      (from w : W) (n : ℕ) (e : Exception)
      → Balanced opened closed from w
      → Tried from n (throws e, w)
  refused-Tried from w n e b = ((λ _. omega (arith, b, slept usec w)), (λ _. threw b))

  attempt-Tried :
      (from w : W) (n : ℕ) {r : Result Socket × W}
      → Balanced opened closed from w
      → ltb n most ≡ true
      → Listens r
      → Hands opened closed w r
      → Tried from n r
  attempt-Tried from w n b l listens (given o c) = up l (omega (arith, b, o, c))
  attempt-Tried from w n b l (fails {e} {w = w'}) (taken_back t) =
      refused-Tried from w' n e (omega (arith, b, t))
  attempt-Tried from w n b l listens_on h = elim h [ ]
  attempt-Tried from w n b l faults h = elim h [ ]

  loop-Attempted :
      (current : Socket) (from : W)
      → Attempted opened closed most from (
          retry_loop is_socket
            (sys.usleep usec)
            (establish_connection sys host port conn_timeout_sec)
            most
            most
            0
            current
            from)
  loop-Attempted current from =
      retry_loop-induction is_socket (sys.usleep usec)
        (establish_connection sys host port conn_timeout_sec) (λ _. Balanced opened closed from)
        (Attempted opened closed most from) most current (λ n w l b. used_up l b)
        (λ n w l b.
          attempt-Tried from w n b l (establish_connection-Listens sys host port conn_timeout_sec w)
            (establish_connection-Hands opened closed sys ledger quiet writable host port
              conn_timeout_sec w))
        most 0 from (omega arith) refl

  connected :
      (w : W) {r : Result (ℕ × Socket) × W}
      → Attempted opened closed most w r
      → Connects opened closed w (
          and_then r.0
            (λ done. check_attempts sys "Connection time out" most done.0 >> pure done.1)
            r.1)
  connected w (up l b) = rw l (connects b)
  connected w (used_up l b) = rw l (refuses b)
  connected w (threw b) = refuses b

module _ {W : Type 0} (opened closed : W → ℕ) (sys : System W) (ledger : Ledger opened closed sys)
    (quiet : Quiet opened closed sys)
    (writable : (s : Socket) (t : Option ℕ) (w : W) → (sys.select_write s t w).0 ≢ minus_one)
    (slept : (n : ℕ) (w : W) → Same opened closed w (sys.usleep n w)) where
  pub connect-Connects :
      (sock : Socket) (host port : String) (usec timeout : ℕ) (w : W)
      → Connects opened closed w (connect sys sock host port usec timeout w)
  unfolding connect
  connect-Connects sock host port usec timeout w =
      let most = calc_retry_count timeout usec in
      connected opened closed sys ledger quiet writable slept host port usec most w
        (loop-Attempted opened closed sys ledger quiet writable slept host port usec most sock w)
