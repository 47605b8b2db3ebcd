-- ===== src/Client/Blocking.antt =====
-- What the blocking calls that move data come to.
use stdsc.Base.{ℕ, ◌<◌, ◌≡◌, ◌⊎◌, inl, inr, refl, String, false, ltb, if◌then◌else◌, lt→ltb}
use stdsc.Exec.{socket, Result, ok, throws, running, fault, Exec, and_then}
use stdsc.System.{System}
use stdsc.Packet.{Bytes}
use stdsc.Socket.{Socket}
use stdsc.Client.{
  Filling, on_system, check_attempts, send_data, recv_data, send_recv_data, sleep_filling,
  send_data_blocking, recv_data_blocking, send_recv_data_blocking,
}
use stdsc.Client.Retry.{retry_loop, calc_retry_count, is_reject}
use stdsc.Client.Attempts.{
  Refused, is_refused, finish, loop-Refused_final, loop-Refused_all, ltb_above,
}

module _ {S : Type 0} (attempt : Exec S (Unit {0})) (sleep : S → S)
    (give_up : S → Result (Unit {0}) × S) (test : ℕ → ℕ → Exec S (Unit {0}))
    (passes : (k max : ℕ) (s : S) → k < max → test max k s ≡ (ok tt, s))
    (stops : (k max : ℕ) (s : S) → k ≡ max → test max k s ≡ give_up s) where
  test_finish :
      (k max : ℕ) (r : Result (Unit {0}) × S)
      → k < max
      → and_then (finish k r).0 (λ done. test max done.0) (finish k r).1 ≡ r
  test_finish k max (ok a, s) h = passes k max s h
  test_finish k max (throws e, s) h = refl
  test_finish k max (running, s) h = refl
  test_finish k max (fault, s) h = refl

  -- a loop that retries after rejections, and the test after it
  pub retry_lem :
      (k max : ℕ) (s t : S)
      → Refused is_reject sleep attempt k s t
      → (k ≡ max) ⊎ ((k < max) × (is_refused is_reject (attempt t).0 ≡ false))
      → let r = retry_loop is_reject sleep attempt max max 0 tt s in
        and_then r.0 (λ done. test max done.0) r.1 ≡ (if ltb k max then attempt t else give_up t)
  retry_lem k max s t r (inl e) =
      rw (loop-Refused_all is_reject sleep attempt k max tt r e)
        (rw (ltb_above k max e) (stops k max t e))
  retry_lem k max s t r (inr (l, e)) =
      rw (loop-Refused_final is_reject sleep attempt k max tt t r l e)
        (rw (lt→ltb k max l) (test_finish k max (attempt t) l))

module _ {W : Type 0} (sys : System W) where
  passes :
      (message : String) (k max : ℕ) (w : W)
      → k < max
      → check_attempts sys message max k w ≡ (ok tt, w)
  passes message k max w h = rw (lt→ltb k max h) refl

  stops :
      (message : String) (k max : ℕ) (w : W)
      → k ≡ max
      → check_attempts sys message max k w ≡ (throws (socket message (sys.errno w)), w)
  stops message k max w h = rw (ltb_above k max h) refl

  -- Let k attempts in a row be refused by a reject exception, each followed by a sleep, where k is
  -- the number of attempts there are, or less and the attempt after them is not refused so. Sending
  -- data then comes to what the attempt after them comes to; with no attempt left it throws a socket
  -- exception.
  pub send_data_blocking_lem :
      (code usec timeout_sec k : ℕ) (buffer : Bytes) (s : Socket) (w t : W)
      → Refused is_reject (sys.usleep usec) (send_data sys s code buffer) k w t
      → (k ≡ calc_retry_count timeout_sec usec)
        ⊎ ((k < calc_retry_count timeout_sec usec)
            × (is_refused is_reject (send_data sys s code buffer t).0 ≡ false))
      → send_data_blocking sys s code buffer usec timeout_sec w ≡ (
          if ltb k (calc_retry_count timeout_sec usec)
          then send_data sys s code buffer t
          else (throws (socket "Sending data time out" (sys.errno t)), t))
  unfolding send_data_blocking
  send_data_blocking_lem code usec timeout_sec k buffer s w t r e =
      retry_lem (send_data sys s code buffer) (sys.usleep usec)
        (λ w. (throws (socket "Sending data time out" (sys.errno w)), w))
        (check_attempts sys "Sending data time out") (passes "Sending data time out")
        (stops "Sending data time out") k (calc_retry_count timeout_sec usec) w t r e

  timed_out : Filling sys → Result (Unit {0}) × Filling sys
  timed_out (buffer, w) = (throws (socket "Receiving data time out" (sys.errno w)), (buffer, w))

  filling_passes :
      (k max : ℕ) (f : Filling sys)
      → k < max
      → on_system sys (check_attempts sys "Receiving data time out" max k) f ≡ (ok tt, f)
  filling_passes k max (buffer, w) h = rw (lt→ltb k max h) refl

  filling_stops :
      (k max : ℕ) (f : Filling sys)
      → k ≡ max
      → on_system sys (check_attempts sys "Receiving data time out" max k) f ≡ timed_out f
  unfolding timed_out
  filling_stops k max (buffer, w) h = rw (ltb_above k max h) refl

  -- Let k attempts in a row be refused by a reject exception, each followed by a sleep, where k is
  -- the number of attempts there are, or less and the attempt after them is not refused so.
  -- Receiving data then comes to what the attempt after them comes to, with its buffer; with no
  -- attempt left it throws a socket exception and the buffer is what the refused attempts have left.
  pub recv_data_blocking_lem :
      (code usec timeout_sec k : ℕ) (s : Socket) (f t : Filling sys)
      → Refused is_reject (sleep_filling sys usec) (recv_data sys s code) k f t
      → (k ≡ calc_retry_count timeout_sec usec)
        ⊎ ((k < calc_retry_count timeout_sec usec)
            × (is_refused is_reject (recv_data sys s code t).0 ≡ false))
      → recv_data_blocking sys s code usec timeout_sec f ≡ (
          if ltb k (calc_retry_count timeout_sec usec)
          then recv_data sys s code t
          else (throws (socket "Receiving data time out" (sys.errno t.1)), t))
  unfolding recv_data_blocking timed_out
  recv_data_blocking_lem code usec timeout_sec k s f t r e =
      retry_lem (recv_data sys s code) (sleep_filling sys usec) timed_out
        (λ max k. on_system sys (check_attempts sys "Receiving data time out" max k)) filling_passes
        filling_stops k (calc_retry_count timeout_sec usec) f t r e

  -- Let k attempts in a row be refused by a reject exception, each followed by a sleep, where k is
  -- the number of attempts there are, or less and the attempt after them is not refused so. Sending
  -- and receiving data then comes to what the attempt after them comes to, with its buffer; with no
  -- attempt left it throws a socket exception and the buffer is what the refused attempts have left.
  pub send_recv_data_blocking_lem :
      (code usec timeout_sec k : ℕ) (sbuffer : Bytes) (s : Socket) (f t : Filling sys)
      → Refused is_reject (sleep_filling sys usec) (send_recv_data sys s code sbuffer) k f t
      → (k ≡ calc_retry_count timeout_sec usec)
        ⊎ ((k < calc_retry_count timeout_sec usec)
            × (is_refused is_reject (send_recv_data sys s code sbuffer t).0 ≡ false))
      → send_recv_data_blocking sys s code sbuffer usec timeout_sec f ≡ (
          if ltb k (calc_retry_count timeout_sec usec)
          then send_recv_data sys s code sbuffer t
          else (throws (socket "Receiving data time out" (sys.errno t.1)), t))
  unfolding send_recv_data_blocking timed_out
  send_recv_data_blocking_lem code usec timeout_sec k sbuffer s f t r e =
      retry_lem (send_recv_data sys s code sbuffer) (sleep_filling sys usec) timed_out
        (λ max k. on_system sys (check_attempts sys "Receiving data time out" max k)) filling_passes
        filling_stops k (calc_retry_count timeout_sec usec) f t r e
