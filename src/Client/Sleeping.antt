-- ===== src/Client/Sleeping.antt =====
-- How long a blocking call of a client sleeps between its attempts.
use native.Mathlib.Nat.{div-add-mod', mul-le-mul_left, mul-le-mul_right}
use stdsc.Base.{
  ℕ, zero, suc, ◌+◌, ◌*◌, ◌/◌, ◌≤◌, ◌<◌, ◌≡◌, refl, Bool, true, false, ltb, String, arith, ◌==◌,
  if◌then◌else◌,
}
use stdsc.Exec.{Exception, Result, ok, throws, running, fault, Exec, ◌>>=◌, and_then}
use stdsc.Exec.Preserving.{and_then-Preserves}
use stdsc.System.{System}
use stdsc.Packet.{Bytes}
use stdsc.Socket.{Socket, socket_check}
use stdsc.Socket.Frame.{Untouched, socket_check-Preserves}
use stdsc.Client.Retry.{calc_retry_count, is_reject, retry_loop}
use stdsc.Client.Rounds.{Next, retry_loop-induction}
use stdsc.Client.Frame.{
  send_request-Preserves, send_data-Preserves, recv_data-Preserves, send_recv_data-Preserves,
}
use stdsc.Client.{
  Filling, sleep_filling, send_request, send_data, recv_data, send_recv_data, send_request_blocking,
  send_data_blocking, recv_data_blocking, send_recv_data_blocking,
}

-- so many attempts with a sleep after each one, by the whole seconds of the interval
most_lem :
    (t u q : ℕ)
    → u < (q + 1) * 1000000
    → (if q == 0 then 1 else (t / q)) * u < (2 * t + 1) * 1000000
most_lem t u zero h = omega arith
most_lem t u (suc q) h =
    let m = t / suc q in
    let one : u ≤ 2000000 * suc q = omega (arith, h) in
    let longer : m * u ≤ m * (2000000 * suc q) = mul-le-mul_left m one in
    let some_seconds : (suc q == 0) ≡ false = ground arith in
    rw some_seconds (omega (arith, longer, div-add-mod' t (suc q)))

calc_retry_count-bound :
    (timeout_sec usec : ℕ)
    → calc_retry_count timeout_sec usec * usec < (2 * timeout_sec + 1) * 1000000
unfolding calc_retry_count
calc_retry_count-bound t u = most_lem t u (u / 1000000) (omega arith)

module _ {S : Type 0} (slept : S → ℕ) where
  -- whatever it comes to, an action does not sleep
  abbrev Wakeful : {A : Type 0} → Exec S A → Type 0
  Wakeful m = (s : S) → slept (m s).1 ≡ slept s

  module _ {A : Type 0} (caught : Exception → Bool) (usec : ℕ) (sleep : S → S) (attempt : Exec S A)
      (slow : (s : S) → slept (sleep s) ≡ slept s + usec) (quick : Wakeful attempt) where
    module _ (most : ℕ) (from : S) where
      abbrev After : ℕ → S → Type 0
      After n s = (slept s ≤ slept from + n * usec) × (n ≤ most)

      abbrev Within : Result (ℕ × A) × S → Type 0
      Within r = slept r.1 ≤ slept from + most * usec

      in_time : (n : ℕ) (s : S) → After n s → slept s ≤ slept from + most * usec
      in_time n s h =
          let fewer : n * usec ≤ most * usec = mul-le-mul_right usec h.1 in
          omega (arith, h.0, fewer)

      next :
          (n : ℕ) (s : S) (r : Result A × S)
          → ltb n most ≡ true
          → After n s
          → slept r.1 ≡ slept s
          → Next caught sleep attempt After Within n r
      next n s (ok a, s') l h e = rw e (in_time n s h)
      next n s (throws e', s') l h e =
          ((λ _. (omega (arith, h.0, slow s', e), ground (arith, l))), (λ _. rw e (in_time n s h)))
      next n s (running, s') l h e = rw e (in_time n s h)
      next n s (fault, s') l h e = rw e (in_time n s h)

    loop-slept :
        (most : ℕ) (current : A) (s : S)
        → slept (retry_loop caught sleep attempt most most 0 current s).1 ≤ slept s + most * usec
    loop-slept most current s =
        retry_loop-induction caught sleep attempt (After most s) (Within most s) most current
          (λ n s' _ h. in_time most s n s' h) (λ n s' l h. next most s n s' _ l h (quick s')) most 0
          s (omega arith) (omega arith, omega arith)

    -- a blocking call: the loop, and what follows it
    call-slept :
        (timeout_sec : ℕ) (current : A) (f : ℕ × A → Exec S (Unit {0})) (s : S)
        → ((a : ℕ × A) → Wakeful (f a))
        → let most = calc_retry_count timeout_sec usec in
          slept ((retry_loop caught sleep attempt most most 0 current >>= f) s).1
          < slept s + (2 * timeout_sec + 1) * 1000000
    call-slept timeout_sec current f s h =
        let most = calc_retry_count timeout_sec usec in
        let done = retry_loop caught sleep attempt most most 0 current s in
        let waited : slept done.1 ≤ slept s + most * usec = loop-slept most current s in
        let soon : slept (and_then done.0 f done.1).1 ≤ slept s + most * usec =
          and_then-Preserves (λ v. slept v ≤ slept s + most * usec) done f
            (λ a. record { after = λ v q. omega (arith, q, h a v) }) waited in
        omega (arith, soon, calc_retry_count-bound timeout_sec usec)

-- What a call with this timeout has slept: less than twice the timeout and a second.
abbrev pub SoonAfter : ℕ → ℕ → ℕ → Type 0
SoonAfter timeout_sec before after = after < before + (2 * timeout_sec + 1) * 1000000

-- `slept` counts what `usleep` is told, and the calls on the socket leave it.
pub record Clock {W : Type 0} (sys : System W) (s : Socket) (slept : W → ℕ) : Type 0 where
  pub asleep : (n : ℕ) (w : W) → slept (sys.usleep n w) ≡ slept w + n
  pub awake : (n : ℕ) → Untouched sys s (λ w. slept w ≡ n)

module _ {W : Type 0} (sys : System W) (s : Socket) (slept : W → ℕ) (clock : Clock sys s slept)
    (code usec timeout_sec : ℕ) where
  abbrev slept_filling : Filling sys → ℕ
  slept_filling f = slept f.1

  checked : (b : Bool) (m : String) → Wakeful slept (socket_check sys b m)
  checked b m w =
      (socket_check-Preserves sys s (λ v. slept v ≡ slept w) (clock.awake (slept w)) b m).after w
        refl

  -- Where a count of the microseconds slept grows by what `usleep` is told and stays as it is under
  -- the `recv`, `send` and `select` of the socket (Clock): each of the four blocking calls of a
  -- client (send a request, send data, receive data, send and receive data), with any code, buffer,
  -- interval and timeout and from any state, sleeps less than twice its timeout and one second in
  -- all, whatever its attempts come to.
  pub blocking-SoonAfter :
      (buffer : Bytes) (w : W) (f : Filling sys)
      → SoonAfter timeout_sec
          (slept w)
          (slept (send_request_blocking sys s code usec timeout_sec w).1)
        × SoonAfter timeout_sec
            (slept w)
            (slept (send_data_blocking sys s code buffer usec timeout_sec w).1)
        × SoonAfter timeout_sec
            (slept f.1)
            (slept (recv_data_blocking sys s code usec timeout_sec f).1.1)
        × SoonAfter timeout_sec
            (slept f.1)
            (slept (send_recv_data_blocking sys s code buffer usec timeout_sec f).1.1)
  unfolding send_request_blocking send_data_blocking recv_data_blocking send_recv_data_blocking
  blocking-SoonAfter buffer w f = (
    call-slept slept is_reject usec (sys.usleep usec) (send_request sys s code)
        (λ v. clock.asleep usec v)
        (λ v.
          (send_request-Preserves sys (λ x. slept x ≡ slept v) s (clock.awake (slept v)) code).after
            v refl)
        timeout_sec tt _ w (λ done v. checked _ "Sending request time out" v),
    call-slept slept is_reject usec (sys.usleep usec) (send_data sys s code buffer)
        (λ v. clock.asleep usec v)
        (λ v.
          (send_data-Preserves sys (λ x. slept x ≡ slept v) s (clock.awake (slept v)) code
              buffer).after
            v refl)
        timeout_sec tt _ w (λ done v. checked _ "Sending data time out" v),
    call-slept slept_filling is_reject usec (sleep_filling sys usec) (recv_data sys s code)
        (λ v. clock.asleep usec v.1)
        (λ v.
          (recv_data-Preserves sys (λ x. slept x ≡ slept v.1) s (clock.awake (slept v.1))
              code).after
            v refl)
        timeout_sec tt _ f (λ done v. checked _ "Receiving data time out" v.1),
    call-slept slept_filling is_reject usec (sleep_filling sys usec)
        (send_recv_data sys s code buffer) (λ v. clock.asleep usec v.1)
        (λ v.
          (send_recv_data-Preserves sys (λ x. slept x ≡ slept v.1) s (clock.awake (slept v.1)) code
              buffer).after
            v refl)
        timeout_sec tt _ f (λ done v. checked _ "Receiving data time out" v.1),
  )
