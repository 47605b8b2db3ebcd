-- ===== src/Client/Attempts.antt =====
-- How often the blocking calls try, and what they come to.
use native.Mathlib.Nat.{zero-add}
use stdsc.Base.{
  ℕ, zero, suc, ◌+◌, ◌-◌, ◌≤◌, ◌<◌, ◌≡◌, refl, String, Bool, true, false, arith, ltb, if◌then◌else◌,
  lt→ltb, ◌∙◌, ◌⊎◌, inl, inr, sym,
}
use stdsc.Exec.{
  Exception, socket, reject, Result, ok, throws, running, fault, Exec, ◌>>◌, pure, and_then,
}
use stdsc.System.{System}
use stdsc.Socket.{Socket}
use stdsc.Socket.Setup.{establish_connection}
use stdsc.Client.{send_request, send_request_blocking, check_attempts, connect, conn_timeout_sec}
use stdsc.Client.Retry.{retry_loop, calc_retry_count, is_reject, is_socket}

pub ltb_above : (k n : ℕ) → k ≡ n → ltb k n ≡ false
ltb_above k n e = ground arith

calc_retry_count_subsecond :
    (timeout_sec usec : ℕ) → usec < 1000000 → calc_retry_count timeout_sec usec ≡ 1
unfolding calc_retry_count
calc_retry_count_subsecond t u h = ground arith

-- an outcome after which the loop tries again
abbrev pub is_refused : {A : Type 0} → (Exception → Bool) → Result A → Bool
is_refused caught (ok a) = false
is_refused caught (throws e) = caught e
is_refused caught running = false
is_refused caught fault = false

-- what the loop comes to when an attempt is not refused
abbrev pub finish : {S A : Type 0} → ℕ → Result A × S → Result (ℕ × A) × S
finish n (ok a, s) = (ok (n, a), s)
finish n (throws e, s) = (throws e, s)
finish n (running, s) = (running, s)
finish n (fault, s) = (fault, s)

module _ {S A : Type 0} (caught : Exception → Bool) (sleep : S → S) (attempt : Exec S A) where
  -- `k` attempts from `s` on, each one caught and followed by a sleep, lead to `t`.
  pub data Refused : ℕ → S → S → Type 0 where
    none_yet : {s : S} → Refused zero s s
    once_more :
        {k : ℕ} {s s' t : S} (e : Exception)
        → attempt s ≡ (throws e, s')
        → caught e ≡ true
        → Refused k (sleep s') t
        → Refused (suc k) s t

  loop_round :
      (f max n : ℕ) (cur : A) (s s' : S) (e : Exception)
      → attempt s ≡ (throws e, s')
      → caught e ≡ true
      → n < max
      → retry_loop caught sleep attempt (suc f) max n cur s
        ≡ retry_loop caught sleep attempt f max (n + 1) cur (sleep s')
  unfolding retry_loop
  loop_round f max n cur s s' e h c l = ground arith

  loop_final :
      (f max n : ℕ) (cur : A) (s : S)
      → is_refused caught (attempt s).0 ≡ false
      → n < max
      → retry_loop caught sleep attempt (suc f) max n cur s ≡ finish n (attempt s)
  unfolding retry_loop
  loop_final f max n cur s h l = ground arith

  loop_over :
      (f max n : ℕ) (cur : A) (s : S)
      → max ≤ n
      → retry_loop caught sleep attempt f max n cur s ≡ (ok (n, cur), s)
  unfolding retry_loop
  loop_over zero max n cur s l = ground arith
  loop_over (suc f) max n cur s l = ground arith

  -- After k refused attempts the loop stands where it would start with k attempts fewer.
  loop-Refused :
      (k f max n : ℕ) (cur : A) {s t : S}
      → Refused k s t
      → n + k ≤ max
      → k ≤ f
      → retry_loop caught sleep attempt f max n cur s
        ≡ retry_loop caught sleep attempt (f - k) max (n + k) cur t
  loop-Refused zero f max n cur {s} none_yet h l =
      let a : f - 0 ≡ f = omega arith in let b : n + 0 ≡ n = omega arith in rw (a, b) refl
  loop-Refused (suc k) zero max n cur (once_more e x c r) h l = absurd (omega arith)
  loop-Refused (suc k) (suc f) max n cur {s} (once_more {s' = s'} e x c r) h l =
      let a : suc f - suc k ≡ f - k = omega arith in
      let b : n + suc k ≡ n + 1 + k = omega arith in
      rw (a, b)
        (loop_round f max n cur s s' e x c (omega arith)
          ∙ loop-Refused k f max (n + 1) cur r (omega arith) (omega arith))

  loop-Refused_rest :
      (k max : ℕ) (cur : A) {s t : S}
      → Refused k s t
      → k < max
      → retry_loop caught sleep attempt max max 0 cur s
        ≡ retry_loop caught sleep attempt (suc (max - suc k)) max k cur t
  loop-Refused_rest k max cur r h =
      let a : max - k ≡ suc (max - suc k) = omega arith in
      loop-Refused k max max 0 cur r (omega arith) (omega arith) ∙ rw (a, zero-add k) refl

  pub loop-Refused_final :
      (k max : ℕ) (cur : A) {s : S} (t : S)
      → Refused k s t
      → k < max
      → is_refused caught (attempt t).0 ≡ false
      → retry_loop caught sleep attempt max max 0 cur s ≡ finish k (attempt t)
  loop-Refused_final k max cur t r h e =
      loop-Refused_rest k max cur r h ∙ loop_final (max - suc k) max k cur t e h

  pub loop-Refused_all :
      (k max : ℕ) (cur : A) {s t : S}
      → Refused k s t
      → k ≡ max
      → retry_loop caught sleep attempt max max 0 cur s ≡ (ok (k, cur), t)
  loop-Refused_all k max cur {t = t} r e =
      loop-Refused k max max 0 cur r (omega arith) (omega arith)
      ∙ (let b : 0 + k ≡ k = omega arith in rw b (loop_over (max - k) max k cur t (omega arith)))

after_finish :
    {W A : Type 0} (sys : System W) (k max : ℕ) (message : String) (g : A → Exec W A)
    → ((a : A) (w : W) → g a w ≡ (ok a, w))
    → (r : Result A × W) → k < max
    → and_then
        (finish k r).0
        (λ done. check_attempts sys message max done.0 >> g done.1)
        (finish k r).1
      ≡ r
after_finish sys k max message g same (ok a, w) h = rw (lt→ltb k max h) (same a w)
after_finish sys k max message g same (throws e, w) h = refl
after_finish sys k max message g same (running, w) h = refl
after_finish sys k max message g same (fault, w) h = refl

after_finish_unit :
    {W : Type 0} (sys : System W) (k max : ℕ) (message : String) (r : Result (Unit {0}) × W)
    → k < max
    → and_then (finish k r).0 (λ done. check_attempts sys message max done.0) (finish k r).1 ≡ r
after_finish_unit sys k max message (ok a, w) h = rw (lt→ltb k max h) refl
after_finish_unit sys k max message (throws e, w) h = refl
after_finish_unit sys k max message (running, w) h = refl
after_finish_unit sys k max message (fault, w) h = refl

-- Let k attempts in a row of a blocking request be refused by a reject exception, each followed by a
-- sleep, where k is the number of attempts there are, or less and the attempt after them is not
-- refused so. The call then comes to what this attempt comes to, success or another exception; with
-- no attempt left it throws a socket exception.
pub send_request_blocking_lem :
    {W : Type 0} (sys : System W) (s : Socket) (code usec timeout_sec k : ℕ) (w t : W)
    → Refused is_reject (sys.usleep usec) (send_request sys s code) k w t
    → (k ≡ calc_retry_count timeout_sec usec)
      ⊎ ((k < calc_retry_count timeout_sec usec)
          × (is_refused is_reject (send_request sys s code t).0 ≡ false))
    → send_request_blocking sys s code usec timeout_sec w ≡ (
        if ltb k (calc_retry_count timeout_sec usec)
        then send_request sys s code t
        else (throws (socket "Sending request time out" (sys.errno t)), t))
unfolding send_request_blocking
send_request_blocking_lem sys s code usec timeout_sec k w t r (inl e) =
    rw (loop-Refused_all _ _ _ k (calc_retry_count timeout_sec usec) tt r e)
      (rw (ltb_above k (calc_retry_count timeout_sec usec) e) refl)
send_request_blocking_lem sys s code usec timeout_sec k w t r (inr (l, e)) =
    rw (loop-Refused_final _ _ _ k (calc_retry_count timeout_sec usec) tt t r l e)
      (rw (lt→ltb k _ l) (after_finish_unit sys k _ "Sending request time out" _ l))

-- Let k attempts in a row to connect fail by a socket exception, each followed by a sleep, where k
-- is the number of attempts there are, or less and the attempt after them does not fail so. The
-- client is then left with what this attempt comes to, a socket or another exception; with no
-- attempt left it throws a socket exception.
pub connect_lem :
    {W : Type 0} (sys : System W) (old : Socket) (host port : String) (usec timeout_sec k : ℕ)
    (w t : W)
    → Refused is_socket
        (sys.usleep usec)
        (establish_connection sys host port conn_timeout_sec)
        k
        w
        t
    → (k ≡ calc_retry_count timeout_sec usec)
      ⊎ ((k < calc_retry_count timeout_sec usec)
          × (is_refused is_socket (establish_connection sys host port conn_timeout_sec t).0
              ≡ false))
    → connect sys old host port usec timeout_sec w ≡ (
        if ltb k (calc_retry_count timeout_sec usec)
        then establish_connection sys host port conn_timeout_sec t
        else (throws (socket "Connection time out" (sys.errno t)), t))
unfolding connect
connect_lem sys old host port usec timeout_sec k w t r (inl e) =
    rw (loop-Refused_all _ _ _ k (calc_retry_count timeout_sec usec) old r e)
      (rw (ltb_above k (calc_retry_count timeout_sec usec) e) refl)
connect_lem sys old host port usec timeout_sec k w t r (inr (l, e)) =
    rw (loop-Refused_final _ _ _ k (calc_retry_count timeout_sec usec) old t r l e)
      (rw (lt→ltb k _ l) (after_finish sys k _ "Connection time out" pure (λ a w. refl) _ l))

-- With an interval below a second, a blocking request whose first attempt is rejected throws a
-- socket exception after one sleep, whatever the timeout.
pub send_request_blocking_subsecond :
    {W : Type 0} (sys : System W) (s : Socket) (code usec timeout_sec : ℕ) (message : String)
    (w w' : W)
    → usec < 1000000
    → send_request sys s code w ≡ (throws (reject message), w')
    → send_request_blocking sys s code usec timeout_sec w ≡ (
      throws (socket "Sending request time out" (sys.errno (sys.usleep usec w'))),
      sys.usleep usec w',
    )
send_request_blocking_subsecond sys s code usec timeout_sec message w w' h e =
    let once = calc_retry_count_subsecond timeout_sec usec h in
    send_request_blocking_lem sys s code usec timeout_sec 1 w (sys.usleep usec w')
      (once_more (reject message) e refl none_yet) (inl (sym once))
    ∙ rw (ltb_above 1 _ (sym once)) refl
