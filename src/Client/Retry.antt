-- ===== src/Client/Retry.antt =====
-- stdsc/stdsc_client.cpp: the number of attempts, and the loop that makes them.
use stdsc.Base.{ℕ, zero, suc, ◌+◌, ◌/◌, Bool, true, false, ◌==◌, ltb, if◌then◌else◌}
use stdsc.Exec.{Exception, socket, reject, ok, throws, running, fault, Exec}

-- A `uint32_t` division rounds down; an interval below a second counts as no seconds.
unfoldable pub calc_retry_count : ℕ → ℕ → ℕ
calc_retry_count timeout_sec retry_interval_usec =
    let retry_interval_sec = retry_interval_usec / 1000000 in
    if retry_interval_sec == 0 then 1 else timeout_sec / retry_interval_sec

-- the exceptions that the two kinds of loops catch
abbrev pub is_reject : Exception → Bool
is_reject (reject message) = true
is_reject _ = false

abbrev pub is_socket : Exception → Bool
is_socket (socket message code) = true
is_socket _ = false

module _ {S A : Type 0} (caught : Exception → Bool) (sleep : S → S) (attempt : Exec S A) where
  -- `while (!is_success && max_retry_count > retry_count)`, with what the last success assigned.
  -- Each round that goes on raises `retry_count`, so `max_retry_count` rounds are enough.
  unfoldable pub retry_loop : ℕ → ℕ → ℕ → A → Exec S (ℕ × A)
  retry_loop zero max_retry_count retry_count current s =
      if ltb retry_count max_retry_count then (running, s) else (ok (retry_count, current), s)
  retry_loop (suc f) max_retry_count retry_count current s =
      let (r, s') = attempt s in
      elim (ltb retry_count max_retry_count) [
        | false ↦ (ok (retry_count, current), s)
        | true ↦ elim r [
          | ok a ↦ (ok (retry_count, a), s')
          | throws e ↦ elim (caught e) [
            | true ↦ retry_loop f max_retry_count (retry_count + 1) current (sleep s')
            | false ↦ (throws e, s')
          ]
          | running ↦ (running, s')
          | fault ↦ (fault, s')
        ]
      ]
