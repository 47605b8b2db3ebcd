-- ===== src/AddServer/Descriptors.antt =====
-- The descriptor of the example client, over its whole run.
use stdsc.Base.{ℕ, ◌≤◌, ◌<◌, ◌^◌, ◌+◌, ◌≡◌, ◌≢◌, refl, ◌∙◌, String, Option, none, some, [], arith}
use stdsc.Exec.{Exception, Result, ok, throws, running, fault, Exec, ◌>>=◌, ◌>>◌, and_then}
use stdsc.Exec.Ending.{Ended, returned, threw}
use stdsc.System.{System, minus_one, nonneg}
use stdsc.Packet.{Bytes, packet_size}
use stdsc.Packet.Codec.{encode, length-encode}
use stdsc.Socket.{Socket, time_infinite}
use stdsc.Socket.Ending.{Responds}
use stdsc.Socket.Frame.{Untouched}
use stdsc.Socket.Setup.Descriptors.{Ledger, Same}
use stdsc.Socket.Setup.Establishing.{Quiet}
use stdsc.Client.{Filling, close, send_data_blocking, send_request_blocking, recv_data_blocking}
use stdsc.Client.Ending.{
  send_data_blocking-Ends, send_request_blocking-Ends, recv_data_blocking-Ends,
}
use stdsc.Client.Frame.{
  send_data_blocking-Preserves, send_request_blocking-Preserves, recv_data_blocking-Preserves,
}
use stdsc.Client.Descriptors.{Balanced, Connects, connects, refuses, connect-Connects}
use stdsc.AddServer.Callbacks.{
  load, code_value_a, code_value_b, code_request_compute, code_download_result,
}
use stdsc.AddServer.Client.{
  retry_interval_usec, filled_buffer, into_buffer, number_of, exchange, unwound, run,
}

-- What receiving, sending and sleeping do to the counts: nothing.
pub record Moving {W : Type 0} (opened closed : W → ℕ) (sys : System W) : Type 0 where
  pub on_recv : (s : Socket) (n : ℕ) (w : W) → Same opened closed w (sys.recv s n w).1
  pub on_send : (s : Socket) (bytes : Bytes) (w : W) → Same opened closed w (sys.send s bytes w).1
  pub on_usleep : (n : ℕ) (w : W) → Same opened closed w (sys.usleep n w)

module _ {W : Type 0} (opened closed : W → ℕ) where
  -- what the run of a client comes to
  pub data Finished (w : W) : Result ℕ × W → Type 0 where
    finished : {x : ℕ} {w' : W} → Balanced opened closed w w' → Finished w (ok x, w')
    gave_up : {e : Exception} {w' : W} → Balanced opened closed w w' → Finished w (throws e, w')
    overran : {w' : W} → Balanced opened closed w w' → Finished w (fault, w')

module _ {W : Type 0} (opened closed : W → ℕ) (sys : System W) (ledger : Ledger opened closed sys)
    (moving : Moving opened closed sys) where
  -- the counts as they stand in `v`
  abbrev Unchanged : W → W → Type 0
  Unchanged v w = Same opened closed v w

  untouched : (s : Socket) (v : W) → Untouched sys s (Unchanged v)
  untouched s v = record {
    after_recv = λ n w p. ((moving.on_recv s n w).0 ∙ p.0, (moving.on_recv s n w).1 ∙ p.1);
    after_send = λ b w p. ((moving.on_send s b w).0 ∙ p.0, (moving.on_send s b w).1 ∙ p.1);
    after_select_read =
        λ t w p. ((ledger.on_select_read s t w).0 ∙ p.0, (ledger.on_select_read s t w).1 ∙ p.1);
  }

  slept : (v : W) (n : ℕ) (w : W) → Unchanged v w → Unchanged v (sys.usleep n w)
  slept v n w p = ((moving.on_usleep n w).0 ∙ p.0, (moving.on_usleep n w).1 ∙ p.1)

  filled-keeps :
      (P : W → Type 0) (r : Result (Unit {0}) × Filling sys) → P r.1.1 → P (filled_buffer sys r).1
  filled-keeps P (ok _, f) p = p
  filled-keeps P (throws e, f) p = p
  filled-keeps P (running, f) p = p
  filled-keeps P (fault, f) p = p

  filled-Ended : (r : Result (Unit {0}) × Filling sys) → Ended r.0 → Ended (filled_buffer sys r).0
  filled-Ended (ok _, f) h = returned
  filled-Ended (throws e, f) h = threw
  filled-Ended (running, f) h = elim h [ ]
  filled-Ended (fault, f) h = elim h [ ]

  module _ (n : ℕ) (from v : W) (h : opened v + closed from ≡ opened from + closed v + 1) where
    abbrev Unwound : Result ℕ × W → Type 0
    Unwound r = Finished opened closed from (unwound sys (nonneg n) r)

    then-Finished :
        {A : Type 0} (r : Result A × W) (f : A → Exec W ℕ)
        → Unchanged v r.1
        → Ended r.0
        → ((a : A) (w : W) → Unchanged v w → Unwound (f a w))
        → Unwound (and_then r.0 f r.1)
    unfolding close stdsc.Socket.close_socket
    then-Finished (ok a, w) f p ended g = g a w p
    then-Finished (throws e, w) f p ended g = gave_up (omega (arith, h, p, ledger.on_close n w))
    then-Finished (running, w) f p ended g = elim ended [ ]
    then-Finished (fault, w) f p ended g = elim ended [ ]

    closed-Finished :
        (number : Option ℕ) (w : W)
        → Unchanged v w
        → Unwound ((close sys (nonneg n) >> number_of sys number) w)
    unfolding close stdsc.Socket.close_socket
    closed-Finished none w p = overran (omega (arith, h, p, ledger.on_close n w))
    closed-Finished (some x) w p = finished (omega (arith, h, p, ledger.on_close n w))

    module _ (responds : Responds sys (nonneg n)) (rounds : packet_size ≤ sys.write_rounds) where
      -- one message of the client
      sent-Finished :
          (code value : ℕ) (f : Unit {0} → Exec W ℕ) (w : W)
          → code < 2 ^ 64
          → Unchanged v w
          → ((a : Unit {0}) (w : W) → Unchanged v w → Unwound (f a w))
          → Unwound (
              (send_data_blocking sys
                    (nonneg n)
                    code
                    (encode 4 value)
                    retry_interval_usec
                    time_infinite
                  >>= f)
                w)
      sent-Finished code value f w c p next =
          then-Finished
            (send_data_blocking sys (nonneg n) code (encode 4 value) retry_interval_usec
              time_infinite w)
            f
            ((send_data_blocking-Preserves sys (Unchanged v) (nonneg n) (untouched (nonneg n) v)
                (slept v) code (encode 4 value) _ _).after
              w p)
            ((send_data_blocking-Ends sys (nonneg n) responds rounds code _ _ c (encode 4 value)
                (omega (arith, length-encode 4 value, rounds))).from
              w)
            next

      result-Finished :
          (w : W)
          → Unchanged v w
          → Unwound (
              (do
                result ← into_buffer sys (
                    recv_data_blocking sys
                      (nonneg n)
                      code_download_result
                      retry_interval_usec
                      time_infinite)
                close sys (nonneg n)
                number_of sys (load result 0))
                w)
      result-Finished w p =
          let got =
            recv_data_blocking sys (nonneg n) code_download_result retry_interval_usec time_infinite
              ([], w) in
          then-Finished (filled_buffer sys got) _
            (filled-keeps (Unchanged v) got (
              (recv_data_blocking-Preserves sys (Unchanged v) (nonneg n) (untouched (nonneg n) v)
                  (slept v) code_download_result _ _).after
                ([], w) p))
            (filled-Ended got (
              (recv_data_blocking-Ends sys (nonneg n) responds rounds code_download_result _ _
                  (omega arith)).from
                ([], w)))
            (λ result w'. closed-Finished (load result 0) w')

      exchange-Finished : (va vb : ℕ) → Unwound (exchange sys (nonneg n) va vb v)
      unfolding exchange
      exchange-Finished va vb =
          sent-Finished code_value_a va _ v (omega arith) (refl, refl)
            (λ _ w₁ p₁. sent-Finished code_value_b vb _ w₁ (omega arith) p₁ (λ _ w₂ p₂.
              then-Finished (send_request_blocking sys (nonneg n) code_request_compute _ _ w₂) _
                ((send_request_blocking-Preserves sys (Unchanged v) (nonneg n)
                    (untouched (nonneg n) v) (slept v) code_request_compute _ _).after
                  w₂ p₂)
                ((send_request_blocking-Ends sys (nonneg n) responds rounds code_request_compute _ _
                    (omega arith)).from
                  w₂)
                (λ _ w₃. result-Finished w₃)))

  connected-Finished :
      ((s : Socket) → Responds sys s)
      → packet_size ≤ sys.write_rounds
      → (va vb : ℕ) (w : W) {r : Result Socket × W} → Connects opened closed w r
      → Finished opened closed w (and_then r.0 (λ s v. unwound sys s (exchange sys s va vb v)) r.1)
  connected-Finished responds rounds va vb w (connects {n} {w' = v} h) =
      exchange-Finished n w v h (responds (nonneg n)) rounds va vb
  connected-Finished responds rounds va vb w (refuses b) = gave_up b

  -- Where the calls of the system count the descriptors that they open and close (Ledger, Quiet,
  -- Moving), a `select` for writing never fails, each `select` for reading, `recv` and `send`
  -- returns and a `send` that does not fail takes a byte at least (Responds), and `write` has enough
  -- rounds for a packet: the run of the example client, for any two values and whatever else the
  -- calls of the system return, comes to an end, so that none of its own loops goes on for ever. It
  -- returns a result, throws an exception, or reads beyond a result that is too short, and in each
  -- case as many descriptors are closed as opened.
  pub run-Finished :
      (quiet : Quiet opened closed sys)
      (writable : (s : Socket) (t : Option ℕ) (w : W) → (sys.select_write s t w).0 ≢ minus_one)
      (responds : (s : Socket) → Responds sys s) (rounds : packet_size ≤ sys.write_rounds)
      (host port : String) (va vb : ℕ) (w : W)
      → Finished opened closed w (run sys host port va vb w)
  unfolding run
  run-Finished quiet writable responds rounds host port va vb w =
      connected-Finished responds rounds va vb w (
        connect-Connects opened closed sys ledger quiet writable moving.on_usleep minus_one host
          port _ _ w)
