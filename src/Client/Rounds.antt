-- ===== src/Client/Rounds.antt =====
-- Induction along the rounds of a loop of attempts.
use stdsc.Base.{ℕ, zero, suc, ◌+◌, ◌≤◌, ◌≡◌, refl, Bool, true, false, ltb, arith}
use stdsc.Exec.{Exception, Result, ok, throws, running, fault, Exec}
use stdsc.Client.Retry.{retry_loop}

module _ {S A : Type 0} (caught : Exception → Bool) (sleep : S → S) (attempt : Exec S A)
    (Inv : ℕ → S → Type 0) (Out : Result (ℕ × A) × S → Type 0) where
  -- What an attempt has to come to: what it ends the loop with is an outcome, and the state in which
  -- the next attempt is made is one of the loop after so many attempts.
  abbrev pub Next : ℕ → Result A × S → Type 0
  Next n (ok a, s) = Out (ok (n, a), s)
  Next n (throws e, s) =
      (caught e ≡ true → Inv (n + 1) (sleep s)) × (caught e ≡ false → Out (throws e, s))
  Next n (running, s) = Out (running, s)
  Next n (fault, s) = Out (fault, s)

  module _ (most : ℕ) (current : A)
      (over : (n : ℕ) (s : S) → ltb n most ≡ false → Inv n s → Out (ok (n, current), s))
      (tried : (n : ℕ) (s : S) → ltb n most ≡ true → Inv n s → Next n (attempt s)) where
    abbrev rest : ℕ → ℕ → S → Result (ℕ × A) × S
    rest f n s = retry_loop caught sleep attempt f most n current s

    abbrev caught_rest : ℕ → ℕ → Exception → S → Bool → Result (ℕ × A) × S
    caught_rest f n e s b = elim b [ true ↦ rest f (n + 1) (sleep s) | false ↦ (throws e, s) ]

    -- the rest of a round
    abbrev round : ℕ → ℕ → S → Bool → Result A × S → Result (ℕ × A) × S
    round f n s goes r = elim goes [
      | false ↦ (ok (n, current), s)
      | true ↦ elim r.0 [
        | ok a ↦ (ok (n, a), r.1)
        | throws e ↦ caught_rest f n e r.1 (caught e)
        | running ↦ (running, r.1)
        | fault ↦ (fault, r.1)
      ]
    ]

    after_throw :
        (f n : ℕ) (e : Exception) (s : S) (b : Bool)
        → caught e ≡ b
        → ((s : S) → Inv (n + 1) s → Out (rest f (n + 1) s))
        → Next n (throws e, s)
        → Out (caught_rest f n e s b)
    after_throw f n e s true c next h = next (sleep s) (h.0 c)
    after_throw f n e s false c next h = h.1 c

    after_round :
        (f n : ℕ) (s : S) (goes : Bool) (r : Result A × S)
        → ltb n most ≡ goes
        → ((s : S) → Inv (n + 1) s → Out (rest f (n + 1) s))
        → Inv n s
        → (goes ≡ true → Next n r)
        → Out (round f n s goes r)
    after_round f n s false r l next i h = over n s l i
    after_round f n s true (ok a, s') l next i h = h refl
    after_round f n s true (throws e, s') l next i h =
        after_throw f n e s' (caught e) refl next (h refl)
    after_round f n s true (running, s') l next i h = h refl
    after_round f n s true (fault, s') l next i h = h refl

    pub retry_loop-induction :
        (f n : ℕ) (s : S)
        → most ≤ f + n
        → Inv n s
        → Out (retry_loop caught sleep attempt f most n current s)
    unfolding retry_loop
    retry_loop-induction zero n s h i =
        let e : ltb n most ≡ false = ground (arith, h) in rw e (over n s e i)
    retry_loop-induction (suc f) n s h i =
        after_round f n s (ltb n most) (attempt s) refl
          (λ s'. retry_loop-induction f (n + 1) s' (omega (arith, h))) i (λ e. tried n s e i)
