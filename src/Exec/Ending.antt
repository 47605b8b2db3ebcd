-- ===== src/Exec/Ending.antt =====
-- Actions that return or throw from every state.
use stdsc.Base.{Bool, true, false, if◌then◌else◌}
use stdsc.Exec.{Exception, Result, ok, throws, running, fault, Exec, ◌>>=◌, and_then}

pub data Ended {A : Type 0} : Result A → Type 0 where
  returned : {a : A} → Ended (ok a)
  threw : {e : Exception} → Ended (throws e)

module _ {S : Type 0} where
  pub record Ends {A : Type 0} (m : Exec S A) : Type 0 where
    pub from : (s : S) → Ended (m s).0

  pub and_then-Ended :
      {A B : Type 0} (r : Result A × S) (f : A → Exec S B)
      → Ended r.0
      → ((a : A) → Ends (f a))
      → Ended (and_then r.0 f r.1).0
  and_then-Ended (ok a, s) f h g = (g a).from s
  and_then-Ended (throws e, s) f h g = threw
  and_then-Ended (running, s) f h g = elim h [ ]
  and_then-Ended (fault, s) f h g = elim h [ ]

  pub >>=-Ends :
      {A B : Type 0} {m : Exec S A} {f : A → Exec S B}
      → Ends m
      → ((a : A) → Ends (f a))
      → Ends (m >>= f)
  >>=-Ends {m} {f} h g = record { from = λ s. and_then-Ended (m s) f (h.from s) g }

  pub if-Ends :
      {A : Type 0} (b : Bool) {m n : Exec S A} → Ends m → Ends n → Ends (if b then m else n)
  if-Ends true h g = h
  if-Ends false h g = g
