-- ===== src/Exec/Preserving.antt =====
-- Predicates on the state that an action keeps, whatever its result.
use stdsc.Base.{Bool, true, false, if◌then◌else◌}
use stdsc.Exec.{Exception, Result, ok, throws, running, fault, Exec, ◌>>=◌, and_then, check}

module _ {S : Type 0} (Q : S → Type 0) where
  pub record Preserves {A : Type 0} (m : Exec S A) : Type 0 where
    pub after : (s : S) → Q s → Q (m s).1

  pub and_then-Preserves :
      {A B : Type 0} (r : Result A × S) (f : A → Exec S B)
      → ((a : A) → Preserves (f a))
      → Q r.1
      → Q (and_then r.0 f r.1).1
  and_then-Preserves (ok a, s) f g h = (g a).after s h
  and_then-Preserves (throws e, s) f g h = h
  and_then-Preserves (running, s) f g h = h
  and_then-Preserves (fault, s) f g h = h

  pub >>=-Preserves :
      {A B : Type 0} {m : Exec S A} {f : A → Exec S B}
      → Preserves m
      → ((a : A) → Preserves (f a))
      → Preserves (m >>= f)
  >>=-Preserves {m} {f} h g = record { after = λ s q. and_then-Preserves (m s) f g (h.after s q) }

  -- an action that leaves the state as it was
  pub same-Preserves : {A : Type 0} (r : Result A) → Preserves (λ s. (r, s))
  same-Preserves r = record { after = λ s q. q }

  pub check-Preserves : (b : Bool) (e : Exception) → Preserves (check b e)
  check-Preserves true e = record { after = λ s q. q }
  check-Preserves false e = record { after = λ s q. q }

  pub if-Preserves :
      {A : Type 0} (b : Bool) {m n : Exec S A}
      → Preserves m
      → Preserves n
      → Preserves (if b then m else n)
  if-Preserves true h g = h
  if-Preserves false h g = g
