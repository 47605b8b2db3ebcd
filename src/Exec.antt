-- ===== src/Exec.antt =====
-- stdsc/stdsc_exception.hpp: the exceptions that the library throws, and the actions that throw
-- them. What was written before an exception stays written, so the state comes back beside it.
pub mod Preserving
pub mod Ending
use stdsc.Base.{ℕ, String, Bool, true, false, ◌≡◌, refl}

-- The classes below `AbstractException`. `socket` carries its message and its `errno`.
pub data Exception : Type 0 where
  socket : String → ℕ → Exception
  invariant : String → Exception
  callback : String → Exception
  reject : String → Exception
  failure : String → Exception
  file : String → Exception
  inv_param : String → Exception

-- `running` is a loop that is still going when the rounds that it is followed for are over, or a call of
-- the system that never returns, and `fault` an access to memory that is not there, after which C++ promises nothing.
pub data Result {ℓ} (A : Type ℓ) : Type ℓ where
  ok : A → Result A
  throws : Exception → Result A
  running : Result A
  fault : Result A

abbrev pub Exec : Type 0 → Type 0 → Type 0
Exec S A = S → Result A × S

module _ {S A : Type 0} where
  abbrev pub pure : A → Exec S A
  pure a s = (ok a, s)

  abbrev pub throw : Exception → Exec S A
  throw e s = (throws e, s)

module _ {S A B : Type 0} where
  abbrev pub and_then : Result A → (A → Exec S B) → Exec S B
  and_then (ok a) f s = f a s
  and_then (throws e) f s = (throws e, s)
  and_then running f s = (running, s)
  and_then fault f s = (fault, s)

  infixl 10 ◌>>=◌ ◌>>◌
  abbrev pub ◌>>=◌ : Exec S A → (A → Exec S B) → Exec S B
  ◌>>=◌ m f s = and_then (m s).0 f (m s).1

  abbrev pub ◌>>◌ : Exec S A → Exec S B → Exec S B
  m >> n = m >>= λ _. n

-- STDSC_IF_CHECK and its likes
abbrev pub check : {S : Type 0} → Bool → Exception → Exec S (Unit {0})
check true e = pure tt
check false e = throw e

module _ {S A B C : Type 0} (n : A → Exec S B) (k : B → Exec S C) where
  and_then_assoc :
      (r : Result A) (s : S)
      → and_then r (λ a. n a >>= k) s ≡ and_then (and_then r n s).0 k (and_then r n s).1
  and_then_assoc (ok a) s = refl
  and_then_assoc (throws e) s = refl
  and_then_assoc running s = refl
  and_then_assoc fault s = refl

  pub >>=_assoc : (m : Exec S A) (s : S) → (m >>= λ a. n a >>= k) s ≡ ((m >>= n) >>= k) s
  >>=_assoc m s = and_then_assoc (m s).0 (m s).1
