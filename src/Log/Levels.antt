-- ===== src/Log/Levels.antt =====
-- The levels that the logger is left with.
use stdsc.Base.{
  ◌≡◌, refl, Bool, true, false, Bool-cases, inl, inr, Option, none, some, arith, if◌then◌else◌,
}
use stdsc.Base.Int.{ℤ, pos, negsuc, ltb_ℤ, leb_ℤ}
use stdsc.Packet.{Bytes}
use stdsc.Utility.{Host, getenv, isdigit}
use stdsc.Log.{level_num, level_of, or_default, read_env, get_instance}

-- the levels of the enumeration, and no level
abbrev pub IsLevel : Option ℤ → Type 0
IsLevel none = Unit {0}
IsLevel (some l) = (leb_ℤ (pos 0) l ≡ true) × (ltb_ℤ l level_num ≡ true)

or_default-IsLevel : (x : ℤ) → IsLevel (or_default (level_of (some x)))
or_default-IsLevel (pos n) = elim (Bool-cases (ltb_ℤ (pos n) level_num)) [
  | inl e ↦ (ground (arith, e), ground (arith, e))
  | inr e ↦ (ground (arith, e), ground (arith, e))
]
or_default-IsLevel (negsuc n) = (ground arith, ground arith)

module _ {W : Type 0} (host : Host W) (level_env : Bytes) (stoi : Bytes → Option ℤ) where
  -- Whatever the environment holds, the logger is left with a level of the enumeration, unless
  -- std::stoi throws.
  pub get_instance-IsLevel : (w : W) → IsLevel (get_instance host level_env stoi w)
  unfolding get_instance read_env
  get_instance-IsLevel w = go (isdigit (getenv host level_env w)) (stoi (getenv host level_env w))
    where
      go :
          (digits : Bool) (x : Option ℤ)
          → IsLevel (or_default (if digits then level_of x else some (negsuc 0)))
      go false x = (refl, refl)
      go true none = tt
      go true (some x) = or_default-IsLevel x
