-- ===== src/Base/Bits.antt =====
-- `bit_and` with a mask of one digit: shifting the mask is halving the other number.
use Prim.Native.Nat.{ℕ, zero, suc, ◌+◌, ◌*◌, ◌/◌, ◌%◌, ◌≤◌, min, bit_and, digits, bit_and-bitwise}
use mathlib.Core.Path.{◌≡◌, refl, sym, ◌∙◌}
use native.Mathlib.Omega.{arith}

abbrev common : ℕ → ℕ → ℕ → ℕ
common rounds = digits (λ _. 0) min rounds

-- Any number of rounds that covers the first argument computes `bit_and`.
rounds_enough :
    (bound rounds : ℕ) (x y : ℕ) → x ≤ rounds → rounds ≤ bound → common rounds x y ≡ bit_and x y
rounds_enough bound zero zero y h k = sym (bit_and-bitwise 0 y)
rounds_enough bound zero (suc x) y h k = absurd (omega arith)
rounds_enough bound (suc r) zero y h k = sym (bit_and-bitwise 0 y)
rounds_enough zero (suc r) (suc x) y h k = absurd (omega arith)
rounds_enough (suc bound) (suc r) (suc x) y h k =
    let more = rounds_enough bound r (suc x / 2) (y / 2) (omega arith) (omega arith) in
    let fewer = rounds_enough bound x (suc x / 2) (y / 2) (omega arith) (omega arith) in
    let whole = bit_and-bitwise (suc x) y in omega (arith, more, fewer, whole)

-- The lowest digit, and the others.
lowest_digit : (x y : ℕ) → bit_and x y ≡ min (x % 2) (y % 2) + 2 * bit_and (x / 2) (y / 2)
lowest_digit zero y =
    let none = bit_and-bitwise 0 y in
    let still_none = bit_and-bitwise 0 (y / 2) in omega (arith, none, still_none)
lowest_digit (suc x) y =
    let rest = rounds_enough x x (suc x / 2) (y / 2) (omega arith) (omega arith) in
    let whole = bit_and-bitwise (suc x) y in omega (arith, rest, whole)

no_digit : (bound x : ℕ) → x ≤ bound → bit_and x 0 ≡ 0
no_digit zero x h = let low = lowest_digit 0 0 in let e : x ≡ 0 = omega arith in rw e refl
no_digit (suc bound) x h =
    let rest = no_digit bound (x / 2) (omega arith) in omega (arith, rest, lowest_digit x 0)

pub bit_and-one : (a : ℕ) → bit_and a 1 ≡ a % 2
bit_and-one a =
    let rest = no_digit (a / 2) (a / 2) (omega arith) in omega (arith, rest, lowest_digit a 1)

-- A mask of one more low zero looks at the next digit.
pub bit_and-double : (a b : ℕ) → bit_and a (b * 2) ≡ bit_and (a / 2) b * 2
bit_and-double a b =
    let half : b * 2 / 2 ≡ b = omega arith in
    let shifted = lowest_digit a (b * 2) in rw half at shifted ∙ omega arith
