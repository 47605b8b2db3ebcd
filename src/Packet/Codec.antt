-- ===== src/Packet/Codec.antt =====
-- Unsigned integers as little-endian bytes.
use stdsc.Base.{
  ℕ, zero, suc, ◌+◌, ◌*◌, ◌/◌, ◌%◌, ◌^◌, ◌<◌, ◌≡◌, refl, ap, List, [], ◌∷◌, arith, length,
}
use native.Mathlib.Nat.{pow-suc}

unfoldable pub encode : ℕ → ℕ → List ℕ
encode zero n = []
encode (suc k) n = (n % 256) ∷ encode k (n / 256)

unfoldable pub decode : List ℕ → ℕ
decode [] = 0
decode (b ∷ bs) = b + 256 * decode bs

pub length-encode : (k n : ℕ) → length (encode k n) ≡ k
unfolding encode
length-encode zero n = refl
length-encode (suc k) n = ap suc (length-encode k (n / 256))

pub decode-encode : (k n : ℕ) → n < 256 ^ k → decode (encode k n) ≡ n
unfolding encode decode
decode-encode zero n h = omega arith
decode-encode (suc k) n h = omega (arith, decode-encode k (n / 256) (omega (arith, pow-suc 256 k)))
