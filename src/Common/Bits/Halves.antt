-- ===== src/Common/Bits/Halves.antt =====
-- Bit operations at variables: the lowest digit of the result, and the rest of it.
use Prim.Native.Nat.{
  ℕ, zero, suc, ◌+◌, ◌*◌, ◌/◌, ◌%◌, ◌≤◌, ◌<◌, min, max, digits, bitwise, differ, bit_and, bit_or,
  bit_xor, bit_and-bitwise, bit_or-bitwise, bit_xor-bitwise,
}
use mathlib.Core.Path.{◌≡◌, refl, ◌∙◌}
use native.Mathlib.Omega.{arith}

-- The fuel of `digits` does not matter once it reaches the first number.
module _ (z : ℕ → ℕ) (f : ℕ → ℕ → ℕ) where
  enough_digits : (m n a b : ℕ) → a ≤ m → a ≤ n → digits z f m a b ≡ digits z f n a b
  enough_digits zero zero zero b h k = refl
  enough_digits zero zero (suc a) b h k = absurd (omega arith)
  enough_digits zero (suc n) zero b h k = refl
  enough_digits zero (suc n) (suc a) b h k = absurd (omega arith)
  enough_digits (suc m) zero zero b h k = refl
  enough_digits (suc m) zero (suc a) b h k = absurd (omega arith)
  enough_digits (suc m) (suc n) zero b h k = refl
  enough_digits (suc m) (suc n) (suc a) b h k =
      omega (arith, enough_digits m n (suc a / 2) (b / 2) (omega arith) (omega arith))

  peel :
      (a b : ℕ)
      → bitwise z f (suc a) b ≡ bitwise z f (suc a / 2) (b / 2) * 2 + f (suc a % 2) (b % 2)
  peel a b =
      omega (arith, enough_digits a (suc a / 2) (suc a / 2) (b / 2) (omega arith) (omega arith))

-- The lowest digit of each operation, and the rest of it.
pub and_halves : (a b : ℕ) → bit_and a b ≡ bit_and (a / 2) (b / 2) * 2 + min (a % 2) (b % 2)
and_halves zero b = omega (arith, bit_and-bitwise 0 b, bit_and-bitwise 0 (b / 2))
and_halves (suc a) b =
    bit_and-bitwise (suc a) b
    ∙ peel (λ _. 0) min a b
    ∙ omega (arith, bit_and-bitwise (suc a / 2) (b / 2))

pub or_halves : (a b : ℕ) → bit_or a b ≡ bit_or (a / 2) (b / 2) * 2 + max (a % 2) (b % 2)
or_halves zero b = omega (arith, bit_or-bitwise 0 b, bit_or-bitwise 0 (b / 2))
or_halves (suc a) b =
    bit_or-bitwise (suc a) b
    ∙ peel (λ y. y) max a b
    ∙ omega (arith, bit_or-bitwise (suc a / 2) (b / 2))

differ_digits : (x y : ℕ) → x < 2 → y < 2 → differ x y ≡ (x + y) % 2
differ_digits zero y h k = omega arith
differ_digits (suc zero) zero h k = omega arith
differ_digits (suc zero) (suc zero) h k = omega arith
differ_digits (suc zero) (suc (suc y)) h k = absurd (omega arith)
differ_digits (suc (suc x)) y h k = absurd (omega arith)

pub xor_halves : (a b : ℕ) → bit_xor a b ≡ bit_xor (a / 2) (b / 2) * 2 + (a + b) % 2
xor_halves zero b = omega (arith, bit_xor-bitwise 0 b, bit_xor-bitwise 0 (b / 2))
xor_halves (suc a) b =
    bit_xor-bitwise (suc a) b
    ∙ peel (λ y. y) differ a b
    ∙ omega (
      arith,
      bit_xor-bitwise (suc a / 2) (b / 2),
      differ_digits (suc a % 2) (b % 2) (omega arith) (omega arith),
    )
