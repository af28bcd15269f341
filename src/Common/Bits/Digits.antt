-- ===== src/Common/Bits/Digits.antt =====
-- The binary digits of a number, and of the results of bit operations.
use Prim.Native.Nat.{
  ℕ, zero, suc, ◌+◌, ◌*◌, ◌/◌, ◌%◌, ◌^◌, ◌≤◌, ◌<◌, min, max, bit_and, bit_or, bit_xor,
}
use mathlib.Core.Path.{◌≡◌, ap, ◌∙◌}
use native.Mathlib.Omega.{arith}
use native.Mathlib.Nat.{pow-suc, mul_comm, div-div-eq-div-mul, one-le-pow}
use node_lightning.Common.Bits.Halves.{and_halves, or_halves, xor_halves}

-- The binary digit at a position.
unfoldable pub digit : ℕ → ℕ → ℕ
digit zero a = a % 2
digit (suc i) a = digit i (a / 2)

pub two_pow_suc : (k : ℕ) → 2 ^ suc k ≡ 2 * 2 ^ k
two_pow_suc k = pow-suc 2 k ∙ mul_comm (2 ^ k) 2

pub two_pow_pos : (k : ℕ) → 1 ≤ 2 ^ k
two_pow_pos k = one-le-pow k 2 (omega arith)

pub digit_lem : (i a : ℕ) → digit i a ≡ a / 2 ^ i % 2
unfolding digit
digit_lem zero a = omega arith
digit_lem (suc i) a =
    digit_lem i (a / 2)
    ∙ ap (λ (t : ℕ). t % 2) (div-div-eq-div-mul a 2 (2 ^ i) ∙ ap (λ (t : ℕ). a / t) flip)
  where
    flip : 2 * 2 ^ i ≡ 2 ^ suc i
    flip = omega (arith, two_pow_suc i)

pub digit-lt : (i a : ℕ) → digit i a < 2
unfolding digit
digit-lt zero a = omega arith
digit-lt (suc i) a = digit-lt i (a / 2)

pub digit-bit_and : (i a b : ℕ) → digit i (bit_and a b) ≡ min (digit i a) (digit i b)
unfolding digit
digit-bit_and zero a b = omega (arith, and_halves a b)
digit-bit_and (suc i) a b =
    ap (digit i)
      (let e : bit_and a b / 2 ≡ bit_and (a / 2) (b / 2) = omega (arith, and_halves a b) in e)
    ∙ digit-bit_and i (a / 2) (b / 2)

pub digit-bit_or : (i a b : ℕ) → digit i (bit_or a b) ≡ max (digit i a) (digit i b)
unfolding digit
digit-bit_or zero a b = omega (arith, or_halves a b)
digit-bit_or (suc i) a b =
    ap (digit i)
      (let e : bit_or a b / 2 ≡ bit_or (a / 2) (b / 2) = omega (arith, or_halves a b) in e)
    ∙ digit-bit_or i (a / 2) (b / 2)

pub digit-bit_xor : (i a b : ℕ) → digit i (bit_xor a b) ≡ (digit i a + digit i b) % 2
unfolding digit
digit-bit_xor zero a b = omega (arith, xor_halves a b)
digit-bit_xor (suc i) a b =
    ap (digit i)
      (let e : bit_xor a b / 2 ≡ bit_xor (a / 2) (b / 2) = omega (arith, xor_halves a b) in e)
    ∙ digit-bit_xor i (a / 2) (b / 2)

-- Two numbers of at most `k` digits are equal if their digits are.
pub digit_ext : (k a b : ℕ) → a < 2 ^ k → b < 2 ^ k → ((i : ℕ) → digit i a ≡ digit i b) → a ≡ b
unfolding digit
digit_ext zero a b h k e = omega arith
digit_ext (suc n) a b h k e = omega (
  arith,
  e 0,
  digit_ext n (a / 2) (b / 2) (omega (arith, two_pow_suc n)) (omega (arith, two_pow_suc n))
      (λ i. e (suc i)),
)
