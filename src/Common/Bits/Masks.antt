-- ===== src/Common/Bits/Masks.antt =====
-- The laws of masks, fields and shifts, from the digits.
use Prim.Native.Nat.{
  ℕ, zero, suc, ◌+◌, ◌-◌, ◌*◌, ◌/◌, ◌%◌, ◌^◌, ◌≤◌, ◌<◌, min, max, bit_and, bit_or, bit_xor,
  bit_or-bitwise,
}
use mathlib.Core.Path.{◌≡◌, refl, sym, ap, ap₂, ◌∙◌}
use mathlib.Core.Logic.{◌↔◌}
use native.Mathlib.Omega.{arith}
use native.Mathlib.Nat.{div-div-eq-div-mul, div-add-mod, mod-eq_of_lt, suc-add}
use node_lightning.Common.Bits.Halves.{and_halves, or_halves, xor_halves}
use node_lightning.Common.Bits.Digits.{digit, two_pow_suc, two_pow_pos, digit-lt}

-- The same, with the halves computed.
and_peel :
    (a b p q : ℕ) → a / 2 ≡ p → b / 2 ≡ q → bit_and a b ≡ bit_and p q * 2 + min (a % 2) (b % 2)
and_peel a b p q e f = rw (← e, ← f) (and_halves a b)

or_peel : (a b p q : ℕ) → a / 2 ≡ p → b / 2 ≡ q → bit_or a b ≡ bit_or p q * 2 + max (a % 2) (b % 2)
or_peel a b p q e f = rw (← e, ← f) (or_halves a b)

xor_peel : (a b p q : ℕ) → a / 2 ≡ p → b / 2 ≡ q → bit_xor a b ≡ bit_xor p q * 2 + (a + b) % 2
xor_peel a b p q e f = rw (← e, ← f) (xor_halves a b)

and_zero_below : (n a : ℕ) → a ≤ n → bit_and a 0 ≡ 0
and_zero_below zero zero h = refl
and_zero_below zero (suc a) h = absurd (omega arith)
and_zero_below (suc n) a h =
    omega (arith, and_peel a 0 (a / 2) 0 refl refl, and_zero_below n (a / 2) (omega arith))

and_zero : (a : ℕ) → bit_and a 0 ≡ 0
and_zero a = and_zero_below a a (omega arith)

or_zero_below : (n a : ℕ) → a ≤ n → bit_or a 0 ≡ a
or_zero_below zero zero h = refl
or_zero_below zero (suc a) h = absurd (omega arith)
or_zero_below (suc n) a h =
    omega (arith, or_peel a 0 (a / 2) 0 refl refl, or_zero_below n (a / 2) (omega arith))

halve_mod : (a p : ℕ) → a % (2 * p) ≡ a / 2 % p * 2 + a % 2
halve_mod a p = omega (
  arith,
  div-add-mod a (2 * p),
  div-add-mod (a / 2) p,
  ap (λ (t : ℕ). p * t) (div-div-eq-div-mul a 2 p),
)

-- A mask of `k` ones keeps the remainder by `2 ^ k`.
pub bit_and-ones : (k a : ℕ) → bit_and a (2 ^ k - 1) ≡ a % 2 ^ k
bit_and-ones zero a = omega (arith, and_zero a)
bit_and-ones (suc k) a = omega (
  arith,
  two_pow_suc k,
  two_pow_pos k,
  and_peel a (2 ^ suc k - 1) (a / 2) (2 ^ k - 1) refl (omega (arith, two_pow_suc k, two_pow_pos k)),
  bit_and-ones k (a / 2),
  ap (λ (t : ℕ). a % t) (two_pow_suc k),
  halve_mod a (2 ^ k),
)

-- A mask of one digit.
pub bit_and-pow : (k a : ℕ) → bit_and a (2 ^ k) ≡ digit k a * 2 ^ k
unfolding digit
bit_and-pow zero a = omega (arith, and_peel a 1 (a / 2) 0 refl refl, and_zero (a / 2))
bit_and-pow (suc k) a = omega (
  arith,
  and_peel a (2 ^ suc k) (a / 2) (2 ^ k) refl (omega (arith, two_pow_suc k)),
  bit_and-pow k (a / 2),
  ap (λ (t : ℕ). digit k (a / 2) * t) (two_pow_suc k),
)

-- A field above `k` free digits, joined with a field that fits them.
pub bit_or_fields : (k q r : ℕ) → r < 2 ^ k → bit_or (q * 2 ^ k) r ≡ q * 2 ^ k + r
bit_or_fields zero q zero h =
    ap (λ (t : ℕ). bit_or t 0) (let e : q * 1 ≡ q = omega arith in e)
    ∙ omega (arith, or_zero_below q q (omega arith))
bit_or_fields zero q (suc r) h = absurd (omega arith)
bit_or_fields (suc k) q r h = omega (
  arith,
  doubled,
  or_peel (q * 2 ^ suc k) r (q * 2 ^ k) (r / 2) (omega (arith, doubled)) refl,
  bit_or_fields k q (r / 2) (omega (arith, two_pow_suc k)),
)
  where
    doubled : q * 2 ^ suc k ≡ 2 * (q * 2 ^ k)
    doubled = omega (arith, ap (λ (t : ℕ). q * t) (two_pow_suc k))

-- Of two numbers of `k` digits the exclusive or has `k` digits, and undoes itself.
pub bit_xor-lt : (k a b : ℕ) → a < 2 ^ k → b < 2 ^ k → bit_xor a b < 2 ^ k
bit_xor-lt zero zero zero h k = omega arith
bit_xor-lt zero zero (suc b) h k = absurd (omega arith)
bit_xor-lt zero (suc a) b h k = absurd (omega arith)
bit_xor-lt (suc n) a b h k = omega (
  arith,
  two_pow_suc n,
  xor_halves a b,
  bit_xor-lt n (a / 2) (b / 2) (omega (arith, two_pow_suc n)) (omega (arith, two_pow_suc n)),
)

pub bit_xor_cancel : (k a b : ℕ) → a < 2 ^ k → b < 2 ^ k → bit_xor a (bit_xor a b) ≡ b
bit_xor_cancel zero zero zero h k = refl
bit_xor_cancel zero zero (suc b) h k = absurd (omega arith)
bit_xor_cancel zero (suc a) b h k = absurd (omega arith)
bit_xor_cancel (suc n) a b h k = omega (
  arith,
  xor_halves a b,
  xor_peel a (bit_xor a b) (a / 2) (bit_xor (a / 2) (b / 2)) refl (omega (arith, xor_halves a b)),
  bit_xor_cancel n (a / 2) (b / 2) (omega (arith, two_pow_suc n)) (omega (arith, two_pow_suc n)),
)

halve_floor : (b a : ℕ) → a / 2 ^ suc b * 2 ^ suc b ≡ 2 * (a / 2 / 2 ^ b * 2 ^ b)
halve_floor b a = omega (
  arith,
  ap (λ (t : ℕ). a / t * t) (two_pow_suc b),
  ap (λ (t : ℕ). t * (2 * 2 ^ b)) (div-div-eq-div-mul a 2 (2 ^ b)),
)

-- A mask of the ones from place `b` up to `n` clears the lower `b` digits.
pub bit_and-high :
    (b n a : ℕ) → b ≤ n → a < 2 ^ n → bit_and a ((2 ^ n - 1) / 2 ^ b * 2 ^ b) ≡ a / 2 ^ b * 2 ^ b
bit_and-high zero n a h k =
    ap (bit_and a) (let e : (2 ^ n - 1) / 1 * 1 ≡ 2 ^ n - 1 = omega arith in e)
    ∙ bit_and-ones n a
    ∙ omega (arith, mod-eq_of_lt k)
bit_and-high (suc b) zero a h k = absurd (omega arith)
bit_and-high (suc b) (suc n) a h k =
    let mask : ℕ = (2 ^ n - 1) / 2 ^ b * 2 ^ b in
    omega (
      arith,
      halve_floor b a,
      and_peel a ((2 ^ suc n - 1) / 2 ^ suc b * 2 ^ suc b) (a / 2) mask refl
          (omega (arith, doubled)),
      bit_and-high b n (a / 2) (omega arith) (omega (arith, two_pow_suc n)),
      doubled,
    )
  where
    doubled : (2 ^ suc n - 1) / 2 ^ suc b * 2 ^ suc b ≡ 2 * ((2 ^ n - 1) / 2 ^ b * 2 ^ b)
    doubled =
        halve_floor b (2 ^ suc n - 1)
        ∙ ap (λ (t : ℕ). 2 * (t / 2 ^ b * 2 ^ b)) (omega (arith, two_pow_suc n, two_pow_pos n))

pub bit_or_comm : (a b : ℕ) → bit_or a b ≡ bit_or b a
bit_or_comm a b = or_comm_below a a b (omega arith)
  where
    or_comm_below : (n a b : ℕ) → a ≤ n → bit_or a b ≡ bit_or b a
    or_comm_below zero zero b h =
        let e : bit_or 0 b ≡ b = bit_or-bitwise 0 b in
        e ∙ omega (arith, or_zero_below b b (omega arith))
    or_comm_below zero (suc a) b h = absurd (omega arith)
    or_comm_below (suc n) a b h =
        omega (arith, or_halves a b, or_halves b a, or_comm_below n (a / 2) (b / 2) (omega arith))

-- The digits of a number above place `b` are those of its quotient by `2 ^ b`.
pub digit_shift : (b k a : ℕ) → digit (b + k) a ≡ digit k (a / 2 ^ b)
unfolding digit
digit_shift zero k a =
    ap₂ digit (let e : 0 + k ≡ k = omega arith in e) (let e : a ≡ a / 1 = omega arith in e)
digit_shift (suc b) k a = rw suc-add (digit_shift b k (a / 2) ∙ ap (digit k) quotients)
  where
    quotients : a / 2 / 2 ^ b ≡ a / 2 ^ suc b
    quotients = div-div-eq-div-mul a 2 (2 ^ b) ∙ ap (λ (t : ℕ). a / t) (sym (two_pow_suc b))

-- A multiple of `2 ^ b` has no digit below place `b`.
pub digit-multiple : (b k q : ℕ) → k < b → digit k (2 ^ b * q) ≡ 0
unfolding digit
digit-multiple zero k q h = absurd (omega arith)
digit-multiple (suc b) zero q h = omega (arith, ap (λ (t : ℕ). t * q) (two_pow_suc b))
digit-multiple (suc b) (suc k) q h =
    ap (digit k) (omega (arith, ap (λ (t : ℕ). t * q) (two_pow_suc b)))
    ∙ digit-multiple b k q (omega arith)

-- A mask of one digit tests that digit.
pub bit_test : (i a : ℕ) → (bit_and a (2 ^ i) ≡ 0) ↔ (digit i a ≡ 0)
bit_test i a = (
  λ e. cancel (digit i a) (2 ^ i) (two_pow_pos i) (digit-lt i a) (sym (bit_and-pow i a) ∙ e),
  λ e. bit_and-pow i a ∙ ap (λ (d : ℕ). d * 2 ^ i) e ∙ omega arith,
)
  where
    cancel : (d p : ℕ) → 1 ≤ p → d < 2 → d * p ≡ 0 → d ≡ 0
    cancel zero p h k e = refl
    cancel (suc zero) p h k e = absurd (omega arith)
    cancel (suc (suc d)) p h k e = absurd (omega arith)
