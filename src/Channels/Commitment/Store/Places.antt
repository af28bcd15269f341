-- ===== src/Channels/Commitment/Store/Places.antt =====
-- Arithmetic of indices by the place of their lowest set bit.
use node_lightning.Common.{
  ℕ, zero, suc, ◌+◌, ◌-◌, ◌*◌, ◌/◌, ◌%◌, ◌^◌, ◌<◌, ◌≤◌, ◌≡◌, ◌⊎◌, inl, inr, refl, ◌∙◌, ap, ap₂, sym,
  arith,
}
use node_lightning.Common.Bits.{digit, digit_lem, digit-lt, two_pow_suc, two_pow_pos}
use node_lightning.Channels.Commitment.Store.{calc_index}
use node_lightning.Channels.Commitment.Store.Lowest.{calc_index-eq}
use native.Mathlib.Nat.{
  div-add-mod, mul-mod_right, mul-mod_left, div-eq_of_eq-mul_right, div-eq_of_eq-mul_left,
  div-div-eq-div-mul, div-eq_of_lt-le, pow-le-pow_right, mul-le-mul_left, lt_of_mul-lt-mul_left,
  mul_comm, zero-add, suc-add, mul_assoc,
}
use native.Mathlib.Numerals.{add-one}

pub two_pow_add : (b d : ℕ) → 2 ^ (b + d) ≡ 2 ^ b * 2 ^ d
two_pow_add zero d = rw zero-add (omega arith)
two_pow_add (suc b) d = rw (suc-add, two_pow_suc, two_pow_suc, two_pow_add b d, mul_assoc)

-- A multiple `m` of 2^top, and the place `b` below `top`: the number m + 2^b has its lowest set bit
-- there.
pub calc_index-add :
    (m top b : ℕ) → top ≤ 48 → m % 2 ^ top ≡ 0 → b < top → calc_index (m + 2 ^ b) ≡ b
calc_index-add m top b t h l = calc_index-eq (m + 2 ^ b) b (record {
  in_range = omega arith;
  below = rw product (mul-mod_right (2 ^ b) (2 * (2 ^ (top - b - 1) * (m / 2 ^ top)) + 1));
  here = λ _. digit_lem b (m + 2 ^ b) ∙ rw quotient (omega arith);
})
  where
    top_split : 2 ^ top ≡ 2 ^ b * (2 * 2 ^ (top - b - 1))
    top_split =
        ap (λ (n : ℕ). 2 ^ n) (let e : top ≡ b + suc (top - b - 1) = omega arith in e)
        ∙ two_pow_add b (suc (top - b - 1))
        ∙ ap (λ (n : ℕ). 2 ^ b * n) (two_pow_suc (top - b - 1))

    product : m + 2 ^ b ≡ 2 ^ b * (2 * (2 ^ (top - b - 1) * (m / 2 ^ top)) + 1)
    product = omega (arith, div-add-mod m (2 ^ top), ap (λ (n : ℕ). n * (m / 2 ^ top)) top_split)

    quotient : (m + 2 ^ b) / 2 ^ b ≡ 2 * (2 ^ (top - b - 1) * (m / 2 ^ top)) + 1
    quotient = div-eq_of_eq-mul_right (two_pow_pos b) product

doubled-le : (b top : ℕ) → b < top → 2 ^ b + 2 ^ b ≤ 2 ^ top
doubled-le b top l =
    let e : 2 ^ suc b ≤ 2 ^ top = pow-le-pow_right (omega arith) l in omega (arith, two_pow_suc b)

-- Up to there the bits from `top` on are those of `m`.
pub same_upper :
    (m top b x : ℕ) → m % 2 ^ top ≡ 0 → b < top → m < x → x ≤ m + 2 ^ b → x / 2 ^ top ≡ m / 2 ^ top
same_upper m top b x h l lo hi =
    let multiple = div-add-mod m (2 ^ top) in
    div-eq_of_lt-le (2 ^ top) (omega (arith, multiple))
      (omega (arith, multiple, doubled-le b top l))

-- Within 48 bits there is room for it.
pub add-lt : (m top b : ℕ) → top ≤ 48 → m % 2 ^ top ≡ 0 → b < top → m < 2 ^ 48 → m + 2 ^ b < 2 ^ 48
add-lt m top b t h l k = omega (
  arith,
  multiple,
  whole,
  doubled-le b top l,
  two_pow_pos b,
  next_multiple (2 ^ top) (m / 2 ^ top) (2 ^ (48 - top)) (omega (arith, multiple, whole)),
)
  where
    multiple : 2 ^ top * (m / 2 ^ top) + m % 2 ^ top ≡ m
    multiple = div-add-mod m (2 ^ top)

    exponents : top + (48 - top) ≡ 48
    exponents = omega arith

    whole : 2 ^ top * 2 ^ (48 - top) ≡ 2 ^ 48
    whole = sym (two_pow_add top (48 - top)) ∙ ap (λ (n : ℕ). 2 ^ n) exponents

    next_multiple : (p q r : ℕ) → p * q < p * r → p * (q + 1) ≤ p * r
    next_multiple p q r h = rw add-one (mul-le-mul_left p (lt_of_mul-lt-mul_left p h))

-- An index without its lower `b` bits.
unfoldable pub floor : ℕ → ℕ → ℕ
floor i b = i / 2 ^ b * 2 ^ b

pub floor_facts :
    (i b : ℕ) → (floor i b % 2 ^ b ≡ 0) × (floor i b / 2 ^ b ≡ i / 2 ^ b) × (floor i b ≤ i)
unfolding floor
floor_facts i b = (
  mul-mod_left (i / 2 ^ b) (2 ^ b),
  div-eq_of_eq-mul_left (two_pow_pos b) refl,
  omega (arith, div-add-mod i (2 ^ b)),
)

-- The next floor: the same one, if bit `b` is clear, and else lower by 2^b; then `b` is the place of
-- the floor's lowest set bit.
pub floor_next :
    (i b : ℕ)
    → ((digit b i ≡ 0) × (floor i (b + 1) ≡ floor i b))
      ⊎ ((digit b i ≡ 1) × (floor i (b + 1) + 2 ^ b ≡ floor i b))
unfolding floor
floor_next i b = split (digit b i) refl (digit-lt b i)
  where
    halved : i / 2 ^ (b + 1) * 2 ^ (b + 1) ≡ i / 2 ^ b / 2 * (2 * 2 ^ b)
    halved = rw add-one (
        ap (λ (t : ℕ). i / t * t) (two_pow_suc b ∙ mul_comm 2 (2 ^ b))
        ∙ ap₂ (λ (s t : ℕ). s * t) (sym (div-div-eq-div-mul i (2 ^ b) 2)) (mul_comm (2 ^ b) 2))

    split :
        (d : ℕ)
        → digit b i ≡ d
        → d < 2
        → ((digit b i ≡ 0) × (i / 2 ^ (b + 1) * 2 ^ (b + 1) ≡ i / 2 ^ b * 2 ^ b))
          ⊎ ((digit b i ≡ 1) × (i / 2 ^ (b + 1) * 2 ^ (b + 1) + 2 ^ b ≡ i / 2 ^ b * 2 ^ b))
    split zero e h =
        let even : i / 2 ^ b ≡ 2 * (i / 2 ^ b / 2) = omega (arith, digit_lem b i) in
        inl (e, omega (arith, halved, ap (λ (t : ℕ). t * 2 ^ b) even))
    split (suc zero) e h =
        let odd : i / 2 ^ b ≡ 2 * (i / 2 ^ b / 2) + 1 = omega (arith, digit_lem b i) in
        inr (e, omega (arith, halved, ap (λ (t : ℕ). t * 2 ^ b) odd))
    split (suc (suc d)) e h = absurd (omega arith)

pub calc_index-floor : (i b : ℕ) → b ≤ 48 → (b < 48 → digit b i ≡ 1) → calc_index (floor i b) ≡ b
calc_index-floor i b h set =
    let (low, quotient, below) = floor_facts i b in
    calc_index-eq (floor i b) b (record {
      in_range = h;
      below = low;
      here = λ l.
          digit_lem b (floor i b) ∙ ap (λ (t : ℕ). t % 2) quotient ∙ sym (digit_lem b i) ∙ set l;
    })

-- Two multiples of 2^b lie at least 2^b apart.
pub multiple_gap : (b x y : ℕ) → x % 2 ^ b ≡ 0 → y % 2 ^ b ≡ 0 → x < y → x + 2 ^ b ≤ y
multiple_gap b x y h k l = omega (arith, multiple_x, multiple_y, gap)
  where
    multiple_x : 2 ^ b * (x / 2 ^ b) + x % 2 ^ b ≡ x
    multiple_x = div-add-mod x (2 ^ b)

    multiple_y : 2 ^ b * (y / 2 ^ b) + y % 2 ^ b ≡ y
    multiple_y = div-add-mod y (2 ^ b)

    gap : 2 ^ b * (x / 2 ^ b + 1) ≤ 2 ^ b * (y / 2 ^ b)
    gap = rw add-one (
        mul-le-mul_left (2 ^ b)
          (lt_of_mul-lt-mul_left (2 ^ b) (omega (arith, multiple_x, multiple_y))))
