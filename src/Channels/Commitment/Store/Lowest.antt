-- ===== src/Channels/Commitment/Store/Lowest.antt =====
-- `calcIndex` finds the lowest set bit of an index.
use node_lightning.Common.{
  ℕ, zero, suc, ◌+◌, ◌*◌, ◌/◌, ◌%◌, ◌^◌, ◌<◌, ◌≤◌, ◌≡◌, inl, inr, refl, ◌∙◌, ap, subst, ◌==◌,
  bit_and, arith, false, Bool-cases, ==_iff,
}
use node_lightning.Common.Bits.{digit, digit_lem, digit-lt, bit_test, digit-multiple, two_pow_suc}
use node_lightning.Channels.Commitment.Store.{calc_index_loop, calc_index}
use native.Mathlib.Nat.{div-add-mod, mul-mod_right}
use native.Mathlib.Numerals.{add-one}

-- Place `b` is the lowest set bit of `x`, or 48 if there is none among the first 48.
pub record IsLowest (x b : ℕ) : Type 0 where
  pub in_range : b ≤ 48
  pub below : x % 2 ^ b ≡ 0
  pub here : b < 48 → digit b x ≡ 1

next_place : (i x : ℕ) → x % 2 ^ i ≡ 0 → digit i x ≡ 0 → x % 2 ^ (i + 1) ≡ 0
next_place i x h e =
    rw (add-one, two_pow_suc)
      (subst (λ (t : ℕ). t % (2 * 2 ^ i) ≡ 0) whole (mul-mod_right (2 * 2 ^ i) (x / 2 ^ i / 2)))
  where
    even : 2 * (x / 2 ^ i / 2) ≡ x / 2 ^ i
    even = omega (arith, digit_lem i x)

    whole : 2 * 2 ^ i * (x / 2 ^ i / 2) ≡ x
    whole = omega (arith, div-add-mod x (2 ^ i), ap (λ (t : ℕ). 2 ^ i * t) even)

calc_index_loop-IsLowest :
    (left i x : ℕ) → left + i ≡ 48 → x % 2 ^ i ≡ 0 → IsLowest x (calc_index_loop left i x)
unfolding calc_index_loop
calc_index_loop-IsLowest zero i x e h =
    let end : i ≡ 48 = omega arith in
    let place_48 : x % 2 ^ 48 ≡ 0 = subst (λ (n : ℕ). x % 2 ^ n ≡ 0) end h in
    record { in_range = omega arith; below = place_48; here = λ l. absurd (omega arith) }
calc_index_loop-IsLowest (suc left) i x e h = elim (Bool-cases (bit_and x (2 ^ i) == 0)) [
  | inl clear ↦ rw clear (
      calc_index_loop-IsLowest left (i + 1) x (omega arith)
        (next_place i x h ((bit_test i x).0 ((==_iff _ 0).0 clear))))
  | inr found ↦ rw found (record { in_range = omega arith; below = h; here = λ l. digit_set found })
]
  where
    digit_set : (bit_and x (2 ^ i) == 0) ≡ false → digit i x ≡ 1
    digit_set found = ground (arith, digit-lt i x, (bit_test i x).1)

pub calc_index-IsLowest : (x : ℕ) → IsLowest x (calc_index x)
unfolding calc_index
calc_index-IsLowest x = calc_index_loop-IsLowest 48 0 x refl (omega arith)

IsLowest-not-lt : (x b c : ℕ) → IsLowest x b → IsLowest x c → ¬ (b < c)
IsLowest-not-lt x b c h k l = omega (arith, k.in_range, h.here (omega (arith, k.in_range)), clear)
  where
    clear : digit b x ≡ 0
    clear =
        ap (digit b) (let e : x ≡ 2 ^ c * (x / 2 ^ c) = omega (arith, div-add-mod x (2 ^ c)) in e)
        ∙ digit-multiple c b (x / 2 ^ c) l

IsLowest-unique : (x b c : ℕ) → IsLowest x b → IsLowest x c → b ≡ c
IsLowest-unique x b c h k = omega (arith, IsLowest-not-lt x b c h k, IsLowest-not-lt x c b k h)

pub calc_index-eq : (x b : ℕ) → IsLowest x b → calc_index x ≡ b
calc_index-eq x b h = IsLowest-unique x (calc_index x) b (calc_index-IsLowest x) h
