-- ===== src/Peer/BitField/Flags.antt =====
-- Which bits `flags` lists, and what the other operations do to a bit.
use node_lightning.Common.{
  ℕ, zero, suc, ◌+◌, ◌-◌, ◌^◌, ◌<◌, ◌≤◌, ◌≡◌, refl, sym, ap, ◌∙◌, subst, arith, Bool, true, false,
  Bool-cases, inl, inr, ltb, leb, ◌==◌, ==_iff, ==_refl, leb→le, ne→==_false, ltb→lt, ltb→le,
  lt→ltb, le→ltb, ◌&&◌, ◌||◌, if◌then◌else◌, bit_and, List, [], ◌∷◌,
}
use native.Mathlib.Nat.{zero-add, suc-add}
use node_lightning.Common.Bits.{two_pow_suc}
use node_lightning.Peer.BitField.{BitField, is_set, flags, flags_loop}

unfoldable pub contains : ℕ → List ℕ → Bool
contains i [] = false
contains i (x ∷ xs) = x == i || contains i xs

bit_below_power : (n : ℕ) → n < 2 ^ n
bit_below_power zero = omega arith
bit_below_power (suc n) = rw two_pow_suc (omega (arith, bit_below_power n))

power_le : (i k : ℕ) → 2 ^ i ≤ 2 ^ (k + i)
power_le i zero = rw zero-add (omega arith)
power_le i (suc k) = rw (suc-add, two_pow_suc) (omega (arith, power_le i k))

power_mono : (bit i : ℕ) → bit ≤ i → 2 ^ bit ≤ 2 ^ i
power_mono bit i h = subst (λ (n : ℕ). 2 ^ bit ≤ 2 ^ n) whole (power_le bit (i - bit))
  where
    whole : i - bit + bit ≡ i
    whole = omega (arith, h)

and_false : (x : Bool) → (x && false) ≡ false
and_false true = refl
and_false false = refl

-- Whether the loop lists a bit from its place on: it is set, and its power is below the value.
abbrev listed : ℕ → ℕ → Bool
listed value i = ltb 0 (bit_and value (2 ^ i)) && ltb (2 ^ i) value

beyond : (bit value i : ℕ) → value ≤ 2 ^ bit → (leb bit i && listed value i) ≡ false
beyond bit value i h = elim (Bool-cases (leb bit i)) [
  | inl at ↦
      rw (at, le→ltb (2 ^ i) value (omega (arith, h, power_mono bit i (leb→le bit i at))))
        (and_false _)
  | inr before ↦ rw before refl
]

take_bit :
    (i bit b : ℕ) (rest : List ℕ)
    → contains i (if b == 0 then rest else bit ∷ rest) ≡ ((bit == i && ltb 0 b) || contains i rest)
unfolding contains
take_bit i bit zero rest = rw (and_false (bit == i)) refl
take_bit i bit (suc b) rest =
    rw (ne→==_false (suc b) 0 (λ e. omega (arith, e)), lt→ltb 0 (suc b) (omega arith))
      (ap (λ t. t || contains i rest) (sym (and_true (bit == i))))
  where
    and_true : (x : Bool) → (x && true) ≡ x
    and_true true = refl
    and_true false = refl

same_bit : (x y : Bool) → y ≡ true → ((true && x) || (false && (x && y))) ≡ (true && (x && y))
same_bit true true e = refl
same_bit false y e = refl
same_bit true false e = cc

next_bit :
    (bit value i : ℕ)
    → 2 ^ bit < value
    → ((bit == i && ltb 0 (bit_and value (2 ^ bit))) || (leb (bit + 1) i && listed value i))
      ≡ (leb bit i && listed value i)
next_bit bit value i h = elim (Bool-cases (bit == i)) [
  | inl same ↦
      subst
        (λ (j : ℕ).
          ((bit == j && ltb 0 (bit_and value (2 ^ bit))) || (leb (bit + 1) j && listed value j))
          ≡ (leb bit j && listed value j))
        ((==_iff bit i).0 same)
        (rw (==_refl, past, here)
          (same_bit (ltb 0 (bit_and value (2 ^ bit))) (ltb (2 ^ bit) value) (lt→ltb _ _ h)))
  | inr other ↦ rw (other, shifted other) refl
]
  where
    past : leb (bit + 1) bit ≡ false
    past = ground arith

    here : leb bit bit ≡ true
    here = ground arith

    shifted : (bit == i) ≡ false → leb (bit + 1) i ≡ leb bit i
    shifted other = ground arith

flags_loop-contains :
    (left bit value i : ℕ)
    → value ≤ left + bit
    → contains i (flags_loop left bit value) ≡ (leb bit i && listed value i)
unfolding contains flags_loop
flags_loop-contains zero bit value i h =
    sym (beyond bit value i (omega (arith, h, bit_below_power bit)))
flags_loop-contains (suc left) bit value i h = elim (Bool-cases (ltb (2 ^ bit) value)) [
  | inl more ↦
      ap (contains i) (goes_on more)
      ∙ (take_bit i bit (bit_and value (2 ^ bit)) (flags_loop left (bit + 1) value)
          ∙ ap (λ t. (bit == i && ltb 0 (bit_and value (2 ^ bit))) || t)
              (flags_loop-contains left (bit + 1) value i (omega arith))
          ∙ next_bit bit value i (ltb→lt _ _ more))
  | inr done ↦ ap (contains i) (stops done) ∙ sym (beyond bit value i (ltb→le _ _ done))
]
  where
    goes_on :
        ltb (2 ^ bit) value ≡ true
        → flags_loop (suc left) bit value ≡ (
            if bit_and value (2 ^ bit) == 0
            then flags_loop left (bit + 1) value
            else bit ∷ flags_loop left (bit + 1) value)
    goes_on more = rw (more, flags_loop) refl

    stops : ltb (2 ^ bit) value ≡ false → flags_loop (suc left) bit value ≡ []
    stops done = rw (done, flags_loop) refl

-- The flags of a field are its bits that are set and whose power of two is below the value: the only
-- bit of a value that is a power of two is set, and is not among them.
pub flags-contains :
    (f : BitField) (i : ℕ) → contains i (flags f) ≡ (is_set i f && ltb (2 ^ i) f.value)
unfolding flags is_set
flags-contains f i =
    flags_loop-contains f.value 0 f.value i (omega arith) ∙ ap (λ t. t && listed f.value i) start
  where
    start : leb 0 i ≡ true
    start = ground arith
