-- ===== src/Channels/Commitment/Secret/Prefix.antt =====
-- A later secret is a prefix of the earlier ones: what BOLT 3 builds the compact storage on.
use node_lightning.Common.{
  ℕ, zero, suc, ◌+◌, ◌-◌, ◌*◌, ◌/◌, ◌%◌, ◌^◌, ◌≤◌, ◌≡◌, refl, ◌∙◌, ap, subst, sym, bit_and, arith,
  List,
}
use node_lightning.Common.Bits.{digit, bit_and-pow, digit_shift, digit-multiple}
use node_lightning.Channels.Commitment.Secret.{derive_bit, derive}
use native.Mathlib.Nat.{zero-add, suc-add, add_comm, div-add-mod}

-- Above place `b` two numbers with the same quotient by `2 ^ b` have the same digits.
digit_of_quotients : (b k x y : ℕ) → x / 2 ^ b ≡ y / 2 ^ b → digit (k + b) x ≡ digit (k + b) y
digit_of_quotients b k x y e =
    rw (add_comm k b) (digit_shift b k x ∙ ap (digit k) e ∙ sym (digit_shift b k y))

module _ (sha256 : List ℕ → List ℕ) where
  -- The loop's body reads one digit of the index.
  derive_bit-digit :
      (i j b : ℕ) (p : List ℕ)
      → digit b i ≡ digit b j
      → derive_bit sha256 i p b ≡ derive_bit sha256 j p b
  unfolding derive_bit
  derive_bit-digit i j b p e = rw (masks_agree) refl
    where
      masks_agree : bit_and i (2 ^ b) ≡ bit_and j (2 ^ b)
      masks_agree = bit_and-pow b i ∙ ap (λ (d : ℕ). d * 2 ^ b) e ∙ sym (bit_and-pow b j)

  derive_bit_zero : (i b : ℕ) (p : List ℕ) → digit b i ≡ 0 → derive_bit sha256 i p b ≡ p
  unfolding derive_bit
  derive_bit_zero i b p e = rw (mask_zero) refl
    where
      mask_zero : bit_and i (2 ^ b) ≡ 0
      mask_zero = bit_and-pow b i ∙ ap (λ (d : ℕ). d * 2 ^ b) e ∙ omega arith

  -- An index with no digit below place `b` leaves the secret as it is.
  derive_multiple : (n b q : ℕ) (p : List ℕ) → n ≤ b → derive sha256 p (2 ^ b * q) n ≡ p
  unfolding derive
  derive_multiple zero b q p h = refl
  derive_multiple (suc n) b q p h =
      ap (λ r. derive sha256 r (2 ^ b * q) n)
        (derive_bit_zero (2 ^ b * q) n p (digit-multiple b n q (omega arith)))
      ∙ derive_multiple n b q p (omega arith)

  derive_split :
      (k b x q : ℕ) (p : List ℕ)
      → x / 2 ^ b ≡ (2 ^ b * q) / 2 ^ b
      → derive sha256 p x (k + b) ≡ derive sha256 (derive sha256 p (2 ^ b * q) (k + b)) x b
  unfolding derive
  derive_split zero b x q p e =
      rw zero-add (ap (λ r. derive sha256 r x b) (sym (derive_multiple b b q p (omega arith))))
  derive_split (suc k) b x q p e = rw suc-add (
      derive_split k b x q (derive_bit sha256 x p (k + b)) e
      ∙ ap (λ r. derive sha256 (derive sha256 r (2 ^ b * q) (k + b)) x b)
          (derive_bit-digit x (2 ^ b * q) (k + b) p (digit_of_quotients b k x (2 ^ b * q) e)))

  -- The secret at an index `m` whose lower `b` bits are zero derives, in `b` rounds, the secret of
  -- every index that differs from `m` in those bits only.
  pub derive_prefix :
      (bits b x m : ℕ) (seed : List ℕ)
      → b ≤ bits
      → m % 2 ^ b ≡ 0
      → x / 2 ^ b ≡ m / 2 ^ b
      → derive sha256 (derive sha256 seed m bits) x b ≡ derive sha256 seed x bits
  derive_prefix bits b x m seed h low e = sym (
      subst (λ i. derive sha256 seed x bits ≡ derive sha256 (derive sha256 seed i bits) x b)
        multiple
        (subst
          (λ n.
            derive sha256 seed x n ≡ derive sha256 (derive sha256 seed (2 ^ b * (m / 2 ^ b)) n) x b)
          rounds
          (derive_split (bits - b) b x (m / 2 ^ b) seed
            (e ∙ ap (λ (t : ℕ). t / 2 ^ b) (sym multiple)))))
    where
      multiple : 2 ^ b * (m / 2 ^ b) ≡ m
      multiple = omega (arith, div-add-mod m (2 ^ b))

      rounds : bits - b + b ≡ bits
      rounds = omega arith
