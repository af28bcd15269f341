-- ===== src/Channels/Commitment/Secret.antt =====
-- packages/lightning/lib/channels/CommitmentSecret.ts: a secret derived from a seed by flipping and
-- hashing, one bit of the index after the other. SHA-256 is a parameter.
pub mod Prefix
use node_lightning.Common.{
  ℕ, zero, suc, ◌*◌, ◌/◌, ◌%◌, ◌^◌, ◌==◌, if◌then◌else◌, bit_and, bit_xor, List, [], ◌∷◌,
}

-- `p[byteIndex] = p[byteIndex] ^ mask`. A write behind the end of a Buffer does nothing.
unfoldable pub flip_byte : List ℕ → ℕ → ℕ → List ℕ
flip_byte [] i mask = []
flip_byte (x ∷ xs) zero mask = bit_xor x mask % 256 ∷ xs
flip_byte (x ∷ xs) (suc i) mask = x ∷ flip_byte xs i mask

module _ (sha256 : List ℕ → List ℕ) where
  -- The body of the loop at bit `b`.
  unfoldable pub derive_bit : ℕ → List ℕ → ℕ → List ℕ
  unfolding flip_byte
  derive_bit i p b =
      if bit_and i (2 ^ b) == 0 then p else sha256 (flip_byte p (b / 8) (2 ^ (b % 8)))

  -- The loop from bit `bits - 1` down to 0.
  unfoldable pub derive : List ℕ → ℕ → ℕ → List ℕ
  derive p i zero = p
  derive p i (suc b) = derive (derive_bit i p b) i b
