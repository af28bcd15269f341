-- ===== src/Peer/BitField.antt =====
-- packages/lightning/lib/BitField.ts: a field of feature bits in a bigint that is not negative.
pub mod Flags
use node_lightning.Common.{
  ℕ, zero, suc, ◌+◌, ◌-◌, ◌/◌, ◌^◌, Bool, true, false, ltb, ◌==◌, not, if◌then◌else◌, bit_and,
  bit_or, bit_xor, List, [], ◌∷◌, Option, none, some,
}
use node_lightning.Common.Bytes.{be_value}

pub record BitField : Type 0 where
  pub value : ℕ

-- The constructor, with its default.
unfoldable pub new_bit_field : Option ℕ → BitField
new_bit_field none = record { value = 0 }
new_bit_field (some value) = record { value = value }

unfoldable pub from_number : ℕ → BitField
unfolding new_bit_field
from_number value = new_bit_field (some value)

unfoldable pub from_buffer : List ℕ → BitField
unfolding new_bit_field
from_buffer [] = new_bit_field none
from_buffer (b ∷ bs) = new_bit_field (some (be_value (b ∷ bs)))

unfoldable pub is_set : ℕ → BitField → Bool
is_set bit f = ltb 0 (bit_and f.value (2 ^ bit))

unfoldable pub any_set : List ℕ → BitField → Bool
unfolding is_set
any_set [] f = false
any_set (bit ∷ bits) f = let rest = any_set bits f in if is_set bit f then true else rest

-- `set`
unfoldable pub set_bit : ℕ → BitField → BitField
set_bit bit f = record { value = bit_or f.value (2 ^ bit) }

-- `value &= ~(value & (1 << bit))`: the complement clears bits that the value has, so that they are
-- the ones in which the result differs.
unfoldable pub unset : ℕ → BitField → BitField
unset bit f = record { value = bit_xor f.value (bit_and f.value (2 ^ bit)) }

unfoldable pub toggle : ℕ → BitField → BitField
toggle bit f = record { value = bit_xor f.value (2 ^ bit) }

-- The loop of `flags` from `bit` on, where `val` is `2 ^ bit`, with the rounds left.
unfoldable pub flags_loop : ℕ → ℕ → ℕ → List ℕ
flags_loop zero bit value = []
flags_loop (suc left) bit value = elim (ltb (2 ^ bit) value) [
  | true ↦
      if bit_and value (2 ^ bit) == 0
      then flags_loop left (bit + 1) value
      else bit ∷ flags_loop left (bit + 1) value
  | false ↦ []
]

-- There are fewer rounds than the value's number.
unfoldable pub flags : BitField → List ℕ
unfolding flags_loop
flags f = flags_loop f.value 0 f.value

-- The loop of `msb`, with the rounds left.
unfoldable pub msb_loop : ℕ → ℕ → ℕ → ℕ
msb_loop zero num bit = bit
msb_loop (suc left) num bit = elim (ltb 1 num) [
  | true ↦ msb_loop left (num / 2) (bit + 1)
  | false ↦ bit
]

unfoldable pub msb : BitField → ℕ
unfolding msb_loop
msb f = msb_loop f.value f.value 0

unfoldable pub and : BitField → BitField → BitField
and f g = record { value = bit_and f.value g.value }

unfoldable pub or : BitField → BitField → BitField
or f g = record { value = bit_or f.value g.value }

unfoldable pub xor : BitField → BitField → BitField
xor f g = record { value = bit_xor f.value g.value }
