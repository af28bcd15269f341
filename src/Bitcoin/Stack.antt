-- ===== src/Bitcoin/Stack.antt =====
-- packages/bitcoin/lib/Stack.ts: numbers as a script's stack holds them, the lowest byte first and the
-- sign in the top bit of the last one.
pub mod RoundTrip
use node_lightning.Common.{
  ℕ, zero, suc, ◌+◌, ◌*◌, ◌/◌, ◌^◌, Bool, true, false, ◌==◌, if◌then◌else◌, List, [], ◌∷◌, reverse,
  bit_and, bit_or,
}

-- `negsuc n` is -(n + 1).
pub data ℤ : Type 0 where
  pos : ℕ → ℤ
  negsuc : ℕ → ℤ

-- `-result`, of which that of zero is zero.
unfoldable pub negate : ℕ → ℤ
negate zero = pos zero
negate (suc n) = negsuc n

-- `while (abs > 0)`, on the rounds left. The number itself is enough of them.
unfoldable pub num_bytes : ℕ → ℕ → List ℕ
num_bytes zero abs = []
num_bytes (suc left) abs = elim (abs == 0) [
  | true ↦ []
  | false ↦ bit_and abs 0xff ∷ num_bytes left (abs / 2 ^ 8)
]

-- The sign is put in the last byte if its top bit is clear, and in a further byte otherwise.
unfoldable pub sign_bytes : Bool → List ℕ → List ℕ
sign_bytes neg [] = []
sign_bytes neg (b ∷ []) =
    if bit_and b 0x80 == 0
    then (if neg then bit_or b 0x80 else b) ∷ []
    else b ∷ (if neg then 0x80 else 0x00) ∷ []
sign_bytes neg (b ∷ c ∷ bs) = b ∷ sign_bytes neg (c ∷ bs)

unfoldable pub encode_num : ℤ → List ℕ
unfolding num_bytes sign_bytes
encode_num (pos n) = sign_bytes false (num_bytes n n)
encode_num (negsuc n) = sign_bytes true (num_bytes (suc n) (suc n))

-- `result <<= 8n; result += BigInt(be[i])` for each further byte.
unfoldable pub shift_in : ℕ → List ℕ → ℕ
shift_in result [] = result
shift_in result (b ∷ be) = shift_in (result * 2 ^ 8 + b) be

unfoldable pub decode_be : List ℕ → ℤ
unfolding negate shift_in
decode_be [] = pos 0
decode_be (b ∷ be) =
    if bit_and b 0x80 == 0 then pos (shift_in b be) else negate (shift_in (bit_and b 0x7f) be)

unfoldable pub decode_num : List ℕ → ℤ
unfolding decode_be
decode_num buf = decode_be (reverse buf)
