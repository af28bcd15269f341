-- ===== src/Bitcoin/Script/Numbers.antt =====
-- The commands that push a number.
use node_lightning.Common.{
  ℕ, zero, suc, ◌+◌, ◌/◌, ◌^◌, ◌≤◌, ◌<◌, ◌≡◌, refl, ap, Bool, false, leb, Bool-cases, inl, inr,
  List, [], ◌∷◌, length, bit_and, ne→==_false, arith,
}
use node_lightning.Common.Bytes.{pow-suc_left}
use node_lightning.Bitcoin.Stack.{pos, num_bytes, sign_bytes, encode_num}
use node_lightning.Bitcoin.Script.{opcode, push}
use node_lightning.Bitcoin.Script.RoundTrip.{IsPlain}
use node_lightning.Bitcoin.Script.Locks.{number}

length-sign_bytes :
    (neg : Bool) (bs : List ℕ)
    → (length bs ≤ length (sign_bytes neg bs)) × (length (sign_bytes neg bs) ≤ length bs + 1)
unfolding sign_bytes
length-sign_bytes neg [] = (omega arith, omega arith)
length-sign_bytes neg (b ∷ []) = (ground arith, ground arith)
length-sign_bytes neg (b ∷ c ∷ bs) =
    let (low, high) = length-sign_bytes neg (c ∷ bs) in (omega arith, omega arith)

num_bytes_zero : (left : ℕ) → num_bytes left 0 ≡ []
unfolding num_bytes
num_bytes_zero zero = refl
num_bytes_zero (suc left) = refl

num_bytes_next :
    (left n : ℕ)
    → num_bytes (suc left) (suc n) ≡ bit_and (suc n) 0xff ∷ num_bytes left (suc n / 256)
unfolding num_bytes
num_bytes_next left n = rw (ne→==_false (suc n) 0 (omega arith), num_bytes) refl

length-num_bytes : (size left n : ℕ) → n < 256 ^ size → length (num_bytes left n) ≤ size
length-num_bytes size zero n h = unfold num_bytes in omega arith
length-num_bytes zero (suc left) zero h = rw (num_bytes_zero (suc left)) (omega arith)
length-num_bytes zero (suc left) (suc n) h = absurd (omega arith)
length-num_bytes (suc size) (suc left) zero h = rw (num_bytes_zero (suc left)) (omega arith)
length-num_bytes (suc size) (suc left) (suc n) h = rw (num_bytes_next left n) (
    omega (
      arith,
      pow-suc_left size,
      length-num_bytes size left (suc n / 256) (omega (arith, pow-suc_left size)),
    ))

-- A number that is not zero is pushed by one byte at least, and by one more at most than its magnitude has.
pub length-encode_num :
    (size n : ℕ)
    → suc n < 256 ^ size
    → (1 ≤ length (encode_num (pos (suc n)))) × (length (encode_num (pos (suc n))) ≤ size + 1)
unfolding encode_num
length-encode_num size n h =
    let (low, high) = length-sign_bytes false (num_bytes (suc n) (suc n)) in
    (
      omega (arith, ap length (num_bytes_next n n)),
      omega (arith, length-num_bytes size (suc n) (suc n) h),
    )

number_pushed : (n : ℕ) → 16 < suc n → number (pos (suc n)) ≡ push (encode_num (pos (suc n)))
unfolding number
number_pushed n h = ground arith

number_code : (n : ℕ) → suc n ≤ 16 → number (pos (suc n)) ≡ opcode (0x50 + suc n)
unfolding number
number_code n h = ground arith

-- A number of 4 bytes at most.
pub number-IsPlain : (n : ℕ) → n < 2 ^ 32 → IsPlain (number (pos n))
number-IsPlain zero h = unfold number in (inl refl, omega arith)
number-IsPlain (suc n) h = elim (Bool-cases (leb (suc n) 16)) [
  | inl small ↦ rw (number_code n (ground arith)) (inr (omega arith), ground arith)
  | inr large ↦
      let (low, high) = length-encode_num 4 n h in
      rw (number_pushed n (ground arith)) (low, omega arith)
]
