-- ===== src/Bitcoin/Stack/RoundTrip.antt =====
-- A script number that was encoded is decoded.
use node_lightning.Common.{
  ℕ, zero, suc, ◌+◌, ◌*◌, ◌/◌, ◌%◌, ◌^◌, ◌<◌, ◌≤◌, ◌≡◌, refl, sym, ap, ◌∙◌, Bool, true, false, ◌==◌,
  ◌&&◌, inl, inr, if◌then◌else◌, List, [], ◌∷◌, ◌++◌, reverse, append_assoc, bit_and, bit_or, arith,
  ==_iff, ne→==_false, Bool-cases, All,
}
use mathlib.Core.List.{reverse-append}
use node_lightning.Common.Bits.{bit_and-ones}
use node_lightning.Common.Bytes.{IsByte, le_value}
use node_lightning.Bitcoin.Stack.{
  ℤ, pos, negsuc, negate, num_bytes, sign_bytes, encode_num, shift_in, decode_be, decode_num,
}

-- A test holds of a number and of all that are smaller.
holds_to : (ℕ → Bool) → ℕ → Bool
holds_to test zero = test zero
holds_to test (suc top) = if test (suc top) then holds_to test top else false

holds_to-at :
    (test : ℕ → Bool) (top byte : ℕ) → byte ≤ top → holds_to test top ≡ true → test byte ≡ true
unfolding holds_to
holds_to-at test zero zero le held = held
holds_to-at test zero (suc byte) le held = absurd (omega arith)
holds_to-at test (suc top) byte le held = elim (Bool-cases (byte == suc top)) [
  | inl last ↦ let same : byte ≡ suc top = ground arith in rw same (ground (arith, held))
  | inr lower ↦ holds_to-at test top byte (ground arith) (ground (arith, held))
]

-- What the top bit of a byte says of the sign bit set on it.
abbrev top_bit : ℕ → Bool
top_bit b =
    if bit_and b 0x80 == 0
    then (bit_and (bit_or b 0x80) 0x7f == b) && (bit_and (bit_or b 0x80) 0x80 == 0x80)
    else true

top_bits : holds_to top_bit 255 ≡ true
unfolding holds_to
top_bits = refl

sign_bit :
    (b : ℕ)
    → b < 256
    → bit_and b 0x80 ≡ 0
    → (bit_and (bit_or b 0x80) 0x7f ≡ b) × (bit_and (bit_or b 0x80) 0x80 ≡ 0x80)
sign_bit b h clear = ground (arith, holds_to-at top_bit 255 b (omega arith) top_bits)

shift_in-append : (a b : ℕ) (xs : List ℕ) → shift_in a (xs ++ b ∷ []) ≡ shift_in a xs * 2 ^ 8 + b
unfolding shift_in
shift_in-append a b [] = refl
shift_in-append a b (x ∷ xs) = shift_in-append (a * 2 ^ 8 + x) b xs

shift_in-reverse : (t : ℕ) (bs : List ℕ) → shift_in t (reverse bs) ≡ le_value (bs ++ t ∷ [])
unfolding le_value
shift_in-reverse t [] = unfold shift_in in omega arith
shift_in-reverse t (b ∷ bs) =
    ap (shift_in t) (reverse-append (b ∷ []) bs)
    ∙ shift_in-append t b (reverse bs)
    ∙ omega (arith, shift_in-reverse t bs)

-- What bytes before a last one are decoded to.
decode_last :
    (bs : List ℕ) (t : ℕ)
    → decode_num (bs ++ t ∷ []) ≡ (
        if bit_and t 0x80 == 0
        then pos (le_value (bs ++ t ∷ []))
        else negate (le_value (bs ++ bit_and t 0x7f ∷ [])))
unfolding decode_num decode_be
decode_last bs t =
    rw (reverse-append bs (t ∷ []), shift_in-reverse t bs, shift_in-reverse (bit_and t 0x7f) bs)
      refl

le_value-append_zero : (bs : List ℕ) → le_value (bs ++ 0 ∷ []) ≡ le_value bs
unfolding le_value
le_value-append_zero [] = omega arith
le_value-append_zero (b ∷ bs) = omega (arith, le_value-append_zero bs)

abbrev signed : Bool → ℕ → ℤ
signed neg n = if neg then negate n else pos n

module _ (pre : List ℕ) (b : ℕ) where
  decode_clear :
      (neg : Bool)
      → b < 256
      → bit_and b 0x80 ≡ 0
      → decode_num (pre ++ (if neg then bit_or b 0x80 else b) ∷ [])
        ≡ signed neg (le_value (pre ++ b ∷ []))
  decode_clear false h clear = decode_last pre b ∙ rw clear refl
  decode_clear true h clear =
      let (low, top) = sign_bit b h clear in decode_last pre (bit_or b 0x80) ∙ rw (top, low) refl

  decode_extra :
      (neg : Bool)
      → decode_num (pre ++ b ∷ (if neg then 0x80 else 0x00) ∷ [])
        ≡ signed neg (le_value (pre ++ b ∷ []))
  decode_extra false =
      ap decode_num (sym (append_assoc pre (b ∷ []) (0 ∷ [])))
      ∙ decode_last (pre ++ b ∷ []) 0
      ∙ ap pos (le_value-append_zero (pre ++ b ∷ []))
  decode_extra true =
      ap decode_num (sym (append_assoc pre (b ∷ []) (0x80 ∷ [])))
      ∙ decode_last (pre ++ b ∷ []) 0x80
      ∙ ap negate (le_value-append_zero (pre ++ b ∷ []))

decode-sign_bytes :
    (neg : Bool) (pre : List ℕ) (b : ℕ) (bs : List ℕ)
    → All IsByte (b ∷ bs)
    → decode_num (pre ++ sign_bytes neg (b ∷ bs)) ≡ signed neg (le_value (pre ++ b ∷ bs))
unfolding sign_bytes
decode-sign_bytes neg pre b [] (hb, hs) = elim (Bool-cases (bit_and b 0x80 == 0)) [
  | inl clear ↦ rw clear (decode_clear pre b neg hb ((==_iff _ _).0 clear))
  | inr top ↦ rw top (decode_extra pre b neg)
]
decode-sign_bytes neg pre b (c ∷ bs) (hb, hs) =
    ap decode_num (sym (append_assoc pre (b ∷ []) (sign_bytes neg (c ∷ bs))))
    ∙ decode-sign_bytes neg (pre ++ b ∷ []) c bs hs
    ∙ ap (λ v. signed neg (le_value v)) (append_assoc pre (b ∷ []) (c ∷ bs))

low_byte : (v : ℕ) → bit_and v 0xff ≡ v % 256
low_byte v = bit_and-ones 8 v

num_bytes-suc :
    (left n : ℕ) → num_bytes (suc left) (suc n) ≡ suc n % 256 ∷ num_bytes left (suc n / 256)
unfolding num_bytes
num_bytes-suc left n =
    rw (ne→==_false (suc n) 0 (omega arith), num_bytes)
      (ap (λ x. x ∷ num_bytes left (suc n / 256)) (low_byte (suc n)))

num_bytes-IsByte : (left n : ℕ) → All IsByte (num_bytes left n)
num_bytes-IsByte zero n = unfold num_bytes in tt
num_bytes-IsByte (suc left) zero = unfold num_bytes in tt
num_bytes-IsByte (suc left) (suc n) =
    rw (num_bytes-suc left n) (omega arith, num_bytes-IsByte left (suc n / 256))

-- The rounds are enough: the bytes stand for the whole number.
le_value-num_bytes : (left n : ℕ) → n ≤ left → le_value (num_bytes left n) ≡ n
unfolding le_value
le_value-num_bytes zero zero h = unfold num_bytes in refl
le_value-num_bytes zero (suc n) h = absurd (omega arith)
le_value-num_bytes (suc left) zero h = unfold num_bytes in refl
le_value-num_bytes (suc left) (suc n) h =
    rw (num_bytes-suc left n) (omega (arith, le_value-num_bytes left (suc n / 256) (omega arith)))

decode-bytes :
    (neg : Bool) (n : ℕ)
    → decode_num (sign_bytes neg (num_bytes (suc n) (suc n))) ≡ signed neg (suc n)
decode-bytes neg n =
    ap (λ bs. decode_num (sign_bytes neg bs)) (num_bytes-suc n n)
    ∙ decode-sign_bytes neg [] (suc n % 256) (num_bytes n (suc n / 256))
        (omega arith, num_bytes-IsByte n (suc n / 256))
    ∙ ap (λ bs. signed neg (le_value bs)) (sym (num_bytes-suc n n))
    ∙ ap (signed neg) (le_value-num_bytes (suc n) (suc n) (omega arith))

-- Every integer, negative or not, is encoded to bytes that are decoded to it.
pub decode_num-encode_num : (num : ℤ) → decode_num (encode_num num) ≡ num
unfolding encode_num
decode_num-encode_num (pos zero) = unfold num_bytes sign_bytes decode_num decode_be in refl
decode_num-encode_num (pos (suc n)) = decode-bytes false n
decode_num-encode_num (negsuc n) = decode-bytes true n ∙ unfold negate in refl
