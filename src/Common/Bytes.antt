-- ===== src/Common/Bytes.antt =====
-- Unsigned integers as bytes, in both byte orders: what Node's Buffer reads and writes.
use Prim.Native.Nat.{ℕ, zero, suc, ◌+◌, ◌*◌, ◌/◌, ◌%◌, ◌^◌, ◌<◌}
use mathlib.Core.Path.{◌≡◌, refl, ap, ap₂, ◌∙◌}
use mathlib.Core.List.{List, [], ◌∷◌, ◌++◌, reverse, reverse-reverse, reverse-append}
use native.Mathlib.Omega.{arith}
use native.Mathlib.Nat.{pow-suc, mul_comm}
use node_lightning.Common.Lists.{length, length-reverse, take, drop, All}

abbrev pub IsByte : ℕ → Type 0
IsByte b = b < 256

-- The value of bytes, the lowest first.
unfoldable pub le_value : List ℕ → ℕ
le_value [] = 0
le_value (b ∷ bs) = b + 256 * le_value bs

-- The lowest `n` bytes of a number, the lowest first.
unfoldable pub le_bytes : ℕ → ℕ → List ℕ
le_bytes zero v = []
le_bytes (suc n) v = v % 256 ∷ le_bytes n (v / 256)

unfoldable pub be_value : List ℕ → ℕ
unfolding le_value
be_value bs = le_value (reverse bs)

unfoldable pub be_bytes : ℕ → ℕ → List ℕ
unfolding le_bytes
be_bytes n v = reverse (le_bytes n v)

pub pow-suc_left : (n : ℕ) → 256 ^ suc n ≡ 256 * 256 ^ n
pow-suc_left n = pow-suc 256 n ∙ mul_comm (256 ^ n) 256

pub length-le_bytes : (n v : ℕ) → length (le_bytes n v) ≡ n
unfolding le_bytes
length-le_bytes zero v = refl
length-le_bytes (suc n) v = ap suc (length-le_bytes n (v / 256))

pub length-be_bytes : (n v : ℕ) → length (be_bytes n v) ≡ n
unfolding be_bytes
length-be_bytes n v = length-reverse (le_bytes n v) ∙ length-le_bytes n v

pub le_bytes-IsByte : (n v : ℕ) → All IsByte (le_bytes n v)
unfolding le_bytes
le_bytes-IsByte zero v = tt
le_bytes-IsByte (suc n) v = (omega arith, le_bytes-IsByte n (v / 256))

pub le_value-le_bytes : (n v : ℕ) → v < 256 ^ n → le_value (le_bytes n v) ≡ v
unfolding le_bytes le_value
le_value-le_bytes zero v h = omega arith
le_value-le_bytes (suc n) v h =
    omega (arith, le_value-le_bytes n (v / 256) (omega (arith, pow-suc_left n)))

pub le_bytes-le_value : (bs : List ℕ) → All IsByte bs → le_bytes (length bs) (le_value bs) ≡ bs
unfolding le_bytes le_value
le_bytes-le_value [] h = refl
le_bytes-le_value (b ∷ bs) (hb, hbs) =
    ap₂ (λ (x : ℕ) xs. x ∷ xs) head_byte
      (ap (le_bytes (length bs)) rest_value ∙ le_bytes-le_value bs hbs)
  where
    head_byte : (b + 256 * le_value bs) % 256 ≡ b
    head_byte = omega arith

    rest_value : (b + 256 * le_value bs) / 256 ≡ le_value bs
    rest_value = omega arith

pub le_value-lt : (bs : List ℕ) → All IsByte bs → le_value bs < 256 ^ length bs
unfolding le_value
le_value-lt [] h = omega arith
le_value-lt (b ∷ bs) (hb, hbs) = omega (arith, pow-suc_left (length bs), le_value-lt bs hbs)

All-append : (xs ys : List ℕ) → All IsByte xs → All IsByte ys → All IsByte (xs ++ ys)
All-append [] ys h k = k
All-append (x ∷ xs) ys (hx, h) k = (hx, All-append xs ys h k)

pub All-reverse : (bs : List ℕ) → All IsByte bs → All IsByte (reverse bs)
All-reverse [] h = tt
All-reverse (b ∷ bs) (hb, h) =
    rw (reverse-append (b ∷ []) bs) (All-append (reverse bs) (b ∷ []) (All-reverse bs h) (hb, tt))

pub be_bytes-IsByte : (n v : ℕ) → All IsByte (be_bytes n v)
unfolding be_bytes
be_bytes-IsByte n v = All-reverse (le_bytes n v) (le_bytes-IsByte n v)

pub be_value-be_bytes : (n v : ℕ) → v < 256 ^ n → be_value (be_bytes n v) ≡ v
unfolding be_bytes be_value
be_value-be_bytes n v h = ap le_value (reverse-reverse (le_bytes n v)) ∙ le_value-le_bytes n v h

pub be_bytes-be_value : (bs : List ℕ) → All IsByte bs → be_bytes (length bs) (be_value bs) ≡ bs
unfolding be_bytes be_value
be_bytes-be_value bs h =
    ap (λ n. reverse (le_bytes n (le_value (reverse bs)))) (sym_length bs)
    ∙ ap reverse (le_bytes-le_value (reverse bs) (All-reverse bs h))
    ∙ reverse-reverse bs
  where
    sym_length : (bs : List ℕ) → length bs ≡ length (reverse bs)
    sym_length bs = omega (arith, length-reverse bs)

pub be_value-lt : (bs : List ℕ) → All IsByte bs → be_value bs < 256 ^ length bs
unfolding be_value
be_value-lt bs h = rw (length-reverse bs) at (le_value-lt (reverse bs) (All-reverse bs h))

pub All-take : (n : ℕ) (bs : List ℕ) → All IsByte bs → All IsByte (take n bs)
All-take zero bs h = tt
All-take (suc n) [] h = tt
All-take (suc n) (b ∷ bs) (hb, h) = (hb, All-take n bs h)

pub All-drop : (n : ℕ) (bs : List ℕ) → All IsByte bs → All IsByte (drop n bs)
All-drop zero bs h = h
All-drop (suc n) [] h = tt
All-drop (suc n) (b ∷ bs) (hb, h) = All-drop n bs h

-- A byte order: how Node decodes bytes, and the bytes of a number.
pub record ByteOrder : Type 0 where
  pub decode : List ℕ → ℕ
  pub bytes : ℕ → ℕ → List ℕ
  pub length-bytes : (n v : ℕ) → length (bytes n v) ≡ n
  pub decode-bytes : (n v : ℕ) → v < 256 ^ n → decode (bytes n v) ≡ v
  pub bytes-decode : (bs : List ℕ) → All IsByte bs → bytes (length bs) (decode bs) ≡ bs

abbrev pub big_endian : ByteOrder
big_endian = record {
  decode = be_value;
  bytes = be_bytes;
  length-bytes = length-be_bytes;
  decode-bytes = be_value-be_bytes;
  bytes-decode = be_bytes-be_value;
}

abbrev pub little_endian : ByteOrder
little_endian = record {
  decode = le_value;
  bytes = le_bytes;
  length-bytes = length-le_bytes;
  decode-bytes = le_value-le_bytes;
  bytes-decode = le_bytes-le_value;
}
