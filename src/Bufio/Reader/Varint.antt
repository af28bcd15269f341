-- ===== src/Bufio/Reader/Varint.antt =====
-- The variable-length integers are read back from their encodings.
use node_lightning.Common.{
  ℕ, ◌-◌, ◌^◌, ◌<◌, ◌≤◌, ◌≡◌, ◌≢◌, refl, sym, ◌∙◌, ap, arith, ltb, lt→ltb, le→ltb, Bool-cases,
  ltb→lt, ltb→le, inl, inr, if◌then◌else◌, ok, ◌>>=◌, List, [], ◌∷◌, ◌++◌, some,
}
use node_lightning.Common.Bytes.{ByteOrder, big_endian, little_endian, le_value}
use node_lightning.Bufio.Reader.{
  Reader, Read, advance, big_size_bytes, read_standard, read_bytes, read_uint8, read_uint16_le,
  read_uint32_le, read_uint64_le, read_uint16_be, read_uint32_be, read_uint64_be, set_last,
  decode_read, read_big_size, read_var_uint,
}
use node_lightning.Bufio.Reader.Ahead.{Ahead, read_standard-Ahead, read_bytes-Ahead}

-- BOLT 1's BigSize and Bitcoin's VarInt of a number below 2^64: a first byte, and the number in
-- 0, 2, 4 or 8 bytes of the byte order.
unfoldable pub varint_code : ByteOrder → ℕ → List ℕ
varint_code order v =
    if ltb v 0xfd
    then v ∷ []
    else (if ltb v 0x1_0000
        then 0xfd ∷ order.bytes 2 v
        else (if ltb v 0x1_0000_0000 then 0xfe ∷ order.bytes 4 v else 0xff ∷ order.bytes 8 v))

module _ (order : ByteOrder) (v : ℕ) where
  pub varint_code_1 : v < 0xfd → varint_code order v ≡ v ∷ []
  unfolding varint_code
  varint_code_1 h = rw (lt→ltb v 0xfd h) refl

  pub varint_code_3 : 0xfd ≤ v → v < 0x1_0000 → varint_code order v ≡ 0xfd ∷ order.bytes 2 v
  unfolding varint_code
  varint_code_3 l h = rw (le→ltb v 0xfd l, lt→ltb v 0x1_0000 h) refl

  pub varint_code_5 :
      0x1_0000 ≤ v → v < 0x1_0000_0000 → varint_code order v ≡ 0xfe ∷ order.bytes 4 v
  unfolding varint_code
  varint_code_5 l h =
      rw (le→ltb v 0xfd (omega arith), le→ltb v 0x1_0000 l, lt→ltb v 0x1_0000_0000 h) refl

  pub varint_code_9 : 0x1_0000_0000 ≤ v → varint_code order v ≡ 0xff ∷ order.bytes 8 v
  unfolding varint_code
  varint_code_9 l =
      rw (le→ltb v 0xfd (omega arith), le→ltb v 0x1_0000 (omega arith), le→ltb v 0x1_0000_0000 l)
        refl

pub read_uint8-Ahead :
    (r : Reader) (b : ℕ) (rest : List ℕ)
    → Ahead r (b ∷ rest)
    → (read_uint8 r ≡ ok (b, advance 1 r)) × Ahead (advance 1 r) rest
unfolding read_uint8
read_uint8-Ahead r b rest h =
    let (e, h') = read_standard-Ahead r (b ∷ []) rest h le_value 1 refl in
    (e ∙ ap (λ (v : ℕ). ok (v, advance 1 r)) single, h')
  where
    single : le_value (b ∷ []) ≡ b
    single = unfold le_value in omega arith

module _ (order : ByteOrder) (r : Reader) (n v : ℕ) (rest : List ℕ) (fits : v < 256 ^ n) where
  -- A number of `n` bytes is read back.
  pub fixed-Ahead :
      Ahead r (order.bytes n v ++ rest)
      → (read_standard order.decode n r ≡ ok (v, advance n r)) × Ahead (advance n r) rest
  fixed-Ahead h =
      let (e, h') =
        read_standard-Ahead r (order.bytes n v) rest h order.decode n
          (sym (order.length-bytes n v)) in
      (e ∙ ap (λ (x : ℕ). ok (x, advance n r)) (order.decode-bytes n v fits), h')

  pub bytes-Ahead :
      n ≢ 0
      → Ahead r (order.bytes n v ++ rest)
      → ((read_bytes (some n) r >>= decode_read order.decode) ≡ ok (v, advance n r))
        × Ahead (advance n r) rest
  unfolding decode_read
  bytes-Ahead nonzero h =
      let (e, h') =
        read_bytes-Ahead r (order.bytes n v) rest h n (sym (order.length-bytes n v)) nonzero in
      (rw e (ap (λ (x : ℕ). ok (x, advance n r)) (order.decode-bytes n v fits)), h')

-- A number is read from a reader, which then has `rest` ahead of it, and counts `last` bytes as read.
abbrev pub Reads : (Reader → Read ℕ) → Reader → ℕ → ℕ → List ℕ → Type 0
Reads read r v last rest =
    (r' : Reader) × (read r ≡ ok (v, r')) × Ahead r' rest × (r'.last_read_bytes ≡ last)

module _ (r : Reader) (v : ℕ) (rest : List ℕ) where
  big_size_1 : v < 0xfd → Ahead r (v ∷ rest) → Reads read_big_size r v 1 rest
  unfolding read_big_size
  big_size_1 k h =
      let (e, h') = read_uint8-Ahead r v rest h in
      (set_last 1 (advance 1 r), rw (e, lt→ltb v 0xfd k) refl, h', refl)

  big_size_3 :
      0xfd ≤ v
      → v < 0x1_0000
      → Ahead r (0xfd ∷ (big_endian.bytes 2 v ++ rest))
      → Reads read_big_size r v 2 rest
  unfolding read_big_size read_uint16_be advance
  big_size_3 l k h =
      let (e, h1) = read_uint8-Ahead r 0xfd _ h in
      let (e', h2) = fixed-Ahead big_endian (set_last 3 (advance 1 r)) 2 v rest k h1 in
      (advance 2 (set_last 3 (advance 1 r)), rw (e, e', le→ltb v 0xfd l) refl, h2, refl)

  big_size_5 :
      0x1_0000 ≤ v
      → v < 0x1_0000_0000
      → Ahead r (0xfe ∷ (big_endian.bytes 4 v ++ rest))
      → Reads read_big_size r v 4 rest
  unfolding read_big_size read_uint32_be advance
  big_size_5 l k h =
      let (e, h1) = read_uint8-Ahead r 0xfe _ h in
      let (e', h2) = fixed-Ahead big_endian (set_last 5 (advance 1 r)) 4 v rest k h1 in
      (advance 4 (set_last 5 (advance 1 r)), rw (e, e', le→ltb v 0x1_0000 l) refl, h2, refl)

  big_size_9 :
      0x1_0000_0000 ≤ v
      → v < 2 ^ 64
      → Ahead r (0xff ∷ (big_endian.bytes 8 v ++ rest))
      → Reads read_big_size r v 8 rest
  unfolding read_big_size read_uint64_be advance
  big_size_9 l k h =
      let (e, h1) = read_uint8-Ahead r 0xff _ h in
      let (e', h2) =
        bytes-Ahead big_endian (set_last 9 (advance 1 r)) 8 v rest k (omega arith) h1 in
      (advance 8 (set_last 9 (advance 1 r)), rw (e, e', le→ltb v 0x1_0000_0000 l) refl, h2, refl)

  var_uint_1 : v < 0xfd → Ahead r (v ∷ rest) → Reads read_var_uint r v 1 rest
  unfolding read_var_uint
  var_uint_1 k h =
      let (e, h') = read_uint8-Ahead r v rest h in
      (set_last 1 (advance 1 r), rw (e, lt→ltb v 0xfd k) refl, h', refl)

  var_uint_3 :
      0xfd ≤ v
      → v < 0x1_0000
      → Ahead r (0xfd ∷ (little_endian.bytes 2 v ++ rest))
      → Reads read_var_uint r v 2 rest
  unfolding read_var_uint read_uint16_le advance
  var_uint_3 l k h =
      let (e, h1) = read_uint8-Ahead r 0xfd _ h in
      let (e', h2) = fixed-Ahead little_endian (set_last 3 (advance 1 r)) 2 v rest k h1 in
      (advance 2 (set_last 3 (advance 1 r)), rw (e, e') refl, h2, refl)

  var_uint_5 :
      0x1_0000 ≤ v
      → v < 0x1_0000_0000
      → Ahead r (0xfe ∷ (little_endian.bytes 4 v ++ rest))
      → Reads read_var_uint r v 4 rest
  unfolding read_var_uint read_uint32_le advance
  var_uint_5 l k h =
      let (e, h1) = read_uint8-Ahead r 0xfe _ h in
      let (e', h2) = fixed-Ahead little_endian (set_last 5 (advance 1 r)) 4 v rest k h1 in
      (advance 4 (set_last 5 (advance 1 r)), rw (e, e') refl, h2, refl)

  var_uint_9 :
      0x1_0000_0000 ≤ v
      → v < 2 ^ 64
      → Ahead r (0xff ∷ (little_endian.bytes 8 v ++ rest))
      → Reads read_var_uint r v 8 rest
  unfolding read_var_uint read_uint64_le advance
  var_uint_9 l k h =
      let (e, h1) = read_uint8-Ahead r 0xff _ h in
      let (e', h2) =
        bytes-Ahead little_endian (set_last 9 (advance 1 r)) 8 v rest k (omega arith) h1 in
      (advance 8 (set_last 9 (advance 1 r)), rw (e, e') refl, h2, refl)

-- Of the bytes of an encoding, those that `lastReadBytes` counts: all but the first, if there are more.
unfoldable pub counted_bytes : ℕ → ℕ
unfolding big_size_bytes
counted_bytes v = if ltb v 0xfd then 1 else big_size_bytes v - 1

-- The four sizes of a number, with its encoding and the bytes counted.
pub varint_split {ℓ} :
    (order : ByteOrder) (v : ℕ) (P : List ℕ → ℕ → Type ℓ)
    → v < 2 ^ 64
    → (v < 0xfd → P (v ∷ []) 1)
    → (0xfd ≤ v → v < 0x1_0000 → P (0xfd ∷ order.bytes 2 v) 2)
    → (0x1_0000 ≤ v → v < 0x1_0000_0000 → P (0xfe ∷ order.bytes 4 v) 4)
    → (0x1_0000_0000 ≤ v → v < 2 ^ 64 → P (0xff ∷ order.bytes 8 v) 8)
    → P (varint_code order v) (counted_bytes v)
unfolding varint_code counted_bytes
varint_split order v P k one three five nine = elim (Bool-cases (ltb v 0xfd)) [
  | inl a ↦ rw a (one (ltb→lt _ _ a))
  | inr a ↦ rw a (elim (Bool-cases (ltb v 0x1_0000)) [
    | inl b ↦ rw b (three (ltb→le _ _ a) (ltb→lt _ _ b))
    | inr b ↦ rw b (elim (Bool-cases (ltb v 0x1_0000_0000)) [
      | inl c ↦ rw c (five (ltb→le _ _ b) (ltb→lt _ _ c))
      | inr c ↦ rw c (nine (ltb→le _ _ c) k)
    ])
  ])
]

-- A number below 2^64, encoded as a BigSize, is read back, whatever follows it, and the cursor then
-- stands behind it. `lastReadBytes` counts one byte less than the encoding has, if it is a longer one.
pub read_big_size_code :
    (r : Reader) (v : ℕ) (rest : List ℕ)
    → v < 2 ^ 64
    → Ahead r (varint_code big_endian v ++ rest)
    → Reads read_big_size r v (counted_bytes v) rest
read_big_size_code r v rest k =
    varint_split big_endian v
      (λ code last. Ahead r (code ++ rest) → Reads read_big_size r v last rest) k
      (big_size_1 r v rest) (big_size_3 r v rest) (big_size_5 r v rest) (big_size_9 r v rest)

-- The same of Bitcoin's VarInt, whose longer forms are little-endian.
pub read_var_uint_code :
    (r : Reader) (v : ℕ) (rest : List ℕ)
    → v < 2 ^ 64
    → Ahead r (varint_code little_endian v ++ rest)
    → Reads read_var_uint r v (counted_bytes v) rest
read_var_uint_code r v rest k =
    varint_split little_endian v
      (λ code last. Ahead r (code ++ rest) → Reads read_var_uint r v last rest) k
      (var_uint_1 r v rest) (var_uint_3 r v rest) (var_uint_5 r v rest) (var_uint_9 r v rest)
