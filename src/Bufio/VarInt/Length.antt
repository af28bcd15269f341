-- ===== src/Bufio/VarInt/Length.antt =====
-- The encoding of a VarInt is the one that readers accept, and has the length that is told.
use node_lightning.Common.{ℕ, ◌^◌, ◌<◌, ◌≤◌, ◌≡◌, arith, length, ok, err}
use node_lightning.Common.Bytes.{little_endian, length-le_bytes}
use node_lightning.Bufio.Reader.Varint.{varint_code, varint_split}
use node_lightning.Bufio.VarInt.{encode_var_int, var_int_bytes, integer_too_large, invalid_varint}

length_ok : (v n : ℕ) → var_int_bytes v ≡ ok n → (m : ℕ) → m ≡ n → var_int_bytes v ≡ ok m
length_ok v n e m same = rw same e

-- A number below 2^64 is encoded as the VarInt that a reader reads back, whose length is the number of
-- bytes that is told for it; a larger one is refused by both functions.
pub encode_var_int_lem :
    (v : ℕ)
    → (v < 2 ^ 64
        → (encode_var_int v ≡ ok (varint_code little_endian v))
          × (var_int_bytes v ≡ ok (length (varint_code little_endian v))))
      × (2 ^ 64 ≤ v
          → (encode_var_int v ≡ err integer_too_large) × (var_int_bytes v ≡ err invalid_varint))
unfolding encode_var_int var_int_bytes
encode_var_int_lem v = (
  λ k.
      varint_split little_endian v
        (λ code last. (encode_var_int v ≡ ok code) × (var_int_bytes v ≡ ok (length code))) k
        (λ a. (ground arith, ground arith))
        (λ l a. (ground arith, length_ok v 3 (ground arith) _ (omega (arith, length-le_bytes 2 v))))
        (λ l a. (ground arith, length_ok v 5 (ground arith) _ (omega (arith, length-le_bytes 4 v))))
        (λ l a.
          (ground arith, length_ok v 9 (ground arith) _ (omega (arith, length-le_bytes 8 v)))),
  λ l. (ground arith, ground arith),
)
