-- ===== src/Examples/Bufio.antt =====
-- Runs of packages/bufio/lib.
use node_lightning.Common.{
  ℕ, ◌^◌, ◌<◌, ◌≤◌, ◌≡◌, refl, ok, err, arith, List, [], ◌∷◌, ◌++◌, length, drop, false,
}
use node_lightning.Common.Bytes.{big_endian, little_endian, be_bytes, le_bytes, be_value, le_value}
use node_lightning.Bufio.Reader.{Reader, read_uint8, read_uint16_be, read_big_size, read_var_uint}
use node_lightning.Bufio.Reader.Varint.{varint_code, counted_bytes, Reads, read_big_size_code}
use node_lightning.Bufio.Reader.Canonical.{read_big_size_canonical}
use node_lightning.Bufio.VarInt.{encode_var_int, var_int_bytes, integer_too_large, invalid_varint}
use node_lightning.Bufio.VarInt.Length.{encode_var_int_lem}
use node_lightning.Bufio.Writer.{Writer, to_buffer, size, write_big_size, write_var_int}
use node_lightning.Bufio.Writer.Appends.{HasRoom}
use node_lightning.Bufio.Writer.RoundTrip.{
  reader_at, read_big_size-write_big_size, read_var_uint-write_var_int,
}

-- The encoding of 0x1234 with one byte before and one behind it.
abbrev encoded : List ℕ
encoded = 7 ∷ 0xfd ∷ 0x12 ∷ 0x34 ∷ 9 ∷ []

abbrev at_code : Reader
at_code = reader_at encoded 1

read_big_size_code_example : Reads read_big_size at_code 0x1234 (counted_bytes 0x1234) (9 ∷ [])
unfolding varint_code be_bytes
read_big_size_code_example =
    read_big_size_code at_code 0x1234 (9 ∷ []) (omega arith) (refl, omega arith)

abbrev encoded_le : List ℕ
encoded_le = 7 ∷ 0xfd ∷ 0x34 ∷ 0x12 ∷ 9 ∷ []

abbrev behind_code : Reader
behind_code = record { buffer = encoded; position = 4; last_read_bytes = 2 }

read_big_size_canonical_example :
    (0x1234 < 2 ^ 64) × (drop 1 encoded ≡ varint_code big_endian 0x1234 ++ drop 4 encoded)
unfolding read_big_size read_uint8 read_uint16_be le_value be_value
read_big_size_canonical_example =
    read_big_size_canonical at_code 0x1234 behind_code
      (omega arith, (omega arith, (omega arith, (omega arith, (omega arith, tt))))) refl

-- A writer that has written one byte.
abbrev started : Writer
started = record { position = 1; fixed = false; buffer = 7 ∷ [] }

roomy : (n : ℕ) → n ≤ 100 → HasRoom n started
roomy n h = record { inside = omega arith; fixed_fits = λ e. cc; growing_fits = λ e. omega arith }

code_room : HasRoom (length (varint_code big_endian 0x1234)) started
unfolding varint_code be_bytes
code_room = roomy 3 (omega arith)

code_room_le : HasRoom (length (varint_code little_endian 0x1234)) started
unfolding varint_code le_bytes
code_room_le = roomy 3 (omega arith)

read_big_size-write_big_size_example :
    (w : Writer) × (write_big_size 0x1234 started ≡ ok w)
    × (to_buffer w ≡ to_buffer started ++ varint_code big_endian 0x1234)
    × Reads read_big_size (reader_at (to_buffer w) (size started)) 0x1234 (counted_bytes 0x1234) []
read_big_size-write_big_size_example =
    read_big_size-write_big_size 0x1234 started (omega arith) refl code_room

read_var_uint-write_var_int_example :
    (w : Writer) × (write_var_int 0x1234 started ≡ ok w)
    × (to_buffer w ≡ to_buffer started ++ varint_code little_endian 0x1234)
    × Reads read_var_uint (reader_at (to_buffer w) (size started)) 0x1234 (counted_bytes 0x1234) []
read_var_uint-write_var_int_example =
    read_var_uint-write_var_int 0x1234 started (omega arith) refl code_room_le

encode_var_int_example :
    (0x1234 < 2 ^ 64
      → (encode_var_int 0x1234 ≡ ok (varint_code little_endian 0x1234))
        × (var_int_bytes 0x1234 ≡ ok (length (varint_code little_endian 0x1234))))
    × (2 ^ 64 ≤ 0x1234
        → (encode_var_int 0x1234 ≡ err integer_too_large)
          × (var_int_bytes 0x1234 ≡ err invalid_varint))
encode_var_int_example = encode_var_int_lem 0x1234
