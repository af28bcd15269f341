-- ===== src/Bufio/VarInt.antt =====
-- packages/bufio/lib/encodeVarInt.ts and varIntBytes.ts.
pub mod Length
use node_lightning.Common.{ℕ, ◌-◌, ◌^◌, ltb, leb, if◌then◌else◌, List, [], ◌∷◌, Result, ok, err}
use node_lightning.Common.Bytes.{le_bytes}

pub data VarIntError : Type 0 where
  integer_too_large invalid_varint : VarIntError

unfoldable pub encode_var_int : ℕ → Result VarIntError (List ℕ)
encode_var_int i =
    if ltb i 0xfd
    then ok (i ∷ [])
    else (if ltb i 0x1_0000
        then ok (0xfd ∷ le_bytes 2 i)
        else (if ltb i 0x1_0000_0000
            then ok (0xfe ∷ le_bytes 4 i)
            else (if ltb i (2 ^ 64) then ok (0xff ∷ le_bytes 8 i) else err integer_too_large)))

-- A natural number is not below zero.
unfoldable pub var_int_bytes : ℕ → Result VarIntError ℕ
var_int_bytes val =
    if ltb val 0xfd
    then ok 1
    else (if leb val 0xffff
        then ok 3
        else (if leb val 0xffff_ffff
            then ok 5
            else (if leb val (2 ^ 64 - 1) then ok 9 else err invalid_varint)))
