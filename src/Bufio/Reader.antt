-- ===== src/Bufio/Reader.antt =====
-- packages/bufio/lib/BufferReader.ts. A Buffer is the list of its bytes; what a method throws ends
-- the use of the reader, so a thrown result carries no state.
pub mod Ahead
pub mod Varint
pub mod Canonical
use node_lightning.Common.{
  ℕ, zero, suc, ◌+◌, ◌-◌, ◌*◌, ◌^◌, min, Bool, ltb, leb, ◌==◌, ◌||◌, if◌then◌else◌, Result, ok, err,
  ◌>>=◌, ◌>>◌, List, [], length, take, drop, Option, some, none,
}
use node_lightning.Common.Bytes.{be_value, le_value}

-- `node_range` is what Node's own Buffer methods throw on a bad offset or byte length.
pub data ReadError : Type 0 where
  index_out_of_range not_canonical not_minimal node_range : ReadError

pub record Reader : Type 0 where
  pub buffer : List ℕ
  pub position : ℕ
  pub last_read_bytes : ℕ

-- A value and the reader after the call.
abbrev pub Read : Type 0 → Type 0
Read A = Result ReadError (A × Reader)

unfoldable pub big_size_bytes : ℕ → ℕ
big_size_bytes num =
    if ltb num 0xfd
    then 1
    else (if ltb num 0x1_0000 then 3 else (if ltb num 0x1_0000_0000 then 5 else 9))

-- The constructor.
unfoldable pub new_reader : List ℕ → Reader
new_reader buffer = record { buffer = buffer; position = 0; last_read_bytes = 0 }

-- The setter of `position`, which does not check it.
unfoldable pub set_position : ℕ → Reader → Reader
set_position val r = record r { position = val }

unfoldable pub eof : Reader → Bool
eof r = r.position == length r.buffer

-- `buffer.slice(start, start + len)`
unfoldable pub slice : List ℕ → ℕ → ℕ → List ℕ
slice buffer start len = take len (drop start buffer)

-- `_position += len; _lastReadBytes = len`
unfoldable pub advance : ℕ → Reader → Reader
advance len r = record r { position = r.position + len; last_read_bytes = len }

-- `_readStandard`: the guard, the read by one of Node's functions, and the move. `decode` is what
-- that function makes of the bytes.
unfoldable pub read_standard : (List ℕ → ℕ) → ℕ → Reader → Read ℕ
unfolding advance slice
read_standard decode len r =
    if ltb (length r.buffer) (r.position + len)
    then err index_out_of_range
    else ok (decode (slice r.buffer r.position len), advance len r)

unfoldable pub read_uint8 : Reader → Read ℕ
unfolding read_standard
read_uint8 = read_standard le_value 1

unfoldable pub read_uint16_le : Reader → Read ℕ
unfolding read_standard
read_uint16_le = read_standard le_value 2

unfoldable pub read_uint16_be : Reader → Read ℕ
unfolding read_standard
read_uint16_be = read_standard be_value 2

unfoldable pub read_uint32_le : Reader → Read ℕ
unfolding read_standard
read_uint32_le = read_standard le_value 4

unfoldable pub read_uint32_be : Reader → Read ℕ
unfolding read_standard
read_uint32_be = read_standard be_value 4

-- `readBytes(len)`; no length reads what is left.
unfoldable pub read_bytes : Option ℕ → Reader → Read (List ℕ)
unfolding advance slice
read_bytes (some len) r =
    if len == 0
    then ok ([], record r { last_read_bytes = 0 })
    else (if ltb (length r.buffer) (r.position + len)
        then err index_out_of_range
        else ok (slice r.buffer r.position len, advance len r))
read_bytes none r =
    if r.position == length r.buffer
    then ok ([], record r { last_read_bytes = 0 })
    else (let rest = drop r.position r.buffer in
        ok (rest, record r { position = length r.buffer; last_read_bytes = length rest }))

-- `peakBytes(len)`
unfoldable pub peak_bytes : Option ℕ → Reader → Result ReadError (List ℕ)
unfolding slice
peak_bytes (some len) r =
    if len == 0
    then ok []
    else (if ltb (length r.buffer) (r.position + len)
        then err index_out_of_range
        else ok (slice r.buffer r.position len))
peak_bytes none r =
    if r.position == length r.buffer then err index_out_of_range else ok (drop r.position r.buffer)

-- The number that the bytes of a read stand for.
unfoldable pub decode_read : (List ℕ → ℕ) → List ℕ × Reader → Read ℕ
decode_read decode (bytes, r) = ok (decode bytes, r)

unfoldable pub read_uint64_be : Reader → Read ℕ
unfolding read_bytes decode_read
read_uint64_be r = read_bytes (some 8) r >>= decode_read be_value

-- The bytes are reversed, and read in big-endian order.
unfoldable pub read_uint64_le : Reader → Read ℕ
unfolding read_bytes decode_read
read_uint64_le r = read_bytes (some 8) r >>= decode_read le_value

-- `readUIntLE(len)` and `readUIntBE(len)`. Node reads 1 to 6 bytes.
unfoldable pub read_uint : (List ℕ → ℕ) → ℕ → Reader → Read ℕ
unfolding read_standard
read_uint decode len r =
    if ltb (length r.buffer) (r.position + len)
    then err index_out_of_range
    else (if len == 0 || ltb 6 len then err node_range else read_standard decode len r)

unfoldable pub read_uint_le : ℕ → Reader → Read ℕ
unfolding read_uint
read_uint_le = read_uint le_value

unfoldable pub read_uint_be : ℕ → Reader → Read ℕ
unfolding read_uint
read_uint_be = read_uint be_value

-- `_lastReadBytes = len`
unfoldable pub set_last : ℕ → Reader → Reader
set_last len r = record r { last_read_bytes = len }

-- The `switch` of `readVarUint` on the first byte. The first byte is a byte, so nothing lies above
-- 0xff.
unfoldable pub read_var_uint : Reader → Read ℕ
unfolding set_last
read_var_uint r = read_uint8 r >>= λ (size, r1).
    if ltb size 0xfd
    then ok (size, set_last 1 r1)
    else (if size == 0xfd
        then read_uint16_le (set_last 3 r1)
        else (if size == 0xfe
            then read_uint32_le (set_last 5 r1)
            else read_uint64_le (set_last 9 r1)))

-- The check that a form of `readBigSize` was not too long for its value.
unfoldable pub canonical : ℕ → ℕ × Reader → Read ℕ
canonical least (val, r) = if ltb val least then err not_canonical else ok (val, r)

unfoldable pub read_big_size : Reader → Read ℕ
unfolding set_last canonical
read_big_size r = read_uint8 r >>= λ (size, r1).
    if ltb size 0xfd
    then ok (size, set_last 1 r1)
    else (if size == 0xfd
        then read_uint16_be (set_last 3 r1) >>= canonical 0xfd
        else (if size == 0xfe
            then read_uint32_be (set_last 5 r1) >>= canonical 0x1_0000
            else read_uint64_be (set_last 9 r1) >>= canonical 0x1_0000_0000))

-- The loop of `_assertMinimalTUInt` from round `i` on, with the rounds left.
unfoldable pub minimal_loop : ℕ → ℕ → ℕ → ℕ → Bool
minimal_loop zero i num bytes = Bool.true
minimal_loop (suc left) i num bytes =
    let rest = minimal_loop left (i + 1) num bytes in if ltb num (256 ^ i) then bytes == i else rest

-- `readTUInt16`, `readTUInt32` and `readTUInt64`: up to `width` bytes, as many as are left. A
-- position behind the end makes that number negative: then `behind` is thrown, by Node's method
-- for the length, or by the check of the empty value.
unfoldable pub read_tuint : ReadError → ℕ → Reader → Read ℕ
unfolding minimal_loop slice
read_tuint behind width r =
    if ltb (length r.buffer) r.position
    then err behind
    else (let size : ℕ = min width (length r.buffer - r.position) in
        if size == 0
        then ok (0, r)
        else (let val = be_value (slice r.buffer r.position size) in
            if minimal_loop 9 0 val size
            then ok (val, record r { position = r.position + size })
            else err not_minimal))

unfoldable pub read_tuint16 : Reader → Read ℕ
unfolding read_tuint
read_tuint16 = read_tuint node_range 2

unfoldable pub read_tuint32 : Reader → Read ℕ
unfolding read_tuint
read_tuint32 = read_tuint node_range 4

unfoldable pub read_tuint64 : Reader → Read ℕ
unfolding read_tuint
read_tuint64 = read_tuint not_minimal 8
