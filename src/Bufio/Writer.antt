-- ===== src/Bufio/Writer.antt =====
-- packages/bufio/lib/BufferWriter.ts and UintBytes.ts. A Buffer is the list of its bytes; what a
-- method throws ends the use of the writer, so a thrown result carries no state.
pub mod Appends
pub mod RoundTrip
use node_lightning.Common.{
  ℕ, zero, suc, ◌+◌, ◌-◌, ◌*◌, ◌/◌, ◌%◌, ◌^◌, Bool, true, false, ltb, leb, ◌==◌, ◌&&◌, ◌||◌,
  if◌then◌else◌, Result, ok, err, ◌>>=◌, List, [], ◌∷◌, ◌++◌, length, take, drop, replicate,
}
use node_lightning.Common.Bytes.{ByteOrder, big_endian, little_endian}

-- `node_range` is what Node's own methods throw: on a value that does not fit, and on the negative
-- size of a buffer that `1 << 31` asks for.
pub data WriteError : Type 0 where
  out_of_range value_too_large node_range : WriteError

pub record Writer : Type 0 where
  pub position : ℕ
  pub fixed : Bool
  pub buffer : List ℕ

abbrev pub Write : Type 0
Write = Result WriteError Writer

-- The constructor, on no buffer and on a given one.
unfoldable pub new_writer : Writer
new_writer = record { position = 0; fixed = false; buffer = [] }

unfoldable pub new_fixed_writer : List ℕ → Writer
new_fixed_writer buffer = record { position = 0; fixed = true; buffer = buffer }

unfoldable pub size : Writer → ℕ
size w = w.position

unfoldable pub to_buffer : Writer → List ℕ
to_buffer w = if w.fixed then w.buffer else take w.position w.buffer

-- `uintBytes`: `Math.ceil(Math.log2(num + 1) / 8)`, the least number of bytes that hold `num`. The
-- search has 53 rounds, more than the bytes of any number that JavaScript holds exactly.
unfoldable pub uint_bytes_loop : ℕ → ℕ → ℕ → ℕ
uint_bytes_loop zero n num = n
uint_bytes_loop (suc left) n num =
    let more = uint_bytes_loop left (n + 1) num in if ltb num (256 ^ n) then n else more

unfoldable pub uint_bytes : ℕ → ℕ
unfolding uint_bytes_loop
uint_bytes num = uint_bytes_loop 53 0 num

-- `Math.ceil(Math.log2(required))` of a positive number below 2^53, from `k` on.
unfoldable pub ceil_log2 : ℕ → ℕ → ℕ → ℕ
ceil_log2 zero k required = k
ceil_log2 (suc left) k required =
    let more = ceil_log2 left (k + 1) required in if leb required (2 ^ k) then k else more

-- `1 << k` on 32-bit numbers, as a buffer's size: the shift is taken modulo 32, and bit 31 makes the
-- number negative, which Node refuses.
unfoldable pub alloc_size : ℕ → Result WriteError ℕ
alloc_size k = if k % 32 == 31 then err node_range else ok (2 ^ (k % 32))

-- `buffer.copy(target, start)`: bytes that would fall behind the end of the target are dropped.
unfoldable pub copy : List ℕ → ℕ → List ℕ → List ℕ
copy [] start source = []
copy (x ∷ target) (suc start) source = x ∷ copy target start source
copy (x ∷ target) zero [] = x ∷ target
copy (x ∷ target) zero (b ∷ source) = b ∷ copy target zero source

unfoldable pub grow : ℕ → Writer → Write
unfolding alloc_size copy
grow required w = alloc_size (ceil_log2 53 0 required) >>= λ new_len.
    ok (record w { buffer = copy (replicate new_len 0) 0 w.buffer })

-- `_expand`
unfoldable pub expand : ℕ → Writer → Write
expand needed w =
    let required : ℕ = w.position + needed in
    if w.fixed && ltb (length w.buffer) required
    then err out_of_range
    else (if ltb (length w.buffer) required then grow required w else ok w)

-- The write of bytes at the position of a writer that has the room, and the move.
unfoldable pub put : List ℕ → Writer → Writer
unfolding copy
put bytes w = record w {
  buffer = copy w.buffer w.position bytes;
  position = w.position + length bytes;
}

-- `_writeStandard` with Node's method of the byte order, which refuses a value that does not fit.
unfoldable pub write_standard : ByteOrder → ℕ → ℕ → Writer → Write
write_standard order len val w = expand len w >>= λ w'.
    if ltb val (256 ^ len) then ok (put (order.bytes len val) w') else err node_range

unfoldable pub write_uint8 : ℕ → Writer → Write
unfolding write_standard
write_uint8 = write_standard little_endian 1

unfoldable pub write_uint16_le : ℕ → Writer → Write
unfolding write_standard
write_uint16_le = write_standard little_endian 2

unfoldable pub write_uint16_be : ℕ → Writer → Write
unfolding write_standard
write_uint16_be = write_standard big_endian 2

unfoldable pub write_uint32_le : ℕ → Writer → Write
unfolding write_standard
write_uint32_le = write_standard little_endian 4

unfoldable pub write_uint32_be : ℕ → Writer → Write
unfolding write_standard
write_uint32_be = write_standard big_endian 4

unfoldable pub write_bytes : List ℕ → Writer → Write
write_bytes bytes w =
    if length bytes == 0 then ok w else (expand (length bytes) w >>= λ w'. ok (put bytes w'))

-- `writeUInt64LE` and `writeUInt64BE`
unfoldable pub write_uint64 : ByteOrder → ℕ → Writer → Write
unfolding write_bytes
write_uint64 order value w =
    if ltb value (2 ^ 64) then write_bytes (order.bytes 8 value) w else err out_of_range

-- `writeUIntLE` and `writeUIntBE`. Node writes 1 to 6 bytes.
unfoldable pub write_uint : ByteOrder → ℕ → ℕ → Writer → Write
unfolding uint_bytes
write_uint order val len w =
    if ltb len (uint_bytes val)
    then err value_too_large
    else (expand len w >>= λ w'.
        if len == 0 || ltb 6 len
        then err node_range
        else (if ltb val (256 ^ len) then ok (put (order.bytes len val) w') else err node_range))

unfoldable pub write_uint64_le : ℕ → Writer → Write
unfolding write_uint64
write_uint64_le = write_uint64 little_endian

unfoldable pub write_uint64_be : ℕ → Writer → Write
unfolding write_uint64
write_uint64_be = write_uint64 big_endian

unfoldable pub write_uint_le : ℕ → ℕ → Writer → Write
unfolding write_uint
write_uint_le = write_uint little_endian

unfoldable pub write_uint_be : ℕ → ℕ → Writer → Write
unfolding write_uint
write_uint_be = write_uint big_endian

-- `writeVarInt`, with the little-endian order, and `writeBigSize`, with the big-endian one.
unfoldable pub write_varint : ByteOrder → ℕ → Writer → Write
write_varint order num w =
    if ltb num 0xfd
    then write_uint8 num w
    else (if ltb num 0x1_0000
        then write_uint8 0xfd w >>= write_standard order 2 num
        else (if ltb num 0x1_0000_0000
            then write_uint8 0xfe w >>= write_standard order 4 num
            else (write_uint8 0xff w >>= write_uint64 order num)))

unfoldable pub write_var_int : ℕ → Writer → Write
unfolding write_varint
write_var_int = write_varint little_endian

unfoldable pub write_big_size : ℕ → Writer → Write
unfolding write_varint
write_big_size = write_varint big_endian

-- The bytes that `writeTUInt16` and `writeTUInt32` take for a positive value.
unfoldable pub tuint16_size : ℕ → ℕ
tuint16_size val = if ltb 0xff val then 2 else 1

unfoldable pub tuint32_size : ℕ → ℕ
tuint32_size val =
    if ltb 0xff_ffff val then 4 else (if ltb 0xffff val then 3 else (if ltb 0xff val then 2 else 1))

unfoldable pub write_tuint16 : ℕ → Writer → Write
unfolding tuint16_size
write_tuint16 val w = if val == 0 then ok w else write_standard big_endian (tuint16_size val) val w

unfoldable pub write_tuint32 : ℕ → Writer → Write
unfolding tuint32_size
write_tuint32 val w = if val == 0 then ok w else write_standard big_endian (tuint32_size val) val w

-- `writeTUInt64`: the bytes of the hexadecimal digits, as many as the value has.
unfoldable pub write_tuint64 : ℕ → Writer → Write
unfolding write_bytes uint_bytes
write_tuint64 val w =
    if val == 0 then ok w else write_bytes (big_endian.bytes (uint_bytes val) val) w
