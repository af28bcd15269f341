-- ===== src/Bufio/Writer/RoundTrip.antt =====
-- The variable-length integers that a writer writes, a reader reads.
use node_lightning.Common.{
  ℕ, ◌+◌, ◌^◌, ◌<◌, ◌≤◌, ◌≡◌, refl, sym, ◌∙◌, ap, arith, false, lt→ltb, le→ltb, ok, ◌>>=◌, List, [],
  ◌∷◌, ◌++◌, length, drop, drop-length_append, length-take, subst, append-nil, length-append,
}
use node_lightning.Common.Bytes.{ByteOrder, big_endian, little_endian, le_bytes}
use node_lightning.Bufio.Reader.{Reader, read_big_size, read_var_uint}
use node_lightning.Bufio.Reader.Varint.{
  varint_code, counted_bytes, varint_split, Reads, read_big_size_code, read_var_uint_code,
}
use node_lightning.Bufio.Reader.Ahead.{Ahead}
use node_lightning.Bufio.Writer.{
  Writer, Write, write_standard, write_uint8, write_uint64, write_varint, write_big_size,
  write_var_int, to_buffer, size,
}
use node_lightning.Bufio.Writer.Appends.{
  HasRoom, HasRoom-after, Appended, Appends, Appends_then, written, write_standard-Appends,
  write_bytes-Appends,
}

byte_code : (v : ℕ) → v < 256 → le_bytes 1 v ≡ v ∷ []
unfolding le_bytes
byte_code v byte = ap (λ (n : ℕ). n ∷ []) (omega (arith, byte))

byte-Appends : (v : ℕ) (w : Writer) → v < 256 → HasRoom 1 w → Appends (write_uint8 v w) (v ∷ []) w
unfolding write_uint8
byte-Appends v w byte room =
    subst (λ bytes. Appends (write_standard little_endian 1 v w) bytes w) (byte_code v byte)
      ((write_standard-Appends little_endian 1 v w room).0 byte)

write_uint64-Appends :
    (order : ByteOrder) (v : ℕ) (w : Writer)
    → v < 2 ^ 64
    → HasRoom 8 w
    → Appends (write_uint64 order v w) (order.bytes 8 v) w
unfolding write_uint64
write_uint64-Appends order v w fits room = rw (lt→ltb v (2 ^ 64) fits) (
    write_bytes-Appends (order.bytes 8 v) w
      (subst (λ (m : ℕ). HasRoom m w) (sym (order.length-bytes 8 v)) room))

module _ (order : ByteOrder) (v : ℕ) (w : Writer) where
  prefixed :
      (first n : ℕ) (write : Writer → Write)
      → first < 256
      → HasRoom (1 + n) w
      → ((w' : Writer) → HasRoom n w' → Appends (write w') (order.bytes n v) w')
      → Appends (write_uint8 first w >>= write) (first ∷ order.bytes n v) w
  prefixed first n write byte room continue =
      Appends_then (first ∷ []) (order.bytes n v) w (write_uint8 first w) write
        (byte-Appends first w byte one)
        (λ w' a. continue w' (HasRoom-after (first ∷ []) n w w' room a))
    where
      one : HasRoom 1 w
      one = record {
        inside = room.inside;
        fixed_fits = λ e. omega (arith, room.fixed_fits e);
        growing_fits = λ e. omega (arith, room.growing_fits e);
      }

  fixed :
      (first n : ℕ)
      → first < 256
      → v < 256 ^ n
      → HasRoom (length (first ∷ order.bytes n v)) w
      → Appends (write_uint8 first w >>= write_standard order n v) (first ∷ order.bytes n v) w
  fixed first n byte fits room =
      prefixed first n (write_standard order n v) byte
        (subst (λ (m : ℕ). HasRoom m w) (omega (arith, order.length-bytes n v)) room)
        (λ w' room'. (write_standard-Appends order n v w' room').0 fits)

  wide :
      v < 2 ^ 64
      → HasRoom (length (0xff ∷ order.bytes 8 v)) w
      → Appends (write_uint8 0xff w >>= write_uint64 order v) (0xff ∷ order.bytes 8 v) w
  wide fits room =
      prefixed 0xff 8 (write_uint64 order v) (omega arith)
        (subst (λ (m : ℕ). HasRoom m w) (omega (arith, order.length-bytes 8 v)) room)
        (λ w' room'. write_uint64-Appends order v w' fits room')

-- A BigSize or VarInt of a number below 2^64 is appended as its encoding, where there is room for it.
pub write_varint-Appends :
    (order : ByteOrder) (v : ℕ) (w : Writer)
    → v < 2 ^ 64
    → HasRoom (length (varint_code order v)) w
    → Appends (write_varint order v w) (varint_code order v) w
unfolding write_varint
write_varint-Appends order v w k =
    varint_split order v
      (λ code last. HasRoom (length code) w → Appends (write_varint order v w) code w) k
      (λ a room. rw (lt→ltb v 0xfd a) (byte-Appends v w (omega (arith, a)) room))
      (λ l a room.
        rw (le→ltb v 0xfd l, lt→ltb v 0x1_0000 a) (fixed order v w 0xfd 2 (omega arith) a room))
      (λ l a room.
        rw (le→ltb v 0xfd (omega (arith, l)), le→ltb v 0x1_0000 l, lt→ltb v 0x1_0000_0000 a)
          (fixed order v w 0xfe 4 (omega arith) a room))
      (λ l a room.
        rw
          (
            le→ltb v 0xfd (omega (arith, l)),
            le→ltb v 0x1_0000 (omega (arith, l)),
            le→ltb v 0x1_0000_0000 l,
          )
          (wide order v w a room))

to_buffer_growing : (w : Writer) → w.fixed ≡ false → to_buffer w ≡ written w
unfolding to_buffer
to_buffer_growing w growing = rw growing refl

to_buffer_after :
    (bytes : List ℕ) (w w' : Writer)
    → w.fixed ≡ false
    → Appended bytes w w'
    → to_buffer w' ≡ to_buffer w ++ bytes
to_buffer_after bytes w w' growing a =
    to_buffer_growing w' (a.still_fixed ∙ growing)
    ∙ a.content
    ∙ ap (λ xs. xs ++ bytes) (sym (to_buffer_growing w growing))

-- A reader of a buffer, with the cursor at `position`.
abbrev pub reader_at : List ℕ → ℕ → Reader
reader_at buffer position = record { buffer = buffer; position = position; last_read_bytes = 0 }

-- Read from where it was, the buffer of the writer has the bytes ahead.
to_buffer-Ahead :
    (bytes : List ℕ) (w w' : Writer)
    → w.fixed ≡ false
    → w.position ≤ length w.buffer
    → Appended bytes w w'
    → Ahead (reader_at (to_buffer w') w.position) (bytes ++ [])
to_buffer-Ahead bytes w w' growing inside a = (
  subst (λ (n : ℕ). drop n (to_buffer w') ≡ bytes) long
        (ap (drop (length (to_buffer w))) after ∙ drop-length_append (to_buffer w) bytes)
      ∙ sym (append-nil bytes),
  omega (arith, ap length after, length-append (to_buffer w) bytes, long),
)
  where
    after : to_buffer w' ≡ to_buffer w ++ bytes
    after = to_buffer_after bytes w w' growing a

    long : length (to_buffer w) ≡ w.position
    long =
        ap length (to_buffer_growing w growing)
        ∙ omega (arith, length-take w.position w.buffer, inside)

-- What a writer that grows has written is read from its buffer: a BigSize below 2^64 that is written
-- after any bytes is appended to them, and read at its place as the number it was written for, with
-- nothing left behind it.
pub read_big_size-write_big_size :
    (v : ℕ) (w : Writer)
    → v < 2 ^ 64
    → w.fixed ≡ false
    → HasRoom (length (varint_code big_endian v)) w
    → (w' : Writer) × (write_big_size v w ≡ ok w')
      × (to_buffer w' ≡ to_buffer w ++ varint_code big_endian v)
      × Reads read_big_size (reader_at (to_buffer w') (size w)) v (counted_bytes v) []
unfolding write_big_size size
read_big_size-write_big_size v w k growing room =
    let (w', e, a) = write_varint-Appends big_endian v w k room in
    (
      w',
      e,
      to_buffer_after (varint_code big_endian v) w w' growing a,
      read_big_size_code (reader_at (to_buffer w') w.position) v [] k
          (to_buffer-Ahead (varint_code big_endian v) w w' growing room.inside a),
    )

-- The same of Bitcoin's VarInt.
pub read_var_uint-write_var_int :
    (v : ℕ) (w : Writer)
    → v < 2 ^ 64
    → w.fixed ≡ false
    → HasRoom (length (varint_code little_endian v)) w
    → (w' : Writer) × (write_var_int v w ≡ ok w')
      × (to_buffer w' ≡ to_buffer w ++ varint_code little_endian v)
      × Reads read_var_uint (reader_at (to_buffer w') (size w)) v (counted_bytes v) []
unfolding write_var_int size
read_var_uint-write_var_int v w k growing room =
    let (w', e, a) = write_varint-Appends little_endian v w k room in
    (
      w',
      e,
      to_buffer_after (varint_code little_endian v) w w' growing a,
      read_var_uint_code (reader_at (to_buffer w') w.position) v [] k
          (to_buffer-Ahead (varint_code little_endian v) w w' growing room.inside a),
    )
