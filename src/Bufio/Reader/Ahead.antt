-- ===== src/Bufio/Reader/Ahead.antt =====
-- What a read does to the bytes that lie ahead of the cursor.
use node_lightning.Common.{
  ℕ, ◌+◌, ◌≤◌, ◌≡◌, ◌∙◌, ap, arith, le→ltb, ne→==_false, ◌≢◌, ok, List, ◌++◌, length, take, drop,
  some, length-append, length-drop, drop-add, take-length_append, drop-length_append,
}
use node_lightning.Bufio.Reader.{Reader, advance, slice, read_standard, read_bytes}

-- The cursor stands in the buffer, and the bytes from it on are `bytes`.
abbrev pub Ahead : Reader → List ℕ → Type 0
Ahead r bytes = (drop r.position r.buffer ≡ bytes) × (r.position ≤ length r.buffer)

module _ (r : Reader) (bytes rest : List ℕ) (h : Ahead r (bytes ++ rest)) where
  room : r.position + length bytes + length rest ≡ length r.buffer
  room =
      omega (arith, h.1, length-drop r.position r.buffer, ap length h.0, length-append bytes rest)

  slice-Ahead : slice r.buffer r.position (length bytes) ≡ bytes
  unfolding slice
  slice-Ahead = ap (take (length bytes)) h.0 ∙ take-length_append bytes rest

  advance-Ahead : Ahead (advance (length bytes) r) rest
  unfolding advance
  advance-Ahead = (
    drop-add r.position (length bytes) r.buffer
        ∙ ap (drop (length bytes)) h.0
        ∙ drop-length_append bytes rest,
    omega (arith, room),
  )

  pub read_standard-Ahead :
      (decode : List ℕ → ℕ) (n : ℕ)
      → n ≡ length bytes
      → (read_standard decode n r ≡ ok (decode bytes, advance n r)) × Ahead (advance n r) rest
  unfolding read_standard
  read_standard-Ahead decode n e = rw e (
    rw (le→ltb (length r.buffer) (r.position + length bytes) (omega (arith, room)))
        (ap (λ bs. ok (decode bs, advance (length bytes) r)) slice-Ahead),
    advance-Ahead,
  )

  pub read_bytes-Ahead :
      (n : ℕ)
      → n ≡ length bytes
      → n ≢ 0
      → (read_bytes (some n) r ≡ ok (bytes, advance n r)) × Ahead (advance n r) rest
  unfolding read_bytes
  read_bytes-Ahead n e nonzero = rw e (
    rw
        (
          ne→==_false (length bytes) 0 (omega (arith, nonzero, e)),
          le→ltb (length r.buffer) (r.position + length bytes) (omega (arith, room)),
        )
        (ap (λ bs. ok (bs, advance (length bytes) r)) slice-Ahead),
    advance-Ahead,
  )
