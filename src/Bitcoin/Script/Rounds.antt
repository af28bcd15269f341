-- ===== src/Bitcoin/Script/Rounds.antt =====
-- How long the loop of `readCmds` runs.
use node_lightning.Common.{
  ℕ, zero, suc, ◌+◌, ◌≤◌, ◌<◌, ◌≡◌, refl, sym, ap, ◌∙◌, true, false, leb, ◌==◌, ◌&&◌, Bool-cases,
  Result-cases, >>=-eq-ok, inl, inr, List, [], length, some, Result, ok, ◌>>=◌, arith,
}
use node_lightning.Common.Bytes.{le_value}
use node_lightning.Bitcoin.OpCodes.{op_pushdata1, op_pushdata2}
use node_lightning.Bitcoin.Script.{
  Cmd, opcode, as_push, read_operand, read_cmd, read_cmds_loop, read_cmds,
}
use node_lightning.Bufio.Reader.{
  Reader, ReadError, new_reader, advance, eof, read_uint8, read_uint16_le, read_bytes,
  read_standard,
}

-- The cursor of the second reader is in the same buffer, and not before that of the first.
abbrev Onward : Reader → Reader → Type 0
Onward r r' = (r'.buffer ≡ r.buffer) × (r.position ≤ r'.position) × (r'.position ≤ length r.buffer)

module _ (r r' : Reader) (inside : r.position ≤ length r.buffer) where
  read_standard-Onward :
      (decode : List ℕ → ℕ) (n v : ℕ)
      → read_standard decode n r ≡ ok (v, r')
      → (r'.buffer ≡ r.buffer) × (r'.position ≡ r.position + n) × (r'.position ≤ length r.buffer)
  unfolding read_standard advance
  read_standard-Onward decode n v h = (ground arith, ground arith, ground arith)

  read_bytes-Onward : (n : ℕ) (bs : List ℕ) → read_bytes (some n) r ≡ ok (bs, r') → Onward r r'
  unfolding read_bytes advance
  read_bytes-Onward n bs h = (ground arith, ground arith, ground arith)

  as_push-Onward :
      (n : ℕ) (cmd : Cmd) → as_push (read_bytes (some n) r) ≡ ok (cmd, r') → Onward r r'
  unfolding as_push
  as_push-Onward n cmd h = elim (Result-cases (read_bytes (some n) r)) [
    | inl ((bs, r''), e) ↦ (read_bytes-Onward n bs (ground (arith, e)))
    | inr (thrown, e) ↦ absurd (ground (arith, e))
  ]

Onward-trans : (a b c : Reader) → Onward a b → Onward b c → Onward a c
Onward-trans a b c (e, le, h) (e', le', h') = (e' ∙ e, omega arith, omega (arith, ap length e))

module _ (r r' : Reader) (cmd : Cmd) (inside : r.position ≤ length r.buffer) where
  -- A length that was read, and the bytes of a push.
  sized-Onward :
      (n v : ℕ) (decode : List ℕ → ℕ)
      → (read_standard decode n r >>= λ (v, br). as_push (read_bytes (some v) br)) ≡ ok (cmd, r')
      → Onward r r'
  sized-Onward n v decode h =
      let ((v, br), e, e') = >>=-eq-ok (read_standard decode n r) _ h in
      let (same, moved, within) = read_standard-Onward r br inside decode n v e in
      Onward-trans r br r' (same, omega arith, within)
        (as_push-Onward br r' (omega (arith, ap length same)) v cmd e')

  opcode_stays :
      (stays : Cmd)
      → ◌≡◌ {A = Result ReadError (Cmd × Reader)} (ok (stays, r)) (ok (cmd, r'))
      → Onward r r'
  opcode_stays stays h = (ground arith, ground arith, ground arith)

  read_operand-Onward : (op : ℕ) → read_operand op r ≡ ok (cmd, r') → Onward r r'
  unfolding read_operand read_uint8 read_uint16_le
  read_operand-Onward op h = elim (Bool-cases (leb 0x01 op && leb op 0x4b)) [
    | inl direct ↦ as_push-Onward r r' inside op cmd (rw direct at h)
    | inr indirect ↦ elim (Bool-cases (op == op_pushdata1)) [
      | inl byte ↦ sized-Onward 1 0 le_value (rw (indirect, byte) at h)
      | inr wider ↦ elim (Bool-cases (op == op_pushdata2)) [
        | inl word ↦ sized-Onward 2 0 le_value (rw (indirect, wider, word) at h)
        | inr code ↦ opcode_stays (opcode op) (rw (indirect, wider, code) at h)
      ]
    ]
  ]

module _ (r r' : Reader) (cmd : Cmd) (inside : r.position ≤ length r.buffer) where
  -- A command that was read took a byte at least.
  read_cmd-Onward : read_cmd r ≡ ok (cmd, r') → Onward r r' × (r.position < r'.position)
  unfolding read_cmd read_uint8
  read_cmd-Onward h =
      let ((op, br), e, e') = >>=-eq-ok (read_standard le_value 1 r) _ h in
      let (same, moved, within) = read_standard-Onward r br inside le_value 1 op e in
      let (same', on, within') =
        read_operand-Onward br r' cmd (omega (arith, ap length same)) op e' in
      ((same' ∙ same, omega arith, omega (arith, ap length same)), omega arith)

not_eof-inside :
    (r : Reader) → r.position ≤ length r.buffer → eof r ≡ false → r.position < length r.buffer
unfolding eof
not_eof-inside r h more = ground arith

eof-at_end :
    (r : Reader) → length r.buffer ≤ r.position → r.position ≤ length r.buffer → eof r ≡ true
unfolding eof
eof-at_end r h k = ground arith

loop_eof : (left : ℕ) (r : Reader) → eof r ≡ true → read_cmds_loop left r ≡ ok []
unfolding read_cmds_loop
loop_eof zero r h = refl
loop_eof (suc left) r h = rw (h, read_cmds_loop) refl

-- Two calls that have the same rounds to make after each command agree.
loop_next :
    (m n : ℕ) (r : Reader)
    → eof r ≡ false
    → ((cmd : Cmd) (r' : Reader)
        → read_cmd r ≡ ok (cmd, r')
        → read_cmds_loop m r' ≡ read_cmds_loop n r')
    → read_cmds_loop (suc m) r ≡ read_cmds_loop (suc n) r
unfolding read_cmds_loop
loop_next m n r more agree = elim (Result-cases (read_cmd r)) [
  | inl ((cmd, r'), e) ↦ rw (more, e, read_cmds_loop) (rw (agree cmd r' e) refl)
  | inr (thrown, e) ↦ rw (more, e, read_cmds_loop) refl
]

enough_rounds :
    (m n : ℕ) (r : Reader)
    → r.position ≤ length r.buffer
    → length r.buffer ≤ r.position + m
    → length r.buffer ≤ r.position + n
    → read_cmds_loop m r ≡ read_cmds_loop n r
enough_rounds zero n r inside hm hn =
    let ended = eof-at_end r (omega arith) inside in
    loop_eof zero r ended ∙ sym (loop_eof n r ended)
enough_rounds (suc m) zero r inside hm hn =
    let ended = eof-at_end r (omega arith) inside in
    loop_eof (suc m) r ended ∙ sym (loop_eof zero r ended)
enough_rounds (suc m) (suc n) r inside hm hn = elim (Bool-cases (eof r)) [
  | inl ended ↦ loop_eof (suc m) r ended ∙ sym (loop_eof (suc n) r ended)
  | inr more ↦ loop_next m n r more λ cmd r' e.
      let ((same, _, within), further) = read_cmd-Onward r r' cmd inside e in
      let size = ap length same in enough_rounds m n r' (omega arith) (omega arith) (omega arith)
]

-- The loop that reads commands ends by its test or by a throw within as many rounds as there are
-- bytes: with any further rounds it returns, or throws, the same.
pub read_cmds_rounds :
    (buf : List ℕ) (further : ℕ)
    → read_cmds_loop (length buf + further) (new_reader buf) ≡ read_cmds buf
unfolding read_cmds new_reader
read_cmds_rounds buf further =
    enough_rounds (length buf + further) (length buf) (new_reader buf) (omega arith) (omega arith)
      (omega arith)
