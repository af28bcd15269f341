-- ===== src/Bitcoin/Script/RoundTrip.antt =====
-- A script that was serialized is read back.
use node_lightning.Common.{
  ℕ, zero, suc, ◌%◌, ◌≤◌, ◌<◌, ◌≡◌, ◌⊎◌, refl, ap, ◌∙◌, true, false, leb, Bool-cases, ==_iff,
  ne→==_false, inl, inr, List, [], ◌∷◌, ◌++◌, append_assoc, length, length-append, length-drop,
  some, ok, All, arith,
}
use node_lightning.Common.Bytes.{le_bytes, little_endian}
use node_lightning.Bitcoin.OpCodes.{op_pushdata1, op_pushdata2}
use node_lightning.Bitcoin.Script.{
  Cmd, opcode, push, Script, serialize_cmd, serialize_cmds, as_push, read_operand, read_cmd,
  read_cmds_loop, read_cmds,
}
use node_lightning.Bufio.Reader.{Reader, Read, new_reader, advance, eof, read_uint16_le, read_bytes}
use node_lightning.Bufio.Reader.Ahead.{Ahead, read_bytes-Ahead}
use node_lightning.Bufio.Reader.Varint.{read_uint8-Ahead, fixed-Ahead}

-- An opcode that stands for no push, and a push that is not empty and has 520 bytes at most.
abbrev pub IsPlain : Cmd → Type 0
IsPlain (opcode op) = ((op ≡ 0) ⊎ (0x4d < op)) × (op < 256)
IsPlain (push bs) = (1 ≤ length bs) × (length bs ≤ 520)

abbrev Reads : List ℕ → Cmd → Type 0
Reads bytes cmd =
    (r : Reader) (rest : List ℕ)
    → Ahead r (bytes ++ rest)
    → (r' : Reader) × (read_cmd r ≡ ok (cmd, r')) × Ahead r' rest

abbrev Codes : Cmd → Type 0
Codes cmd = (bytes : List ℕ) × (serialize_cmd cmd ≡ ok bytes) × (1 ≤ length bytes) × Reads bytes cmd

operand_opcode :
    (op : ℕ) (br : Reader) → (op ≡ 0) ⊎ (0x4d < op) → read_operand op br ≡ ok (opcode op, br)
unfolding read_operand
operand_opcode op br h = ground arith

operand_bytes :
    (op : ℕ) (br : Reader)
    → 1 ≤ op
    → op ≤ 75
    → read_operand op br ≡ as_push (read_bytes (some op) br)
unfolding read_operand
operand_bytes op br h k = ground arith

-- A read of the first byte, and then of the operand.
read_cmd-of_operand :
    (r : Reader) (op : ℕ) (rest : List ℕ) (result : Read Cmd)
    → Ahead r (op ∷ rest)
    → read_operand op (advance 1 r) ≡ result
    → read_cmd r ≡ result
unfolding read_cmd
read_cmd-of_operand r op rest result h e = rw ((read_uint8-Ahead r op rest h).0) e

push-Ahead :
    (r : Reader) (bs rest : List ℕ)
    → 1 ≤ length bs
    → Ahead r (bs ++ rest)
    → (as_push (read_bytes (some (length bs)) r) ≡ ok (push bs, advance (length bs) r))
      × Ahead (advance (length bs) r) rest
unfolding as_push
push-Ahead r bs rest nonempty h =
    let (e, h') =
      read_bytes-Ahead r bs rest h (length bs) refl (λ none_there. absurd (omega arith)) in
    (rw e refl, h')

opcode-Codes : (op : ℕ) → IsPlain (opcode op) → Codes (opcode op)
unfolding serialize_cmd
opcode-Codes op (h, byte) = (
  op % 256 ∷ [],
  refl,
  omega arith,
  λ r rest ahead.
      let same : op % 256 ≡ op = omega arith in
      let here : Ahead r (op ∷ rest) = rw same at ahead in
      (
        advance 1 r,
        read_cmd-of_operand r op rest _ here (operand_opcode op (advance 1 r) h),
        (read_uint8-Ahead r op rest here).1,
      ),
)

module _ (bs : List ℕ) where
  push_direct : 1 ≤ length bs → length bs ≤ 75 → Codes (push bs)
  unfolding serialize_cmd
  push_direct h k = (
    length bs ∷ bs,
    ground arith,
    omega arith,
    λ r rest ahead.
        let (e, behind) =
          push-Ahead (advance 1 r) bs rest h
            (read_uint8-Ahead r (length bs) (bs ++ rest) ahead).1 in
        (
          advance (length bs) (advance 1 r),
          read_cmd-of_operand r (length bs) (bs ++ rest) _ ahead
              (operand_bytes (length bs) (advance 1 r) h k ∙ e),
          behind,
        ),
  )

  push_data1 : 76 ≤ length bs → length bs ≤ 255 → Codes (push bs)
  unfolding serialize_cmd read_operand
  push_data1 h k = (
    op_pushdata1 ∷ length bs ∷ bs,
    ground arith,
    omega arith,
    λ r rest ahead.
        let r₁ : Reader = advance 1 r in
        let after_op = (read_uint8-Ahead r op_pushdata1 (length bs ∷ bs ++ rest) ahead).1 in
        let (e₁, after_length) = read_uint8-Ahead r₁ (length bs) (bs ++ rest) after_op in
        let (e₂, behind) = push-Ahead (advance 1 r₁) bs rest (omega arith) after_length in
        (
          advance (length bs) (advance 1 r₁),
          read_cmd-of_operand r op_pushdata1 (length bs ∷ bs ++ rest) _ ahead (rw e₁ e₂),
          behind,
        ),
  )

  push_data2 : 256 ≤ length bs → length bs ≤ 520 → Codes (push bs)
  unfolding serialize_cmd read_operand read_uint16_le
  push_data2 h k = (
    op_pushdata2 ∷ le_bytes 2 (length bs) ++ bs,
    ground arith,
    omega (arith, length-append (le_bytes 2 (length bs)) bs),
    λ r rest ahead.
        let r₁ : Reader = advance 1 r in
        let size : List ℕ = le_bytes 2 (length bs) in
        let after_op = (read_uint8-Ahead r op_pushdata2 ((size ++ bs) ++ rest) ahead).1 in
        let (e₁, after_length) =
          fixed-Ahead little_endian r₁ 2 (length bs) (bs ++ rest) (omega arith)
            (rw (append_assoc size bs rest) at after_op) in
        let (e₂, behind) = push-Ahead (advance 2 r₁) bs rest (omega arith) after_length in
        (
          advance (length bs) (advance 2 r₁),
          read_cmd-of_operand r op_pushdata2 ((size ++ bs) ++ rest) _ ahead (rw e₁ e₂),
          behind,
        ),
  )

cmd-Codes : (cmd : Cmd) → IsPlain cmd → Codes cmd
cmd-Codes (opcode op) h = opcode-Codes op h
cmd-Codes (push bs) (low, high) = elim (Bool-cases (leb (length bs) 75)) [
  | inl direct ↦ push_direct bs low (ground arith)
  | inr longer ↦ elim (Bool-cases (leb (length bs) 255)) [
    | inl byte ↦ push_data1 bs (ground arith) (ground arith)
    | inr word ↦ push_data2 bs (ground arith) high
  ]
]

eof-Ahead : (r : Reader) → Ahead r [] → eof r ≡ true
unfolding eof
eof-Ahead r h = (==_iff _ _).1 (omega (arith, h.1, length-drop r.position r.buffer, ap length h.0))

not_eof : (r : Reader) (bytes : List ℕ) → Ahead r bytes → 1 ≤ length bytes → eof r ≡ false
unfolding eof
not_eof r bytes h nonempty =
    ne→==_false _ _ (λ e. absurd (omega (arith, e, length-drop r.position r.buffer, ap length h.0)))

loop_end : (left : ℕ) (r : Reader) → Ahead r [] → read_cmds_loop left r ≡ ok []
unfolding read_cmds_loop
loop_end zero r h = refl
loop_end (suc left) r h = rw (eof-Ahead r h, read_cmds_loop) refl

loop_step :
    (left : ℕ) (r r' : Reader) (cmd : Cmd) (cmds : Script)
    → eof r ≡ false
    → read_cmd r ≡ ok (cmd, r')
    → read_cmds_loop left r' ≡ ok cmds
    → read_cmds_loop (suc left) r ≡ ok (cmd ∷ cmds)
unfolding read_cmds_loop
loop_step left r r' cmd cmds more e rest = rw (more, read_cmds_loop) (rw e (rw rest refl))

abbrev ReadsAll : List ℕ → Script → Type 0
ReadsAll bytes cmds =
    (left : ℕ) (r : Reader) → length bytes ≤ left → Ahead r bytes → read_cmds_loop left r ≡ ok cmds

cmds_cons :
    (cmd : Cmd) (cmds : Script) (first bytes : List ℕ)
    → 1 ≤ length first
    → Reads first cmd
    → ReadsAll bytes cmds
    → ReadsAll (first ++ bytes) (cmd ∷ cmds)
cmds_cons cmd cmds first bytes nonempty reads all zero r enough h =
    absurd (omega (arith, length-append first bytes))
cmds_cons cmd cmds first bytes nonempty reads all (suc left) r enough h =
    let (r', e, h') = reads r bytes h in
    let size = length-append first bytes in
    loop_step left r r' cmd cmds (not_eof r (first ++ bytes) h (omega (arith, size))) e
      (all left r' (omega (arith, size)) h')

cmds-Codes :
    (cmds : Script)
    → All IsPlain cmds
    → (bytes : List ℕ) × (serialize_cmds cmds ≡ ok bytes) × ReadsAll bytes cmds
unfolding serialize_cmds
cmds-Codes [] h = ([], refl, λ left r enough ahead. loop_end left r ahead)
cmds-Codes (cmd ∷ cmds) (h, hs) =
    let (first, e, nonempty, reads) = cmd-Codes cmd h in
    let (bytes, es, all) = cmds-Codes cmds hs in
    (first ++ bytes, rw (e, es) refl, cmds_cons cmd cmds first bytes nonempty reads all)

-- A script of opcodes that stand for no push and of pushes of 1 to 520 bytes is serialized, and the
-- bytes are read as the same commands.
pub read_cmds-serialize_cmds :
    (cmds : Script)
    → All IsPlain cmds
    → (bytes : List ℕ) × (serialize_cmds cmds ≡ ok bytes) × (read_cmds bytes ≡ ok cmds)
unfolding read_cmds new_reader
read_cmds-serialize_cmds cmds h =
    let (bytes, e, all) = cmds-Codes cmds h in
    (bytes, e, all (length bytes) (new_reader bytes) (omega arith) (refl, omega arith))
