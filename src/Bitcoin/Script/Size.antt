-- ===== src/Bitcoin/Script/Size.antt =====
-- The bytes that a script takes.
use node_lightning.Bitcoin.OpCodes.{op_pushdata1, op_pushdata2}
use node_lightning.Common.{
  ℕ, suc, Bool-cases, inl, inr, ◌+◌, ◌%◌, ◌≤◌, ◌≡◌, refl, leb, if◌then◌else◌, List, [], ◌∷◌, ◌++◌,
  length, length-append, ok, All, arith,
}
use node_lightning.Common.Bytes.{le_bytes, length-le_bytes}
use node_lightning.Bitcoin.Script.{Cmd, opcode, push, Script, serialize_cmd, serialize_cmds}
use node_lightning.Bitcoin.Script.RoundTrip.{IsPlain}

-- An opcode takes a byte; a push takes a byte, or from 76 bytes on two, or from 256 on three, and the
-- bytes that it pushes.
abbrev pub cmd_size : Cmd → ℕ
cmd_size (opcode op) = 1
cmd_size (push bs) =
    (if leb (length bs) 75 then 1 else (if leb (length bs) 255 then 2 else 3)) + length bs

abbrev pub script_size : Script → ℕ
script_size [] = 0
script_size (cmd ∷ cmds) = cmd_size cmd + script_size cmds

module _ (bs : List ℕ) where
  push_1 :
      1 ≤ length bs
      → length bs ≤ 75
      → (serialize_cmd (push bs) ≡ ok (length bs ∷ bs)) × (suc (length bs) ≡ cmd_size (push bs))
  unfolding serialize_cmd
  push_1 h k = (ground arith, ground arith)

  push_2 :
      76 ≤ length bs
      → length bs ≤ 255
      → (serialize_cmd (push bs) ≡ ok (op_pushdata1 ∷ length bs ∷ bs))
        × (suc (suc (length bs)) ≡ cmd_size (push bs))
  unfolding serialize_cmd
  push_2 h k = (ground arith, ground arith)

  push_3 :
      256 ≤ length bs
      → length bs ≤ 520
      → (serialize_cmd (push bs) ≡ ok (op_pushdata2 ∷ le_bytes 2 (length bs) ++ bs))
        × (suc (length (le_bytes 2 (length bs) ++ bs)) ≡ cmd_size (push bs))
  unfolding serialize_cmd
  push_3 h k = (
    ground arith,
    ground (arith, length-append (le_bytes 2 (length bs)) bs, length-le_bytes 2 (length bs)),
  )

abbrev Sized : Cmd → Type 0
Sized cmd = (bytes : List ℕ) × (serialize_cmd cmd ≡ ok bytes) × (length bytes ≡ cmd_size cmd)

cmd-Sized : (cmd : Cmd) → IsPlain cmd → Sized cmd
cmd-Sized (opcode op) h = (op % 256 ∷ [], unfold serialize_cmd in refl, refl)
cmd-Sized (push bs) (low, high) = elim (Bool-cases (leb (length bs) 75)) [
  | inl direct ↦ let (e, size) = push_1 bs low (ground arith) in (length bs ∷ bs, e, size)
  | inr longer ↦ elim (Bool-cases (leb (length bs) 255)) [
    | inl byte ↦
        let (e, size) = push_2 bs (ground arith) (ground arith) in
        (op_pushdata1 ∷ length bs ∷ bs, e, size)
    | inr word ↦
        let (e, size) = push_3 bs (ground arith) high in
        (op_pushdata2 ∷ le_bytes 2 (length bs) ++ bs, e, size)
  ]
]

-- A script of plain commands is serialized in as many bytes as their sizes add up to.
pub serialize_cmds-size :
    (cmds : Script)
    → All IsPlain cmds
    → (bytes : List ℕ) × (serialize_cmds cmds ≡ ok bytes) × (length bytes ≡ script_size cmds)
unfolding serialize_cmds
serialize_cmds-size [] h = ([], refl, refl)
serialize_cmds-size (cmd ∷ cmds) (h, hs) =
    let (first, e, size) = cmd-Sized cmd h in
    let (rest, es, sizes) = serialize_cmds-size cmds hs in
    (first ++ rest, rw (e, es) refl, omega (arith, length-append first rest, size, sizes))
