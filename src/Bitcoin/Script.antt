-- ===== src/Bitcoin/Script.antt =====
-- packages/bitcoin/lib/Script.ts, and what ScriptBuf.ts adds to it. A command is an opcode or bytes to
-- push, a Script is its commands. What the crypto package computes is a parameter (`Primitives`).
pub mod RoundTrip
pub mod Locks
pub mod MultiSig
pub mod Standard
pub mod Rounds
pub mod Numbers
pub mod Size
use node_lightning.Common.{
  ℕ, zero, suc, ◌+◌, ◌%◌, ◌≡◌, ◌⊎◌, Bool, true, false, ltb, leb, ◌==◌, ◌&&◌, ◌||◌, not,
  if◌then◌else◌, List, [], ◌∷◌, ◌++◌, length, some, Result, ok, err, ◌>>=◌,
}
use node_lightning.Common.Bytes.{le_bytes}
use node_lightning.Bitcoin.OpCodes.{op_pushdata1, op_pushdata2}
use node_lightning.Bufio.Reader.{
  Reader, ReadError, Read, new_reader, eof, read_uint8, read_uint16_le, read_bytes, read_var_uint,
}
use node_lightning.Bufio.VarInt.{VarIntError, encode_var_int}

pub data Cmd : Type 0 where
  opcode : ℕ → Cmd
  push : List ℕ → Cmd

abbrev pub Script : Type 0
Script = List Cmd

pub data ScriptError : Type 0 where
  pub_key_invalid sig_encoding_invalid sig_hash_type_invalid multi_sig_setup_invalid : ScriptError
  hash160_invalid hash256_invalid data_too_long integer_too_large : ScriptError

-- The functions of the crypto package: hashes of a fixed size, the test of a public key, which accepts
-- the two serialized forms only, and the test of a DER signature.
pub record Primitives : Type 0 where
  pub hash160 : List ℕ → List ℕ
  pub ripemd160 : List ℕ → List ℕ
  pub sha256 : List ℕ → List ℕ
  pub valid_public_key : List ℕ → Bool
  pub is_der_sig : List ℕ → Bool
  pub length-hash160 : (bs : List ℕ) → length (hash160 bs) ≡ 20
  pub length-ripemd160 : (bs : List ℕ) → length (ripemd160 bs) ≡ 20
  pub length-sha256 : (bs : List ℕ) → length (sha256 bs) ≡ 32
  pub length-valid :
      (key : List ℕ) → valid_public_key key ≡ true → (length key ≡ 33) ⊎ (length key ≡ 65)

unfoldable pub bytes_equal : List ℕ → List ℕ → Bool
bytes_equal [] [] = true
bytes_equal (a ∷ l) (b ∷ r) = a == b && bytes_equal l r
bytes_equal l r = false

unfoldable pub equal_cmd : Cmd → Cmd → Bool
unfolding bytes_equal
equal_cmd (push l) (push r) = bytes_equal l r
equal_cmd (opcode l) (opcode r) = l == r
equal_cmd l r = false

unfoldable pub equals_loop : List Cmd → List Cmd → Bool
unfolding equal_cmd
equals_loop [] other = true
equals_loop (l ∷ cmds) [] = false
equals_loop (l ∷ cmds) (r ∷ other) = equal_cmd l r && equals_loop cmds other

unfoldable pub equals : Script → Script → Bool
unfolding equals_loop
equals this other = if length this == length other then equals_loop this other else false

-- What one command adds to the results of `serializeCmds`.
unfoldable pub serialize_cmd : Cmd → Result ScriptError (List ℕ)
serialize_cmd (opcode op) = ok (op % 256 ∷ [])
serialize_cmd (push op) =
    if leb 1 (length op) && leb (length op) 75
    then ok (length op ∷ op)
    else (if leb 76 (length op) && leb (length op) 255
        then ok (op_pushdata1 ∷ length op ∷ op)
        else (if leb 256 (length op) && leb (length op) 520
            then ok (op_pushdata2 ∷ le_bytes 2 (length op) ++ op)
            else err data_too_long))

unfoldable pub serialize_cmds : Script → Result ScriptError (List ℕ)
unfolding serialize_cmd
serialize_cmds [] = ok []
serialize_cmds (op ∷ cmds) = do
  result ← serialize_cmd op
  results ← serialize_cmds cmds
  ok (result ++ results)

unfoldable pub with_length : List ℕ → Result VarIntError (List ℕ) → Result ScriptError (List ℕ)
with_length cmd_buf (ok len) = ok (len ++ cmd_buf)
with_length cmd_buf (err e) = err integer_too_large

unfoldable pub serialize : Script → Result ScriptError (List ℕ)
unfolding serialize_cmds with_length encode_var_int
serialize script =
    serialize_cmds script >>= λ cmd_buf. with_length cmd_buf (encode_var_int (length cmd_buf))

unfoldable pub as_push : Result ReadError (List ℕ × Reader) → Read Cmd
as_push (err e) = err e
as_push (ok (bytes, br)) = ok (push bytes, br)

-- What follows the byte `op` of a command.
unfoldable pub read_operand : ℕ → Reader → Read Cmd
unfolding as_push read_bytes read_uint8 read_uint16_le
read_operand op br =
    if leb 0x01 op && leb op 0x4b
    then as_push (read_bytes (some op) br)
    else (if op == op_pushdata1
        then (read_uint8 br >>= λ (n, br'). as_push (read_bytes (some n) br'))
        else (if op == op_pushdata2
            then (read_uint16_le br >>= λ (n, br'). as_push (read_bytes (some n) br'))
            else ok (opcode op, br)))

unfoldable pub read_cmd : Reader → Read Cmd
unfolding read_uint8 read_operand
read_cmd br = read_uint8 br >>= λ (op, br'). read_operand op br'

-- `while (!br.eof)`, on the rounds left. A round reads a byte at least, so there are at most as many as
-- bytes.
unfoldable pub read_cmds_loop : ℕ → Reader → Result ReadError Script
unfolding eof read_cmd
read_cmds_loop zero br = ok []
read_cmds_loop (suc left) br = elim (eof br) [
  | true ↦ ok []
  | false ↦ read_cmd br >>= λ (cmd, br'). read_cmds_loop left br' >>= λ cmds. ok (cmd ∷ cmds)
]

-- `readCmds`, as `fromBuffer` and `parseCmds` collect it.
unfoldable pub read_cmds : List ℕ → Result ReadError Script
unfolding read_cmds_loop new_reader
read_cmds buf = read_cmds_loop (length buf) (new_reader buf)

-- `Script.parse`, and the reader behind the script.
unfoldable pub parse : Reader → Read Script
unfolding read_var_uint read_bytes read_cmds
parse reader = read_var_uint reader >>= λ (len, reader').
    read_bytes (some len) reader' >>= λ (buf, reader'').
    read_cmds buf >>= λ cmds. ok (cmds, reader'')
