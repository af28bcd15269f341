-- ===== src/Bitcoin/Script/Locks.antt =====
-- The standard scripts of packages/bitcoin/lib/Script.ts, and the checks on what they are given, with
-- packages/bitcoin/lib/SigHashType.ts.
use node_lightning.Common.{
  ℕ, ◌+◌, ◌-◌, Bool, false, ltb, leb, ◌==◌, ◌&&◌, ◌||◌, not, if◌then◌else◌, List, [], ◌∷◌, ◌++◌,
  map, length, take, get_elem?, Option, none, some, Result, ok, err, ◌>>=◌, ◌>>◌,
}
use node_lightning.Bitcoin.OpCodes.{
  op_0, op_dup, op_hash160, op_equal, op_equalverify, op_checksig, op_checkmultisig,
}
use node_lightning.Bitcoin.Stack.{ℤ, pos, negsuc, encode_num}
use node_lightning.Bitcoin.Script.{
  Cmd, opcode, push, Script, ScriptError, pub_key_invalid, sig_encoding_invalid,
  sig_hash_type_invalid, multi_sig_setup_invalid, hash160_invalid, hash256_invalid, Primitives,
  serialize_cmds,
}

-- `Script.number`
unfoldable pub number : ℤ → Cmd
unfolding encode_num
number (pos val) =
    if val == 0
    then opcode op_0
    else (if leb 1 val && leb val 16 then opcode (0x50 + val) else push (encode_num (pos val)))
number (negsuc n) = push (encode_num (negsuc n))

unfoldable pub is_sig_hash_type_valid : Option ℕ → Bool
is_sig_hash_type_valid none = false
is_sig_hash_type_valid (some type) =
    type == 0x01 || type == 0x02 || type == 0x03 || type == 0x81 || type == 0x82 || type == 0x83

module _ (p : Primitives) where
  unfoldable pub assert_valid_sig : List ℕ → Result ScriptError (Unit {0})
  unfolding is_sig_hash_type_valid
  assert_valid_sig sig =
      if not (p.is_der_sig (take (length sig - 1) sig))
      then err sig_encoding_invalid
      else (if not (is_sig_hash_type_valid (get_elem? sig (length sig - 1)))
          then err sig_hash_type_invalid
          else ok tt)

  unfoldable pub assert_valid_pub_key : List ℕ → Result ScriptError (Unit {0})
  assert_valid_pub_key pubkey =
      if not (p.valid_public_key pubkey) then err pub_key_invalid else ok tt

  -- `for (const pubkey of pubkeys) assertValidPubKey(pubkey)`
  unfoldable pub assert_pub_keys : List (List ℕ) → Result ScriptError (Unit {0})
  unfolding assert_valid_pub_key
  assert_pub_keys [] = ok tt
  assert_pub_keys (pubkey ∷ pubkeys) = assert_valid_pub_key pubkey >> assert_pub_keys pubkeys

  -- `for (const sig of sigs) asssertValidSig(sig)`
  unfoldable pub assert_sigs : List (List ℕ) → Result ScriptError (Unit {0})
  unfolding assert_valid_sig
  assert_sigs [] = ok tt
  assert_sigs (sig ∷ sigs) = assert_valid_sig sig >> assert_sigs sigs

  unfoldable pub p2pk_lock : List ℕ → Result ScriptError Script
  unfolding assert_valid_pub_key
  p2pk_lock pubkey = do assert_valid_pub_key pubkey; ok (push pubkey ∷ opcode op_checksig ∷ [])

  unfoldable pub p2pk_unlock : List ℕ → Result ScriptError Script
  unfolding assert_valid_sig
  p2pk_unlock sig = do assert_valid_sig sig; ok (push sig ∷ [])

  -- A value that has not the size of a hash has to be a public key, which is hashed.
  unfoldable pub key_hash : List ℕ → Result ScriptError (List ℕ)
  unfolding assert_valid_pub_key
  key_hash value =
      if length value == 20 then ok value else (assert_valid_pub_key value >> ok (p.hash160 value))

  unfoldable pub p2pkh_lock : List ℕ → Result ScriptError Script
  unfolding key_hash
  p2pkh_lock value = do
    hash ← key_hash value
    ok (
        opcode op_dup
        ∷ opcode op_hash160
        ∷ push hash
        ∷ opcode op_equalverify
        ∷ opcode op_checksig
        ∷ [])

  unfoldable pub p2pkh_unlock : List ℕ → List ℕ → Result ScriptError Script
  unfolding assert_valid_sig assert_valid_pub_key
  p2pkh_unlock sig pubkey = do
    assert_valid_sig sig
    assert_valid_pub_key pubkey
    ok (push sig ∷ push pubkey ∷ [])

  unfoldable pub p2ms_lock : ℕ → List (List ℕ) → Result ScriptError Script
  unfolding assert_pub_keys number
  p2ms_lock m pubkeys =
      assert_pub_keys pubkeys
      >> (if ltb m 1 || ltb (length pubkeys) m || length pubkeys == 0 || ltb 20 (length pubkeys)
          then err multi_sig_setup_invalid
          else ok (
              number (pos m)
              ∷ (map push pubkeys ++ number (pos (length pubkeys)) ∷ opcode op_checkmultisig ∷ [])))

  unfoldable pub p2ms_unlock : List (List ℕ) → Result ScriptError Script
  unfolding assert_sigs
  p2ms_unlock sigs = do assert_sigs sigs; ok (opcode op_0 ∷ map push sigs)

  -- `p2shLock` of a hash, and of a script.
  unfoldable pub p2sh_lock : List ℕ → Result ScriptError Script
  p2sh_lock hash =
      if not (length hash == 20)
      then err hash160_invalid
      else ok (opcode op_hash160 ∷ push hash ∷ opcode op_equal ∷ [])

  unfoldable pub p2sh_lock_script : Script → Result ScriptError Script
  unfolding serialize_cmds p2sh_lock
  p2sh_lock_script script = serialize_cmds script >>= λ buf. p2sh_lock (p.hash160 buf)

  -- `p2shUnlock`: the commands of the data, and the redeem script as a push.
  unfoldable pub p2sh_unlock : Script → List Cmd → Result ScriptError Script
  unfolding serialize_cmds
  p2sh_unlock redeem_script cmds =
      serialize_cmds redeem_script >>= λ buf. ok (cmds ++ push buf ∷ [])

  unfoldable pub p2wpkh_lock : List ℕ → Result ScriptError Script
  unfolding key_hash
  p2wpkh_lock value = do hash ← key_hash value; ok (opcode op_0 ∷ push hash ∷ [])

  -- `p2wshLock` of a hash, and of a script.
  unfoldable pub p2wsh_lock : List ℕ → Result ScriptError Script
  p2wsh_lock hash =
      if not (length hash == 32) then err hash256_invalid else ok (opcode op_0 ∷ push hash ∷ [])

  unfoldable pub p2wsh_lock_script : Script → Result ScriptError Script
  unfolding serialize_cmds p2wsh_lock
  p2wsh_lock_script script = serialize_cmds script >>= λ buf. p2wsh_lock (p.sha256 buf)
