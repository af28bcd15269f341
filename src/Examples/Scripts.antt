-- ===== src/Examples/Scripts.antt =====
-- Runs of packages/bitcoin/lib/Script.ts and of channels/ScriptFactory.ts.
use node_lightning.Common.{
  ℕ, ◌+◌, ◌≤◌, ◌<◌, ◌⊎◌, err, ◌≡◌, refl, inr, List, [], ◌∷◌, length, replicate, All, ok, arith,
}
use node_lightning.Bitcoin.Stack.{pos, negsuc, encode_num, decode_num}
use node_lightning.Bitcoin.Stack.RoundTrip.{decode_num-encode_num}
use node_lightning.Bitcoin.Script.{
  Script, multi_sig_setup_invalid, pub_key_invalid, opcode, push, serialize_cmds, read_cmds,
  read_cmds_loop,
}
use node_lightning.Bitcoin.Script.Locks.{number, p2ms_lock}
use node_lightning.Bitcoin.Script.RoundTrip.{IsPlain, read_cmds-serialize_cmds}
use node_lightning.Bitcoin.Script.Rounds.{read_cmds_rounds}
use node_lightning.Bitcoin.Script.Size.{cmd_size}
use node_lightning.Bitcoin.Script.Standard.{
  Serializes, pay_to_witness_pubkey_hash, Takes, Locked, locked_hash, lock_error, lock_with,
  lock_with-bytes,
}
use node_lightning.Bitcoin.Script.MultiSig.{AllValid, p2ms_bytes, p2ms_lock-bytes}
use node_lightning.Bufio.Reader.{new_reader}
use node_lightning.Channels.Scripts.{funding_script, received_htlc_script}
use node_lightning.Channels.Scripts.Funding.{Sorted, funding_bytes, funding_script-bytes}
use node_lightning.Channels.Scripts.Sizes.{funding_script_comm, received_htlc_script-size}
use node_lightning.Examples.Primitives.{toy}

decode_num-encode_num_example : decode_num (encode_num (negsuc 254)) ≡ negsuc 254
decode_num-encode_num_example = decode_num-encode_num (negsuc 254)

abbrev two_cmds : Script
two_cmds = opcode 0xa9 ∷ push (replicate 80 5) ∷ []

two_cmds-IsPlain : All IsPlain two_cmds
two_cmds-IsPlain = ((inr (omega arith), omega arith), ((omega arith, omega arith), tt))

read_cmds-serialize_cmds_example :
    (bytes : List ℕ) × (serialize_cmds two_cmds ≡ ok bytes) × (read_cmds bytes ≡ ok two_cmds)
read_cmds-serialize_cmds_example = read_cmds-serialize_cmds two_cmds two_cmds-IsPlain

abbrev three_bytes : List ℕ
three_bytes = 2 ∷ 9 ∷ 9 ∷ []

read_cmds_rounds_example :
    read_cmds_loop (length three_bytes + 5) (new_reader three_bytes) ≡ read_cmds three_bytes
read_cmds_rounds_example = read_cmds_rounds three_bytes 5

abbrev key_a : List ℕ
key_a = replicate 33 2

abbrev key_b : List ℕ
key_b = replicate 33 3

lock_with-bytes_example :
    (Takes toy pay_to_witness_pubkey_hash key_a
      × Locked pay_to_witness_pubkey_hash
          (locked_hash toy pay_to_witness_pubkey_hash key_a)
          (lock_with toy pay_to_witness_pubkey_hash key_a))
    ⊎ ((¬ Takes toy pay_to_witness_pubkey_hash key_a)
        × (lock_with toy pay_to_witness_pubkey_hash key_a
            ≡ err (lock_error pay_to_witness_pubkey_hash)))
lock_with-bytes_example = lock_with-bytes toy pay_to_witness_pubkey_hash key_a

abbrev two_keys_of : List (List ℕ)
two_keys_of = key_a ∷ key_b ∷ []

p2ms_lock-bytes_example :
    (AllValid toy two_keys_of
      × (1 ≤ 2)
      × (2 ≤ length two_keys_of)
      × (length two_keys_of ≤ 20)
      × ((script : Script) × (p2ms_lock toy 2 two_keys_of ≡ ok script)
          × (serialize_cmds script ≡ ok (p2ms_bytes 2 two_keys_of))
          × (read_cmds (p2ms_bytes 2 two_keys_of) ≡ ok script)))
    ⊎ (AllValid toy two_keys_of
        × (◌≡◌ {A = ℕ} 2 0 ⊎ (length two_keys_of < 2) ⊎ (20 < length two_keys_of))
        × (p2ms_lock toy 2 two_keys_of ≡ err multi_sig_setup_invalid))
    ⊎ ((¬ AllValid toy two_keys_of) × (p2ms_lock toy 2 two_keys_of ≡ err pub_key_invalid))
p2ms_lock-bytes_example = p2ms_lock-bytes toy 2 two_keys_of

funding_script_comm_example : funding_script toy key_a key_b ≡ funding_script toy key_b key_a
funding_script_comm_example = funding_script_comm toy key_a key_b

funding_script-bytes_example :
    (low high : List ℕ) × Sorted key_b key_a low high
    × (script : Script) × (funding_script toy key_b key_a ≡ ok script)
    × (serialize_cmds script ≡ ok (funding_bytes low high))
    × (read_cmds (funding_bytes low high) ≡ ok script)
funding_script-bytes_example = funding_script-bytes toy key_b key_a refl refl refl refl

received_htlc_script-size_example :
    Serializes
      (received_htlc_script toy (4 ∷ []) 700_000 (5 ∷ []) key_a key_b)
      (135 + cmd_size (number (pos 700_000)))
received_htlc_script-size_example =
    received_htlc_script-size toy (4 ∷ []) 700_000 (5 ∷ []) key_a key_b (omega arith) refl refl
