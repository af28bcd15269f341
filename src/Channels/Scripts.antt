-- ===== src/Channels/Scripts.antt =====
-- packages/lightning/lib/channels/ScriptFactory.ts: the scripts of the funding transaction and of the
-- commitment transactions (BOLT 3).
pub mod Sizes
pub mod Funding
use node_lightning.Common.{ℕ, Bool, true, false, ltb, ◌==◌, if◌then◌else◌, List, [], ◌∷◌, Result}
use node_lightning.Bitcoin.OpCodes.{
  op_2, op_if, op_notif, op_else, op_endif, op_drop, op_dup, op_swap, op_size, op_equal,
  op_equalverify, op_hash160, op_checksig, op_checkmultisig, op_checklocktimeverify,
  op_checksequenceverify,
}
use node_lightning.Bitcoin.Stack.{pos}
use node_lightning.Bitcoin.Script.{opcode, push, Script, ScriptError, Primitives}
use node_lightning.Bitcoin.Script.Locks.{number, p2ms_lock}

-- Whether `Buffer.compare` puts the second argument before the first.
unfoldable pub comes_after : List ℕ → List ℕ → Bool
comes_after [] b = false
comes_after (x ∷ a) [] = true
comes_after (x ∷ a) (y ∷ b) =
    let rest = comes_after a b in if ltb y x then true else if x == y then rest else false

-- `[openPubKey, acceptPubKey].sort((a, b) => a.compare(b))`
unfoldable pub sort_keys : List ℕ → List ℕ → List (List ℕ)
unfolding comes_after
sort_keys open_pub_key accept_pub_key =
    if comes_after open_pub_key accept_pub_key
    then accept_pub_key ∷ open_pub_key ∷ []
    else open_pub_key ∷ accept_pub_key ∷ []

unfoldable pub to_local_script : List ℕ → List ℕ → ℕ → Script
unfolding number
to_local_script revocation_pub_key delayed_pub_key to_self_delay =
    opcode op_if
    ∷ push revocation_pub_key
    ∷ opcode op_else
    ∷ number (pos to_self_delay)
    ∷ opcode op_checksequenceverify
    ∷ opcode op_drop
    ∷ push delayed_pub_key
    ∷ opcode op_endif
    ∷ opcode op_checksig
    ∷ []

module _ (p : Primitives) where
  unfoldable pub funding_script : List ℕ → List ℕ → Result ScriptError Script
  unfolding sort_keys p2ms_lock
  funding_script open_pub_key accept_pub_key = p2ms_lock p 2 (sort_keys open_pub_key accept_pub_key)

  unfoldable pub offered_htlc_script : List ℕ → List ℕ → List ℕ → List ℕ → Script
  unfolding number
  offered_htlc_script payment_hash revocation_pub_key local_htlc_pub_key remote_htlc_pub_key =
      opcode op_dup
      ∷ opcode op_hash160
      ∷ push (p.hash160 revocation_pub_key)
      ∷ opcode op_equal
      ∷ opcode op_if
      ∷ opcode op_checksig
      ∷ opcode op_else
      ∷ push remote_htlc_pub_key
      ∷ opcode op_swap
      ∷ opcode op_size
      ∷ number (pos 32)
      ∷ opcode op_equal
      ∷ opcode op_notif
      ∷ opcode op_drop
      ∷ opcode op_2
      ∷ opcode op_swap
      ∷ push local_htlc_pub_key
      ∷ opcode op_2
      ∷ opcode op_checkmultisig
      ∷ opcode op_else
      ∷ opcode op_hash160
      ∷ push (p.ripemd160 payment_hash)
      ∷ opcode op_equalverify
      ∷ opcode op_checksig
      ∷ opcode op_endif
      ∷ opcode op_endif
      ∷ []

  unfoldable pub received_htlc_script : List ℕ → ℕ → List ℕ → List ℕ → List ℕ → Script
  unfolding number
  received_htlc_script payment_hash cltv_expiry revocation_pub_key local_htlc_pub_key
        remote_htlc_pub_key =
      opcode op_dup
      ∷ opcode op_hash160
      ∷ push (p.hash160 revocation_pub_key)
      ∷ opcode op_equal
      ∷ opcode op_if
      ∷ opcode op_checksig
      ∷ opcode op_else
      ∷ push remote_htlc_pub_key
      ∷ opcode op_swap
      ∷ opcode op_size
      ∷ number (pos 32)
      ∷ opcode op_equal
      ∷ opcode op_if
      ∷ opcode op_hash160
      ∷ push (p.ripemd160 payment_hash)
      ∷ opcode op_equalverify
      ∷ opcode op_2
      ∷ opcode op_swap
      ∷ push local_htlc_pub_key
      ∷ opcode op_2
      ∷ opcode op_checkmultisig
      ∷ opcode op_else
      ∷ opcode op_drop
      ∷ number (pos cltv_expiry)
      ∷ opcode op_checklocktimeverify
      ∷ opcode op_drop
      ∷ opcode op_checksig
      ∷ opcode op_endif
      ∷ opcode op_endif
      ∷ []
