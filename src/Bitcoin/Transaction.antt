-- ===== src/Bitcoin/Transaction.antt =====
-- packages/bitcoin/lib: OutPoint.ts, TxIn.ts and TxOut.ts as far as a transaction that is built holds
-- them, and of TxBuilder.ts the parts that build it.
use node_lightning.Common.{ℕ, List, [], ◌∷◌, ◌++◌, Result, ok, ◌>>=◌}
use node_lightning.Bitcoin.Value.{Value}
use node_lightning.Bitcoin.Sequence.{Sequence}
use node_lightning.Bitcoin.LockTime.{LockTime}
use node_lightning.Bitcoin.Script.{Script, ScriptError, serialize_cmds}

pub record OutPoint : Type 0 where
  pub txid : List ℕ
  pub output_index : ℕ

pub record TxIn : Type 0 where
  pub outpoint : OutPoint
  pub sequence : Sequence

-- The script is its bytes, as a ScriptBuf.
pub record TxOut : Type 0 where
  pub value : Value
  pub script_pub_key : List ℕ

-- The constructor of a TxOut, which serializes a Script.
unfoldable pub new_tx_out : Value → Script → Result ScriptError TxOut
unfolding serialize_cmds
new_tx_out value script = do
  buf ← serialize_cmds script
  ok (record { value = value; script_pub_key = buf })

pub record TxBuilder : Type 0 where
  pub version : ℕ
  pub locktime : LockTime
  pub inputs : List TxIn
  pub outputs : List TxOut

-- The constructor. A LockTime is 0xffffffff by default.
unfoldable pub new_tx : TxBuilder
new_tx = record {
  version = 2;
  locktime = record { value = 0xffff_ffff };
  inputs = [];
  outputs = [];
}

unfoldable pub add_input : OutPoint → Sequence → TxBuilder → TxBuilder
add_input outpoint sequence tx = record tx {
  inputs = tx.inputs ++ record { outpoint = outpoint; sequence = sequence } ∷ [];
}

unfoldable pub add_output : TxOut → TxBuilder → TxBuilder
add_output value tx = record tx { outputs = tx.outputs ++ value ∷ [] }
