-- ===== src/Channels/Transactions/Htlcs.antt =====
-- `createHtlcTimeout` and `createHtlcSuccess` of packages/lightning/lib/channels/TxFactory.ts.
use node_lightning.Common.{ℕ, ◌-◌, ◌*◌, ◌/◌, ltb, if◌then◌else◌, List, Result, ok, ◌>>=◌}
use node_lightning.Bitcoin.Value.{Value, sats, from_sats}
use node_lightning.Bitcoin.Sequence.{zero_sequence}
use node_lightning.Bitcoin.LockTime.{new_lock_time}
use node_lightning.Bitcoin.Script.{Primitives}
use node_lightning.Bitcoin.Transaction.{TxBuilder, new_tx, add_input, add_output}
use node_lightning.Channels.Scripts.{to_local_script}
use node_lightning.Channels.Transactions.{Htlc, TxError, of_sequence, of_locktime}
use node_lightning.Channels.Transactions.Build.{p2wsh_output}

-- The value of an HTLC less the fee of a transaction of that weight, or nothing.
unfoldable pub htlc_less_fee : ℕ → ℕ → Htlc → Value
htlc_less_fee weight fee_per_kw htlc =
    let fees : ℕ = weight * fee_per_kw / 1000 in
    from_sats (if ltb (sats htlc.value) fees then 0 else sats htlc.value - fees)

module _ (p : Primitives) where
  module _ (commitment_tx : List ℕ) (output_index local_delay : ℕ)
      (revocation_pub_key delayed_pub_key : List ℕ) (fee_per_kw : ℕ) (htlc : Htlc) where
    unfoldable pub create_htlc_timeout : Result TxError TxBuilder
    unfolding htlc_less_fee zero_sequence new_lock_time new_tx add_input add_output p2wsh_output
        to_local_script
    create_htlc_timeout = do
      sequence ← of_sequence zero_sequence
      txout ←
          p2wsh_output p (htlc_less_fee 663 fee_per_kw htlc)
            (to_local_script revocation_pub_key delayed_pub_key local_delay)
      locktime ← of_locktime (new_lock_time htlc.cltv_expiry)
      ok
          (record (add_output txout (
            add_input (record { txid = commitment_tx; output_index = output_index }) sequence
              new_tx)) { locktime = locktime })

    unfoldable pub create_htlc_success : Result TxError TxBuilder
    unfolding htlc_less_fee zero_sequence new_lock_time new_tx add_input add_output p2wsh_output
        to_local_script
    create_htlc_success = do
      sequence ← of_sequence zero_sequence
      txout ←
          p2wsh_output p (htlc_less_fee 703 fee_per_kw htlc)
            (to_local_script revocation_pub_key delayed_pub_key local_delay)
      locktime ← of_locktime (new_lock_time 0)
      ok
          (record (add_output txout (
            add_input (record { txid = commitment_tx; output_index = output_index }) sequence
              new_tx)) { locktime = locktime })
