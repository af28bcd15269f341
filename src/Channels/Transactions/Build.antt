-- ===== src/Channels/Transactions/Build.antt =====
-- `createFundingOutput` and `createCommitment` of packages/lightning/lib/channels/TxFactory.ts.
use node_lightning.Common.{
  ℕ, leb, if◌then◌else◌, List, [], ◌∷◌, ◌++◌, none, some, Result, ok, ◌>>=◌,
}
use node_lightning.Bitcoin.Value.{Value, sats}
use node_lightning.Bitcoin.Sequence.{Sequence}
use node_lightning.Bitcoin.LockTime.{LockTime}
use node_lightning.Bitcoin.Script.{Script, Primitives}
use node_lightning.Bitcoin.Script.Locks.{p2wsh_lock_script, p2wpkh_lock}
use node_lightning.Bitcoin.Transaction.{TxOut, TxBuilder, new_tx_out, new_tx, add_input}
use node_lightning.Channels.Commitment.Number.{obscure, get_sequence, get_lock_time}
use node_lightning.Channels.Scripts.{
  to_local_script, funding_script, offered_htlc_script, received_htlc_script,
}
use node_lightning.Channels.Transactions.{
  Htlc, CommitmentArgs, TxError, of_script, of_sequence, of_locktime, owner_offered, unpruned_htlcs,
  local_after_fee, remote_after_fee, CommitmentOutput, sort_commitment_outputs, add_outputs,
  sorted_htlcs,
}

-- The transaction before its outputs: the funding input with the nSequence, and the nLockTime.
unfoldable pub new_commitment : CommitmentArgs → Sequence → LockTime → TxBuilder
unfolding add_input new_tx
new_commitment a sequence locktime =
    record (add_input a.funding_out_point sequence (record new_tx { version = 2 })) {
      locktime = locktime;
    }

-- The transaction of the sorted outputs.
unfoldable pub commitment_tx :
    CommitmentArgs → Sequence → LockTime → List CommitmentOutput → TxBuilder × List Htlc
unfolding add_outputs new_commitment sorted_htlcs
commitment_tx a sequence locktime txouts =
    (add_outputs txouts (new_commitment a sequence locktime), sorted_htlcs txouts)

module _ (p : Primitives) where
  -- `new TxOut(value, Script.p2wshLock(script))`
  unfoldable pub p2wsh_output : Value → Script → Result TxError TxOut
  unfolding p2wsh_lock_script new_tx_out
  p2wsh_output value script =
      of_script (p2wsh_lock_script p script >>= λ lock. new_tx_out value lock)

  unfoldable pub create_funding_output : Value → List ℕ → List ℕ → Result TxError TxOut
  unfolding funding_script p2wsh_output
  create_funding_output value open_pub_key accept_pub_key =
      of_script (funding_script p open_pub_key accept_pub_key) >>= λ script.
      p2wsh_output value script

  unfoldable pub htlc_script : CommitmentArgs → Htlc → Script
  unfolding owner_offered offered_htlc_script received_htlc_script
  htlc_script a htlc =
      if owner_offered a.reverse_htlcs htlc.direction
      then offered_htlc_script p htlc.payment_hash a.revocation_pub_key a.local_htlc_pub_key
          a.remote_htlc_pub_key
      else received_htlc_script p htlc.payment_hash htlc.cltv_expiry a.revocation_pub_key
          a.local_htlc_pub_key a.remote_htlc_pub_key

  unfoldable pub htlc_outputs : CommitmentArgs → List Htlc → Result TxError (List CommitmentOutput)
  unfolding htlc_script p2wsh_output
  htlc_outputs a [] = ok []
  htlc_outputs a (htlc ∷ htlcs) = do
    txout ← p2wsh_output htlc.value (htlc_script a htlc)
    txouts ← htlc_outputs a htlcs
    ok ((txout, some htlc) ∷ txouts)

  -- The output of the owner of the transaction, if it is not dust.
  unfoldable pub to_local_output : CommitmentArgs → Result TxError (List CommitmentOutput)
  unfolding local_after_fee to_local_script p2wsh_output
  to_local_output a =
      if leb (sats a.dust_limit_satoshi) (sats (local_after_fee a))
      then (p2wsh_output (local_after_fee a)
            (to_local_script a.revocation_pub_key a.delayed_pub_key a.local_delay)
          >>= λ txout. ok ((txout, none) ∷ []))
      else ok []

  -- The output of the other side, if it is not dust.
  unfoldable pub to_remote_output : CommitmentArgs → Result TxError (List CommitmentOutput)
  unfolding remote_after_fee p2wpkh_lock new_tx_out
  to_remote_output a =
      if leb (sats a.dust_limit_satoshi) (sats (remote_after_fee a))
      then (of_script
            (p2wpkh_lock p a.remote_pub_key >>= λ lock. new_tx_out (remote_after_fee a) lock)
          >>= λ txout. ok ((txout, none) ∷ []))
      else ok []

  unfoldable pub commitment_outputs : CommitmentArgs → Result TxError (List CommitmentOutput)
  unfolding unpruned_htlcs htlc_outputs to_local_output to_remote_output
  commitment_outputs a = do
    htlcs ← htlc_outputs a (unpruned_htlcs a a.htlcs)
    to_local ← to_local_output a
    to_remote ← to_remote_output a
    ok (htlcs ++ to_local ++ to_remote)

  unfoldable pub create_commitment : CommitmentArgs → Result TxError (TxBuilder × List Htlc)
  unfolding obscure get_sequence get_lock_time commitment_outputs sort_commitment_outputs
      commitment_tx
  create_commitment a =
      let obscured =
        obscure p.sha256 a.commitment_number a.open_payment_base_point
          a.accept_payment_base_point in
      of_sequence (get_sequence obscured) >>= λ sequence.
      of_locktime (get_lock_time obscured) >>= λ locktime. commitment_outputs a >>= λ txouts.
      ok (commitment_tx a sequence locktime (sort_commitment_outputs txouts))
