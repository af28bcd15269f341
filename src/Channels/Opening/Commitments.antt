-- ===== src/Channels/Opening/Commitments.antt =====
-- `createRemoteCommitmentTx` and `createLocalCommitmentTx` of packages/lightning/lib/channels/Helpers.ts.
-- A field of the channel that is not assigned is refused where it is read.
pub mod Agreement
use node_lightning.Common.{
  ℕ, Bool, true, false, not, List, [], Option, none, some, Result, ok, err, ◌>>=◌,
}
use node_lightning.Bitcoin.Value.{sats}
use node_lightning.Bitcoin.Script.{Primitives}
use node_lightning.Bitcoin.Transaction.{TxBuilder}
use node_lightning.Channels.Channel.{Channel, open_payment_base_point, accept_payment_base_point}
use node_lightning.Channels.Keys.{Curve, derive_pub_key, derive_revocation_pub_key}
use node_lightning.Channels.Transactions.{Htlc, CommitmentArgs, TxError}
use node_lightning.Channels.Transactions.Build.{create_commitment}

pub data CommitmentError : Type 0 where
  unassigned : CommitmentError
  tx_error : TxError → CommitmentError

abbrev pub assigned {ℓ} : {A : Type ℓ} → Option A → Result CommitmentError A
assigned none = err unassigned
assigned (some a) = ok a

abbrev pub of_tx {ℓ} : {A : Type ℓ} → Result TxError A → Result CommitmentError A
of_tx (ok a) = ok a
of_tx (err e) = err (tx_error e)

module _ (p : Primitives) (k : Curve) where
  unfoldable pub remote_args : Channel → Result CommitmentError CommitmentArgs
  unfolding open_payment_base_point accept_payment_base_point derive_pub_key
      derive_revocation_pub_key
  remote_args c = do
    per_commitment_point ← assigned (c.their_side.next_commitment_point)
    revocation_base_point ← assigned (c.our_side.revocation_base_point)
    delayed_base_point ← assigned (c.their_side.delayed_base_point)
    remote_key ← assigned (c.our_side.payment_base_point)
    local_htlc_base_point ← assigned (c.their_side.htlc_base_point)
    remote_htlc_base_point ← assigned (c.our_side.htlc_base_point)
    number ← assigned (c.their_side.next_commitment_number)
    open_point ← assigned (open_payment_base_point c)
    accept_point ← assigned (accept_payment_base_point c)
    out_point ← assigned (c.funding_out_point)
    dust_limit ← assigned (c.their_side.dust_limit)
    fee_rate ← assigned (c.fee_rate_per_kw)
    delay ← assigned (c.their_side.to_self_delay_blocks)
    local_value ← assigned (c.their_side.balance)
    remote_value ← assigned (c.our_side.balance)
    ok (record {
      is_funder_local = not c.funder;
      commitment_number = number;
      open_payment_base_point = open_point;
      accept_payment_base_point = accept_point;
      funding_out_point = out_point;
      dust_limit_satoshi = dust_limit;
      fee_per_kw = sats fee_rate;
      local_delay = delay;
      local_value = local_value;
      remote_value = remote_value;
      revocation_pub_key =
          derive_revocation_pub_key p.sha256 k per_commitment_point revocation_base_point;
      delayed_pub_key = derive_pub_key p.sha256 k per_commitment_point delayed_base_point;
      remote_pub_key = remote_key;
      reverse_htlcs = true;
      local_htlc_pub_key = derive_pub_key p.sha256 k per_commitment_point local_htlc_base_point;
      remote_htlc_pub_key = derive_pub_key p.sha256 k per_commitment_point remote_htlc_base_point;
      htlcs = [];
    })

  unfoldable pub local_args : Channel → Result CommitmentError CommitmentArgs
  unfolding open_payment_base_point accept_payment_base_point derive_pub_key
      derive_revocation_pub_key
  local_args c = do
    per_commitment_point ← assigned (c.our_side.next_commitment_point)
    revocation_base_point ← assigned (c.their_side.revocation_base_point)
    delayed_base_point ← assigned (c.our_side.delayed_base_point)
    remote_key ← assigned (c.their_side.payment_base_point)
    local_htlc_base_point ← assigned (c.our_side.htlc_base_point)
    remote_htlc_base_point ← assigned (c.their_side.htlc_base_point)
    number ← assigned (c.our_side.next_commitment_number)
    open_point ← assigned (open_payment_base_point c)
    accept_point ← assigned (accept_payment_base_point c)
    out_point ← assigned (c.funding_out_point)
    dust_limit ← assigned (c.our_side.dust_limit)
    fee_rate ← assigned (c.fee_rate_per_kw)
    delay ← assigned (c.our_side.to_self_delay_blocks)
    local_value ← assigned (c.our_side.balance)
    remote_value ← assigned (c.their_side.balance)
    ok (record {
      is_funder_local = c.funder;
      commitment_number = number;
      open_payment_base_point = open_point;
      accept_payment_base_point = accept_point;
      funding_out_point = out_point;
      dust_limit_satoshi = dust_limit;
      fee_per_kw = sats fee_rate;
      local_delay = delay;
      local_value = local_value;
      remote_value = remote_value;
      revocation_pub_key =
          derive_revocation_pub_key p.sha256 k per_commitment_point revocation_base_point;
      delayed_pub_key = derive_pub_key p.sha256 k per_commitment_point delayed_base_point;
      remote_pub_key = remote_key;
      reverse_htlcs = false;
      local_htlc_pub_key = derive_pub_key p.sha256 k per_commitment_point local_htlc_base_point;
      remote_htlc_pub_key = derive_pub_key p.sha256 k per_commitment_point remote_htlc_base_point;
      htlcs = [];
    })

  unfoldable pub create_remote_commitment_tx :
      Channel → Result CommitmentError (TxBuilder × List Htlc)
  unfolding remote_args create_commitment
  create_remote_commitment_tx c = remote_args c >>= λ a. of_tx (create_commitment p a)

  unfoldable pub create_local_commitment_tx :
      Channel → Result CommitmentError (TxBuilder × List Htlc)
  unfolding local_args create_commitment
  create_local_commitment_tx c = local_args c >>= λ a. of_tx (create_commitment p a)
