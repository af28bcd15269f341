-- ===== src/Examples/Transactions.antt =====
-- Runs of packages/lightning/lib/channels/TxFactory.ts.
use node_lightning.Common.{
  ◌+◌, ◌≤◌, ◌≡◌, refl, min, true, false, List, [], ◌∷◌, replicate, All, Result, ok, err, ◌>>=◌,
}
use node_lightning.Common.Bytes.{be_value}
use node_lightning.Bitcoin.Sequence.{new_sequence}
use node_lightning.Bitcoin.LockTime.{new_lock_time}
use node_lightning.Channels.Commitment.Number.{get_hash}
use node_lightning.Bitcoin.Value.{from_sats, sats}
use node_lightning.Bitcoin.Transaction.{TxBuilder, new_tx}
use node_lightning.Channels.Transactions.{
  Htlc, offered, accepted, CommitmentArgs, TxError, base_fee,
}
use node_lightning.Channels.Transactions.Build.{create_commitment}
use node_lightning.Channels.Transactions.Mirror.{mirror, other_side, create_commitment-mirror}
use node_lightning.Channels.Transactions.Amounts.{total_sats, htlc_sats}
use node_lightning.Channels.Transactions.Bounds.{
  funder_sats, create_commitment-covered, create_commitment-no_dust,
}
use node_lightning.Examples.Primitives.{toy}

abbrev kept_htlc : Htlc
kept_htlc = record {
  htlc_id = 0;
  direction = offered;
  value = from_sats 5000;
  cltv_expiry = 500;
  payment_hash = 1 ∷ [];
}

abbrev dust_htlc : Htlc
dust_htlc = record {
  htlc_id = 1;
  direction = accepted;
  value = from_sats 600;
  cltv_expiry = 600;
  payment_hash = 2 ∷ [];
}

abbrev args : CommitmentArgs
args = record {
  is_funder_local = true;
  commitment_number = 42;
  open_payment_base_point = replicate 33 2;
  accept_payment_base_point = replicate 33 3;
  funding_out_point = record { txid = 9 ∷ []; output_index = 0 };
  dust_limit_satoshi = from_sats 546;
  fee_per_kw = 1000;
  local_delay = 144;
  local_value = from_sats 100_000;
  remote_value = from_sats 50_000;
  revocation_pub_key = replicate 33 2;
  delayed_pub_key = replicate 33 2;
  remote_pub_key = replicate 33 3;
  reverse_htlcs = false;
  local_htlc_pub_key = replicate 33 2;
  remote_htlc_pub_key = replicate 33 3;
  htlcs = kept_htlc ∷ dust_htlc ∷ [];
}

made : Result TxError (TxBuilder × List Htlc) → TxBuilder × List Htlc
made (ok result) = result
made (err e) = (new_tx, [])

abbrev run : TxBuilder × List Htlc
unfolding made create_commitment
run = made (create_commitment toy args)

run_lem : create_commitment toy args ≡ ok (run.0, run.1)
unfolding create_commitment run new_sequence get_hash be_value new_lock_time
run_lem = refl

create_commitment-mirror_example :
    create_commitment toy (mirror args) ≡ (create_commitment toy args >>= other_side)
create_commitment-mirror_example = create_commitment-mirror toy args

create_commitment-covered_example :
    total_sats (run.0).outputs + min (base_fee args) (funder_sats args)
    ≤ sats args.local_value + sats args.remote_value + htlc_sats args.htlcs
create_commitment-covered_example = create_commitment-covered toy args run.0 run.1 run_lem

create_commitment-no_dust_example :
    All (λ o. sats args.dust_limit_satoshi ≤ sats o.value) (run.0).outputs
create_commitment-no_dust_example = create_commitment-no_dust toy args run.0 run.1 run_lem
