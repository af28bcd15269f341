-- ===== src/Channels/Transactions.antt =====
-- packages/lightning/lib/channels/TxFactory.ts, with domain/Htlc.ts: the funding output, and the
-- commitment and HTLC transactions (BOLT 3). The arguments of `createCommitment` are a record. A bigint
-- that the source compares after a subtraction is compared by an addition here.
pub mod Build
pub mod Htlcs
pub mod Mirror
pub mod Amounts
pub mod Bounds
use node_lightning.Common.{
  ℕ, ◌+◌, ◌-◌, ◌*◌, ◌/◌, ◌^◌, Bool, true, false, ltb, leb, ◌==◌, not, ◌&&◌, ◌||◌, if◌then◌else◌,
  List, [], ◌∷◌, ◌++◌, length, Option, none, some, Result, ok, err, ◌>>=◌,
}
use node_lightning.Bitcoin.Value.{Value, sats, from_sats, zero_value}
use node_lightning.Bitcoin.Sequence.{Sequence, SequenceError, zero_sequence}
use node_lightning.Bitcoin.LockTime.{LockTime, LockTimeError, new_lock_time}
use node_lightning.Bitcoin.Script.{Script, ScriptError, Primitives}
use node_lightning.Bitcoin.Script.Locks.{p2wsh_lock_script, p2wpkh_lock}
use node_lightning.Bitcoin.Transaction.{
  OutPoint, TxOut, TxBuilder, new_tx_out, new_tx, add_input, add_output,
}
use node_lightning.Channels.Commitment.Number.{obscure, get_sequence, get_lock_time}
use node_lightning.Channels.Scripts.{
  comes_after, to_local_script, funding_script, offered_htlc_script, received_htlc_script,
}

pub data HtlcDirection : Type 0 where
  offered accepted : HtlcDirection

pub record Htlc : Type 0 where
  pub htlc_id : ℕ
  pub direction : HtlcDirection
  pub value : Value
  pub cltv_expiry : ℕ
  pub payment_hash : List ℕ

pub record CommitmentArgs : Type 0 where
  pub is_funder_local : Bool
  pub commitment_number : ℕ
  pub open_payment_base_point : List ℕ
  pub accept_payment_base_point : List ℕ
  pub funding_out_point : OutPoint
  pub dust_limit_satoshi : Value
  pub fee_per_kw : ℕ
  pub local_delay : ℕ
  pub local_value : Value
  pub remote_value : Value
  pub revocation_pub_key : List ℕ
  pub delayed_pub_key : List ℕ
  pub remote_pub_key : List ℕ
  pub reverse_htlcs : Bool
  pub local_htlc_pub_key : List ℕ
  pub remote_htlc_pub_key : List ℕ
  pub htlcs : List Htlc

-- What the parts of a transaction throw.
pub data TxError : Type 0 where
  script_error : ScriptError → TxError
  sequence_error : SequenceError → TxError
  locktime_error : LockTimeError → TxError

abbrev pub of_script {ℓ} : {A : Type ℓ} → Result ScriptError A → Result TxError A
of_script (ok a) = ok a
of_script (err e) = err (script_error e)

abbrev pub of_sequence : Result SequenceError Sequence → Result TxError Sequence
of_sequence (ok a) = ok a
of_sequence (err e) = err (sequence_error e)

abbrev pub of_locktime : Result LockTimeError LockTime → Result TxError LockTime
of_locktime (ok a) = ok a
of_locktime (err e) = err (locktime_error e)

-- `(!reverseHtlcs && Offered) || (reverseHtlcs && Accepted)`: the owner of the transaction offered it.
unfoldable pub owner_offered : Bool → HtlcDirection → Bool
owner_offered false offered = true
owner_offered false accepted = false
owner_offered true offered = false
owner_offered true accepted = true

-- The weight of the transaction that spends the HTLC.
unfoldable pub fee_weight : Bool → HtlcDirection → ℕ
fee_weight true offered = 703
fee_weight true accepted = 663
fee_weight false offered = 663
fee_weight false accepted = 703

-- `satsLessFee >= dustLimitSatoshi.sats`
unfoldable pub is_kept : CommitmentArgs → Htlc → Bool
unfolding fee_weight
is_kept a htlc =
    let fee_in_sats : ℕ = fee_weight a.reverse_htlcs htlc.direction * a.fee_per_kw / 1000 in
    leb (sats a.dust_limit_satoshi + fee_in_sats) (sats htlc.value)

unfoldable pub unpruned_htlcs : CommitmentArgs → List Htlc → List Htlc
unfolding is_kept
unpruned_htlcs a [] = []
unpruned_htlcs a (htlc ∷ htlcs) =
    let rest = unpruned_htlcs a htlcs in if is_kept a htlc then htlc ∷ rest else rest

unfoldable pub base_fee : CommitmentArgs → ℕ
unfolding unpruned_htlcs
base_fee a = (724 + length (unpruned_htlcs a a.htlcs) * 172) * a.fee_per_kw / 1000

-- The balance of the funding node less the fee, or nothing.
unfoldable pub less_fee : Value → ℕ → Value
less_fee value fee = if ltb 0 (sats value - fee) then from_sats (sats value - fee) else zero_value

unfoldable pub local_after_fee : CommitmentArgs → Value
unfolding less_fee base_fee
local_after_fee a = if a.is_funder_local then less_fee a.local_value (base_fee a) else a.local_value

unfoldable pub remote_after_fee : CommitmentArgs → Value
unfolding less_fee base_fee
remote_after_fee a =
    if a.is_funder_local then a.remote_value else less_fee a.remote_value (base_fee a)

-- An output, with the HTLC that it is of.
abbrev pub CommitmentOutput : Type 0
CommitmentOutput = TxOut × Option Htlc

-- `a[1].cltvExpiry - b[1].cltvExpiry`
unfoldable pub expires_after : Option Htlc → Option Htlc → Bool
expires_after (some a) (some b) = ltb b.cltv_expiry a.cltv_expiry
expires_after a b = false

-- Whether the sort puts `a` behind `b`: by the satoshis, by the scripts, and by the expiry. Equal outputs
-- of which one is no HTLC stay in their order; the source throws there. Only scripts with one hash make
-- such outputs.
unfoldable pub sorts_after : CommitmentOutput → CommitmentOutput → Bool
unfolding comes_after expires_after
sorts_after (a, ha) (b, hb) =
    if ltb (sats b.value) (sats a.value)
    then true
    else (if ltb (sats a.value) (sats b.value)
        then false
        else (if comes_after a.script_pub_key b.script_pub_key
            then true
            else (if comes_after b.script_pub_key a.script_pub_key
                then false
                else expires_after ha hb)))

-- The sort is stable: an output goes behind those that do not sort after it.
unfoldable pub insert_output : CommitmentOutput → List CommitmentOutput → List CommitmentOutput
unfolding sorts_after
insert_output x [] = x ∷ []
insert_output x (y ∷ ys) =
    let rest = insert_output x ys in if sorts_after x y then y ∷ rest else x ∷ y ∷ ys

unfoldable pub sort_commitment_outputs : List CommitmentOutput → List CommitmentOutput
unfolding insert_output
sort_commitment_outputs [] = []
sort_commitment_outputs (x ∷ xs) = insert_output x (sort_commitment_outputs xs)

-- The outputs and the HTLCs of the sorted outputs, in their order.
unfoldable pub add_outputs : List CommitmentOutput → TxBuilder → TxBuilder
unfolding add_output
add_outputs [] tx = tx
add_outputs ((txout, htlc) ∷ txouts) tx = add_outputs txouts (add_output txout tx)

unfoldable pub sorted_htlcs : List CommitmentOutput → List Htlc
sorted_htlcs [] = []
sorted_htlcs ((txout, none) ∷ txouts) = sorted_htlcs txouts
sorted_htlcs ((txout, some htlc) ∷ txouts) = htlc ∷ sorted_htlcs txouts
