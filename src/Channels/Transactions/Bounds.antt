-- ===== src/Channels/Transactions/Bounds.antt =====
-- A commitment transaction pays no more than the channel holds, and no dust.
use node_lightning.Common.{
  ℕ, subst, ◌+◌, ◌≤◌, ◌≡◌, refl, sym, ap, ◌∙◌, min, leb, if◌then◌else◌, Bool-cases, leb→le,
  >>=-eq-ok, inl, inr, List, [], ◌∷◌, ◌++◌, none, some, Result, ok, err, ◌>>=◌, All, arith,
}
use node_lightning.Bitcoin.Value.{Value, sats}
use node_lightning.Bitcoin.Sequence.{Sequence}
use node_lightning.Bitcoin.LockTime.{LockTime}
use node_lightning.Bitcoin.Script.{Script, ScriptError, Primitives, serialize_cmds}
use node_lightning.Bitcoin.Script.Locks.{p2wsh_lock_script, p2wpkh_lock}
use node_lightning.Bitcoin.Transaction.{TxOut, TxBuilder, new_tx_out, new_tx, add_input}
use node_lightning.Channels.Scripts.{to_local_script}
use node_lightning.Channels.Commitment.Number.{obscure, get_sequence, get_lock_time}
use node_lightning.Channels.Transactions.{
  Htlc, CommitmentArgs, TxError, of_script, of_sequence, of_locktime, unpruned_htlcs, base_fee,
  less_fee, local_after_fee, remote_after_fee, CommitmentOutput, sort_commitment_outputs,
  add_outputs,
}
use node_lightning.Channels.Transactions.Build.{
  p2wsh_output, htlc_script, htlc_outputs, to_local_output, to_remote_output, commitment_outputs,
  new_commitment, commitment_tx, create_commitment,
}
use node_lightning.Channels.Transactions.Amounts.{
  total_sats, htlc_sats, sum, AtLeast, NoneBelow, HtlcsAtLeast, sum-append, sum-sort,
  AtLeast-append, AtLeast-sort, total-add_outputs, NoneBelow-add_outputs, unpruned-AtMost,
  unpruned-AtLeast,
}

of_script-eq-ok : {A : Type 0} (r : Result ScriptError A) {a : A} → of_script r ≡ ok a → r ≡ ok a
of_script-eq-ok (ok a) h = cc h
of_script-eq-ok (err e) h = cc h

-- An output has the value that it is made with.
output-value :
    (lock : Result ScriptError Script) (value : Value) (o : TxOut)
    → of_script (lock >>= λ script. new_tx_out value script) ≡ ok o
    → o.value ≡ value
unfolding new_tx_out
output-value lock value o h =
    let (script, e, e') = >>=-eq-ok lock _ (of_script-eq-ok _ h) in
    let (buf, f, f') = >>=-eq-ok (serialize_cmds script) _ e' in ground (arith, f')

p2wsh_output-value :
    (p : Primitives) (value : Value) (script : Script) (o : TxOut)
    → p2wsh_output p value script ≡ ok o
    → o.value ≡ value
unfolding p2wsh_output
p2wsh_output-value p value script o h = output-value (p2wsh_lock_script p script) value o h

-- At most one output, of a value that is not below the limit.
abbrev Pays : ℕ → Value → List CommitmentOutput → Type 0
Pays limit value outs = (sum outs ≤ sats value) × AtLeast limit outs

single-Pays :
    (limit : ℕ) (value : Value) (made : Result TxError TxOut) (outs : List CommitmentOutput)
    → ((o : TxOut) → made ≡ ok o → o.value ≡ value)
    → (if leb limit (sats value) then (made >>= λ o. ok ((o, none) ∷ [])) else ok []) ≡ ok outs
    → Pays limit value outs
single-Pays limit value made outs same h = elim (Bool-cases (leb limit (sats value))) [
  | inl kept ↦
      let (o, e, e') = >>=-eq-ok made _ (rw kept at h) in
      let value_is : o.value ≡ value = same o e in
      let here : sats o.value ≡ sats value = ap sats value_is in
      let outs_are : ((o, none) ∷ []) ≡ outs = cc e' in
      subst (Pays limit value) outs_are
        (omega arith, (omega (arith, leb→le limit (sats value) kept), tt))
  | inr pruned ↦
      let outs_are : [] ≡ outs = cc (rw pruned at h) in
      subst (Pays limit value) outs_are (omega arith, tt)
]

module _ (p : Primitives) (a : CommitmentArgs) where
  htlcs-Pay :
      (htlcs : List Htlc) (outs : List CommitmentOutput) (limit : ℕ)
      → HtlcsAtLeast limit htlcs
      → htlc_outputs p a htlcs ≡ ok outs
      → (sum outs ≡ htlc_sats htlcs) × AtLeast limit outs
  unfolding htlc_outputs
  htlcs-Pay [] outs limit least h =
      let none_there : [] ≡ outs = cc h in
      subst (λ os. (sum os ≡ 0) × AtLeast limit os) none_there (refl, tt)
  htlcs-Pay (htlc ∷ htlcs) outs limit (least, rest_least) h =
      let (o, e, e') = >>=-eq-ok (p2wsh_output p htlc.value (htlc_script p a htlc)) _ h in
      let (rest, f, f') = >>=-eq-ok (htlc_outputs p a htlcs) _ e' in
      let same : sats o.value ≡ sats htlc.value =
        ap sats (p2wsh_output-value p htlc.value (htlc_script p a htlc) o e) in
      let outs_are : ((o, some htlc) ∷ rest) ≡ outs = cc f' in
      let (total, all) = htlcs-Pay htlcs rest limit rest_least f in
      subst (λ os. (sum os ≡ sats htlc.value + htlc_sats htlcs) × AtLeast limit os) outs_are
        (omega arith, (omega arith, all))

  to_local-Pays :
      (outs : List CommitmentOutput)
      → to_local_output p a ≡ ok outs
      → Pays (sats a.dust_limit_satoshi) (local_after_fee a) outs
  unfolding to_local_output
  to_local-Pays outs h =
      let script : Script = to_local_script a.revocation_pub_key a.delayed_pub_key a.local_delay in
      single-Pays (sats a.dust_limit_satoshi) (local_after_fee a)
        (p2wsh_output p (local_after_fee a) script) outs
        (p2wsh_output-value p (local_after_fee a) script) h

  to_remote-Pays :
      (outs : List CommitmentOutput)
      → to_remote_output p a ≡ ok outs
      → Pays (sats a.dust_limit_satoshi) (remote_after_fee a) outs
  unfolding to_remote_output
  to_remote-Pays outs h =
      single-Pays (sats a.dust_limit_satoshi) (remote_after_fee a)
        (of_script
          (p2wpkh_lock p a.remote_pub_key >>= λ lock. new_tx_out (remote_after_fee a) lock))
        outs (output-value (p2wpkh_lock p a.remote_pub_key) (remote_after_fee a)) h

  all-Pay :
      (outs : List CommitmentOutput)
      → commitment_outputs p a ≡ ok outs
      → (sum outs ≤ htlc_sats a.htlcs + sats (local_after_fee a) + sats (remote_after_fee a))
        × AtLeast (sats a.dust_limit_satoshi) outs
  unfolding commitment_outputs
  all-Pay outs h =
      let limit = sats a.dust_limit_satoshi in
      let (hs, e, e₁) = >>=-eq-ok (htlc_outputs p a (unpruned_htlcs a a.htlcs)) _ h in
      let (ls, f, e₂) = >>=-eq-ok (to_local_output p a) _ e₁ in
      let (rs, g, e₃) = >>=-eq-ok (to_remote_output p a) _ e₂ in
      let (h_sum, h_least) =
        htlcs-Pay (unpruned_htlcs a a.htlcs) hs limit (unpruned-AtLeast a a.htlcs) e in
      let (l_sum, l_least) = to_local-Pays ls f in
      let (r_sum, r_least) = to_remote-Pays rs g in
      let outs_are : (hs ++ ls ++ rs) ≡ outs = cc e₃ in
      subst
        (λ os.
          (sum os ≤ htlc_sats a.htlcs + sats (local_after_fee a) + sats (remote_after_fee a))
          × AtLeast limit os)
        outs_are
        (
          omega (arith, sum-append (hs ++ ls) rs, sum-append hs ls, unpruned-AtMost a a.htlcs),
          AtLeast-append limit (hs ++ ls) rs (AtLeast-append limit hs ls h_least l_least) r_least,
        )

less_fee-min :
    (value : Value) (fee : ℕ) → sats (less_fee value fee) + min fee (sats value) ≡ sats value
unfolding less_fee
less_fee-min value fee = ground arith

-- The satoshis of the side that funded the channel and pays the fee.
abbrev pub funder_sats : CommitmentArgs → ℕ
funder_sats a = if a.is_funder_local then sats a.local_value else sats a.remote_value

after_fee-min :
    (a : CommitmentArgs)
    → sats (local_after_fee a) + sats (remote_after_fee a) + min (base_fee a) (funder_sats a)
      ≡ sats a.local_value + sats a.remote_value
unfolding local_after_fee remote_after_fee
after_fee-min a = elim (Bool-cases a.is_funder_local) [
  | inl funder ↦ ground (arith, less_fee-min a.local_value (base_fee a))
  | inr fundee ↦ ground (arith, less_fee-min a.remote_value (base_fee a))
]

total-new_commitment :
    (a : CommitmentArgs) (s : Sequence) (l : LockTime) (outs : List CommitmentOutput)
    → total_sats (add_outputs outs (new_commitment a s l)).outputs ≡ sum outs
unfolding new_commitment add_input new_tx
total-new_commitment a s l outs = total-add_outputs outs (new_commitment a s l) ∙ omega arith

module _ (p : Primitives) (a : CommitmentArgs) (tx : TxBuilder) (htlcs : List Htlc) where
  made-of :
      create_commitment p a ≡ ok (tx, htlcs)
      → (outs : List CommitmentOutput) × (commitment_outputs p a ≡ ok outs)
        × (total_sats tx.outputs ≡ sum outs)
        × (AtLeast (sats a.dust_limit_satoshi) outs
            → NoneBelow (sats a.dust_limit_satoshi) tx.outputs)
  unfolding create_commitment commitment_tx new_commitment add_input new_tx
  made-of h =
      let obscured =
        obscure p.sha256 a.commitment_number a.open_payment_base_point
          a.accept_payment_base_point in
      let (s, _, e₁) = >>=-eq-ok (of_sequence (get_sequence obscured)) _ h in
      let (l, _, e₂) = >>=-eq-ok (of_locktime (get_lock_time obscured)) _ e₁ in
      let (outs, e, e₃) = >>=-eq-ok (commitment_outputs p a) _ e₂ in
      let sorted = sort_commitment_outputs outs in
      let limit = sats a.dust_limit_satoshi in
      let tx_is : add_outputs sorted (new_commitment a s l) ≡ tx = cc e₃ in
      (
        outs,
        e,
        ap (λ t. total_sats t.outputs) (sym tx_is)
            ∙ total-new_commitment a s l sorted
            ∙ sum-sort outs,
        λ least.
            subst (λ t. NoneBelow limit t.outputs) tx_is
              (NoneBelow-add_outputs limit sorted (new_commitment a s l) tt
                (AtLeast-sort limit outs least)),
      )

  -- The outputs of a commitment transaction and its base fee, or what the funding side has if that is
  -- less, are covered by the balances of both sides and the HTLCs.
  pub create_commitment-covered :
      create_commitment p a ≡ ok (tx, htlcs)
      → total_sats tx.outputs + min (base_fee a) (funder_sats a)
        ≤ sats a.local_value + sats a.remote_value + htlc_sats a.htlcs
  create_commitment-covered h =
      let (outs, e, total, _) = made-of h in omega (arith, (all-Pay p a outs e).0, after_fee-min a)

  -- No output of a commitment transaction is below the dust limit.
  pub create_commitment-no_dust :
      create_commitment p a ≡ ok (tx, htlcs)
      → All (λ o. sats a.dust_limit_satoshi ≤ sats o.value) tx.outputs
  create_commitment-no_dust h = let (outs, e, _, least) = made-of h in least (all-Pay p a outs e).1
