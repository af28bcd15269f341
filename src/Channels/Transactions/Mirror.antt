-- ===== src/Channels/Transactions/Mirror.antt =====
-- The commitment transaction of one side, as both sides make it.
use node_lightning.Common.{
  ℕ, suc, ◌+◌, ◌*◌, ◌/◌, ◌≡◌, refl, sym, ap, ap₂, ◌∙◌, Bool, true, false, not, leb, Bool-cases, inl,
  inr, List, [], ◌∷◌, ◌++◌, map, length, Option, none, some, Result, ok, err, ◌>>=◌,
}
use mathlib.Core.List.{map-append}
use node_lightning.Bitcoin.Value.{sats}
use node_lightning.Bitcoin.Script.{Primitives}
use node_lightning.Bitcoin.Transaction.{TxOut, TxBuilder, add_output}
use node_lightning.Bitcoin.Sequence.{Sequence}
use node_lightning.Bitcoin.LockTime.{LockTime}
use node_lightning.Channels.Commitment.Number.{obscure, get_sequence, get_lock_time}
use node_lightning.Channels.Scripts.{to_local_script}
use node_lightning.Channels.Transactions.{
  HtlcDirection, offered, accepted, Htlc, CommitmentArgs, TxError, owner_offered, fee_weight,
  is_kept, unpruned_htlcs, base_fee, local_after_fee, remote_after_fee, CommitmentOutput,
  expires_after, sorts_after, of_sequence, of_locktime, insert_output, sort_commitment_outputs,
  add_outputs, sorted_htlcs,
}
use node_lightning.Channels.Transactions.Build.{
  p2wsh_output, htlc_script, htlc_outputs, to_local_output, to_remote_output, commitment_outputs,
  new_commitment, commitment_tx, create_commitment,
}

-- An HTLC as the other side sees it.
abbrev pub flip : HtlcDirection → HtlcDirection
flip offered = accepted
flip accepted = offered

abbrev pub flip_htlc : Htlc → Htlc
flip_htlc htlc = record htlc { direction = flip htlc.direction }

-- The arguments of the side that makes the other one's transaction, in place of its own.
abbrev pub mirror : CommitmentArgs → CommitmentArgs
mirror a = record a { reverse_htlcs = not a.reverse_htlcs; htlcs = map flip_htlc a.htlcs }

flip_option : Option Htlc → Option Htlc
flip_option none = none
flip_option (some htlc) = some (flip_htlc htlc)

flip_output : CommitmentOutput → CommitmentOutput
flip_output (txout, htlc) = (txout, flip_option htlc)

owner_offered-flip :
    (r : Bool) (d : HtlcDirection) → owner_offered (not r) (flip d) ≡ owner_offered r d
unfolding owner_offered
owner_offered-flip true offered = refl
owner_offered-flip true accepted = refl
owner_offered-flip false offered = refl
owner_offered-flip false accepted = refl

fee_weight-flip : (r : Bool) (d : HtlcDirection) → fee_weight (not r) (flip d) ≡ fee_weight r d
unfolding fee_weight
fee_weight-flip true offered = refl
fee_weight-flip true accepted = refl
fee_weight-flip false offered = refl
fee_weight-flip false accepted = refl

module _ (a : CommitmentArgs) where
  is_kept-mirror : (htlc : Htlc) → is_kept (mirror a) (flip_htlc htlc) ≡ is_kept a htlc
  unfolding is_kept
  is_kept-mirror htlc =
      ap (λ (w : ℕ). leb (sats a.dust_limit_satoshi + w * a.fee_per_kw / 1000) (sats htlc.value))
        (fee_weight-flip a.reverse_htlcs htlc.direction)

  unpruned-mirror :
      (htlcs : List Htlc)
      → unpruned_htlcs (mirror a) (map flip_htlc htlcs) ≡ map flip_htlc (unpruned_htlcs a htlcs)
  unfolding unpruned_htlcs
  unpruned-mirror [] = refl
  unpruned-mirror (htlc ∷ htlcs) = elim (Bool-cases (is_kept a htlc)) [
    | inl kept ↦
        rw (is_kept-mirror htlc, kept) (ap (λ l. flip_htlc htlc ∷ l) (unpruned-mirror htlcs))
    | inr pruned ↦ rw (is_kept-mirror htlc, pruned) (unpruned-mirror htlcs)
  ]

  length-flip : (htlcs : List Htlc) → length (map flip_htlc htlcs) ≡ length htlcs
  length-flip [] = refl
  length-flip (htlc ∷ htlcs) = ap suc (length-flip htlcs)

  base_fee-mirror : base_fee (mirror a) ≡ base_fee a
  unfolding base_fee
  base_fee-mirror =
      ap (λ (n : ℕ). (724 + n * 172) * a.fee_per_kw / 1000)
        (ap length (unpruned-mirror a.htlcs) ∙ length-flip (unpruned_htlcs a a.htlcs))

  local-mirror : local_after_fee (mirror a) ≡ local_after_fee a
  unfolding local_after_fee
  local-mirror = rw base_fee-mirror refl

  remote-mirror : remote_after_fee (mirror a) ≡ remote_after_fee a
  unfolding remote_after_fee
  remote-mirror = rw base_fee-mirror refl

-- The outputs with their HTLCs flipped.
abbrev flipped : List CommitmentOutput → Result TxError (List CommitmentOutput)
flipped txouts = ok (map flip_output txouts)

cons-flipped :
    (htlc : Htlc) (first : Result TxError TxOut) (rest : Result TxError (List CommitmentOutput))
    → (first >>= λ txout.
        (rest >>= flipped) >>= λ txouts. ok ((txout, some (flip_htlc htlc)) ∷ txouts))
      ≡ ((first >>= λ txout. rest >>= λ txouts. ok ((txout, some htlc) ∷ txouts)) >>= flipped)
unfolding flip_output flip_option
cons-flipped htlc (err e) rest = refl
cons-flipped htlc (ok txout) (err e) = refl
cons-flipped htlc (ok txout) (ok txouts) = refl

single-flipped :
    (first : Result TxError TxOut)
    → ((first >>= λ txout. ok ((txout, none) ∷ [])) >>= flipped)
      ≡ (first >>= λ txout. ok ((txout, none) ∷ []))
unfolding flip_output flip_option
single-flipped (err e) = refl
single-flipped (ok txout) = refl

-- How the outputs are put together.
abbrev joined :
    Result TxError (List CommitmentOutput)
    → Result TxError (List CommitmentOutput)
    → Result TxError (List CommitmentOutput)
    → Result TxError (List CommitmentOutput)
joined htlcs to_local to_remote =
    htlcs >>= λ hs. to_local >>= λ ls. to_remote >>= λ rs. ok (hs ++ ls ++ rs)

append-flipped :
    (htlcs to_local to_remote : Result TxError (List CommitmentOutput))
    → (to_local >>= flipped) ≡ to_local
    → (to_remote >>= flipped) ≡ to_remote
    → joined (htlcs >>= flipped) to_local to_remote ≡ (joined htlcs to_local to_remote >>= flipped)
append-flipped (err e) to_local to_remote l r = refl
append-flipped (ok hs) (err e) to_remote l r = refl
append-flipped (ok hs) (ok ls) (err e) l r = refl
append-flipped (ok hs) (ok ls) (ok rs) l r =
    let keep_l : map flip_output ls ≡ ls = cc l in
    let keep_r : map flip_output rs ≡ rs = cc r in
    ap ok (
      ap₂ (λ xs ys. map flip_output hs ++ xs ++ ys) (sym keep_l) (sym keep_r)
      ∙ ap (λ xs. xs ++ map flip_output rs) (sym (map-append flip_output hs ls))
      ∙ sym (map-append flip_output (hs ++ ls) rs))

module _ (p : Primitives) (a : CommitmentArgs) where
  htlc_script-mirror :
      (htlc : Htlc) → htlc_script p (mirror a) (flip_htlc htlc) ≡ htlc_script p a htlc
  unfolding htlc_script
  htlc_script-mirror htlc = rw (owner_offered-flip a.reverse_htlcs htlc.direction) refl

  htlc_outputs-mirror :
      (htlcs : List Htlc)
      → htlc_outputs p (mirror a) (map flip_htlc htlcs) ≡ (htlc_outputs p a htlcs >>= flipped)
  unfolding htlc_outputs flip_output flip_option
  htlc_outputs-mirror [] = refl
  htlc_outputs-mirror (htlc ∷ htlcs) =
      ap₂
        (λ script rest. p2wsh_output p htlc.value script >>= λ txout.
          rest >>= λ txouts. ok ((txout, some (flip_htlc htlc)) ∷ txouts))
        (htlc_script-mirror htlc) (htlc_outputs-mirror htlcs)
      ∙ cons-flipped htlc (p2wsh_output p htlc.value (htlc_script p a htlc))
          (htlc_outputs p a htlcs)

  to_local-mirror : to_local_output p (mirror a) ≡ to_local_output p a
  unfolding to_local_output
  to_local-mirror = rw (local-mirror a) refl

  to_remote-mirror : to_remote_output p (mirror a) ≡ to_remote_output p a
  unfolding to_remote_output
  to_remote-mirror = rw (remote-mirror a) refl

  to_local-plain : (to_local_output p a >>= flipped) ≡ to_local_output p a
  unfolding to_local_output flip_output flip_option
  to_local-plain = elim (Bool-cases (leb (sats a.dust_limit_satoshi) (sats (local_after_fee a)))) [
    | inl kept ↦ rw kept (
        single-flipped (
          p2wsh_output p (local_after_fee a)
            (to_local_script a.revocation_pub_key a.delayed_pub_key a.local_delay)))
    | inr pruned ↦ rw pruned refl
  ]

  to_remote-plain : (to_remote_output p a >>= flipped) ≡ to_remote_output p a
  unfolding to_remote_output flip_output flip_option
  to_remote-plain =
      elim (Bool-cases (leb (sats a.dust_limit_satoshi) (sats (remote_after_fee a)))) [
        | inl kept ↦ rw kept (single-flipped _)
        | inr pruned ↦ rw pruned refl
      ]

  commitment_outputs-mirror : commitment_outputs p (mirror a) ≡ (commitment_outputs p a >>= flipped)
  unfolding commitment_outputs
  commitment_outputs-mirror =
      let unpruned = unpruned_htlcs a a.htlcs in
      ap
        (λ htlcs.
          joined (htlc_outputs p (mirror a) htlcs) (to_local_output p (mirror a))
            (to_remote_output p (mirror a)))
        (unpruned-mirror a a.htlcs)
      ∙ ap (λ htlcs. joined htlcs (to_local_output p (mirror a)) (to_remote_output p (mirror a)))
          (htlc_outputs-mirror unpruned)
      ∙ ap₂ (joined (htlc_outputs p a unpruned >>= flipped)) to_local-mirror to_remote-mirror
      ∙ append-flipped (htlc_outputs p a unpruned) (to_local_output p a) (to_remote_output p a)
          to_local-plain to_remote-plain

sorts_after-flip :
    (x y : CommitmentOutput) → sorts_after (flip_output x) (flip_output y) ≡ sorts_after x y
unfolding sorts_after flip_output flip_option expires_after
sorts_after-flip (x, none) (y, none) = refl
sorts_after-flip (x, none) (y, some k) = refl
sorts_after-flip (x, some h) (y, none) = refl
sorts_after-flip (x, some h) (y, some k) = refl

insert-flip :
    (x : CommitmentOutput) (ys : List CommitmentOutput)
    → insert_output (flip_output x) (map flip_output ys) ≡ map flip_output (insert_output x ys)
unfolding insert_output
insert-flip x [] = refl
insert-flip x (y ∷ ys) = elim (Bool-cases (sorts_after x y)) [
  | inl after ↦ rw (sorts_after-flip x y, after) (ap (λ l. flip_output y ∷ l) (insert-flip x ys))
  | inr before ↦ rw (sorts_after-flip x y, before) refl
]

sort-flip :
    (xs : List CommitmentOutput)
    → sort_commitment_outputs (map flip_output xs) ≡ map flip_output (sort_commitment_outputs xs)
unfolding sort_commitment_outputs
sort-flip [] = refl
sort-flip (x ∷ xs) =
    ap (insert_output (flip_output x)) (sort-flip xs) ∙ insert-flip x (sort_commitment_outputs xs)

add_outputs-flip :
    (xs : List CommitmentOutput) (tx : TxBuilder)
    → add_outputs (map flip_output xs) tx ≡ add_outputs xs tx
unfolding add_outputs flip_output
add_outputs-flip [] tx = refl
add_outputs-flip ((txout, htlc) ∷ xs) tx = add_outputs-flip xs (add_output txout tx)

sorted_htlcs-flip :
    (xs : List CommitmentOutput)
    → sorted_htlcs (map flip_output xs) ≡ map flip_htlc (sorted_htlcs xs)
unfolding sorted_htlcs flip_output flip_option
sorted_htlcs-flip [] = refl
sorted_htlcs-flip ((txout, none) ∷ xs) = sorted_htlcs-flip xs
sorted_htlcs-flip ((txout, some htlc) ∷ xs) = ap (λ l. flip_htlc htlc ∷ l) (sorted_htlcs-flip xs)

-- The last steps of `createCommitment`.
abbrev made :
    CommitmentArgs
    → Result TxError Sequence
    → Result TxError LockTime
    → Result TxError (List CommitmentOutput)
    → Result TxError (TxBuilder × List Htlc)
made a sequence locktime txouts = sequence >>= λ s.
    locktime >>= λ l. txouts >>= λ outs. ok (commitment_tx a s l (sort_commitment_outputs outs))

-- A transaction with its HTLCs seen from the other side.
abbrev pub other_side : TxBuilder × List Htlc → Result TxError (TxBuilder × List Htlc)
other_side (tx, htlcs) = ok (tx, map flip_htlc htlcs)

made-flipped :
    (a : CommitmentArgs) (sequence : Result TxError Sequence) (locktime : Result TxError LockTime)
    (txouts : Result TxError (List CommitmentOutput))
    → made (mirror a) sequence locktime (txouts >>= flipped)
      ≡ (made a sequence locktime txouts >>= other_side)
unfolding commitment_tx new_commitment
made-flipped a (err e) locktime txouts = refl
made-flipped a (ok s) (err e) txouts = refl
made-flipped a (ok s) (ok l) (err e) = refl
made-flipped a (ok s) (ok l) (ok outs) =
    ap₂ (λ (tx : TxBuilder) (htlcs : List Htlc). ok (tx, htlcs))
      (ap (λ xs. add_outputs xs (new_commitment a s l)) (sort-flip outs)
        ∙ add_outputs-flip (sort_commitment_outputs outs) (new_commitment a s l))
      (ap sorted_htlcs (sort-flip outs) ∙ sorted_htlcs-flip (sort_commitment_outputs outs))

-- The two sides of a channel make the same commitment transaction: where each sees the HTLCs in the
-- opposite direction and one of them reverses them, the transactions, or the errors, are equal, and
-- the HTLCs of the outputs are the same ones in the same order.
pub create_commitment-mirror :
    (p : Primitives) (a : CommitmentArgs)
    → create_commitment p (mirror a) ≡ (create_commitment p a >>= other_side)
unfolding create_commitment
create_commitment-mirror p a =
    let obscured =
      obscure p.sha256 a.commitment_number a.open_payment_base_point a.accept_payment_base_point in
    let sequence = of_sequence (get_sequence obscured) in
    let locktime = of_locktime (get_lock_time obscured) in
    ap (made (mirror a) sequence locktime) (commitment_outputs-mirror p a)
    ∙ made-flipped a sequence locktime (commitment_outputs p a)
