-- ===== src/Channels/Transactions/Amounts.antt =====
-- What the outputs of a commitment transaction amount to.
use node_lightning.Common.{
  ℕ, ◌+◌, ◌≤◌, ◌≡◌, refl, ◌∙◌, true, Bool-cases, inl, inr, List, [], ◌∷◌, ◌++◌, All, arith,
}
use node_lightning.Bitcoin.Value.{sats}
use node_lightning.Bitcoin.Transaction.{TxOut, TxBuilder, add_output}
use node_lightning.Channels.Transactions.{
  Htlc, CommitmentArgs, is_kept, unpruned_htlcs, CommitmentOutput, sorts_after, insert_output,
  sort_commitment_outputs, add_outputs,
}

abbrev pub total_sats : List TxOut → ℕ
total_sats [] = 0
total_sats (o ∷ outs) = sats o.value + total_sats outs

abbrev pub htlc_sats : List Htlc → ℕ
htlc_sats [] = 0
htlc_sats (h ∷ htlcs) = sats h.value + htlc_sats htlcs

-- The satoshis of outputs, and that none is below a limit.
abbrev pub sum : List CommitmentOutput → ℕ
sum [] = 0
sum ((o, h) ∷ outs) = sats o.value + sum outs

abbrev pub AtLeast : ℕ → List CommitmentOutput → Type 0
AtLeast limit [] = Unit
AtLeast limit ((o, h) ∷ outs) = (limit ≤ sats o.value) × AtLeast limit outs

pub sum-append : (xs ys : List CommitmentOutput) → sum (xs ++ ys) ≡ sum xs + sum ys
sum-append [] ys = omega arith
sum-append (x ∷ xs) ys = omega (arith, sum-append xs ys)

pub AtLeast-append :
    (n : ℕ) (xs ys : List CommitmentOutput) → AtLeast n xs → AtLeast n ys → AtLeast n (xs ++ ys)
AtLeast-append n [] ys h k = k
AtLeast-append n (x ∷ xs) ys (h, hs) k = (h, AtLeast-append n xs ys hs k)

sum-insert :
    (x : CommitmentOutput) (ys : List CommitmentOutput) → sum (insert_output x ys) ≡ sum (x ∷ ys)
unfolding insert_output
sum-insert x [] = refl
sum-insert x (y ∷ ys) = elim (Bool-cases (sorts_after x y)) [
  | inl after ↦ rw after (omega (arith, sum-insert x ys))
  | inr before ↦ rw before refl
]

pub sum-sort : (xs : List CommitmentOutput) → sum (sort_commitment_outputs xs) ≡ sum xs
unfolding sort_commitment_outputs
sum-sort [] = refl
sum-sort (x ∷ xs) = sum-insert x (sort_commitment_outputs xs) ∙ omega (arith, sum-sort xs)

AtLeast-insert :
    (n : ℕ) (x : CommitmentOutput) (ys : List CommitmentOutput)
    → AtLeast n (x ∷ ys)
    → AtLeast n (insert_output x ys)
unfolding insert_output
AtLeast-insert n x [] h = h
AtLeast-insert n x (y ∷ ys) (h, (k, hs)) = elim (Bool-cases (sorts_after x y)) [
  | inl after ↦ rw after (k, AtLeast-insert n x ys (h, hs))
  | inr before ↦ rw before (h, (k, hs))
]

pub AtLeast-sort :
    (n : ℕ) (xs : List CommitmentOutput) → AtLeast n xs → AtLeast n (sort_commitment_outputs xs)
unfolding sort_commitment_outputs
AtLeast-sort n [] h = tt
AtLeast-sort n (x ∷ xs) (h, hs) =
    AtLeast-insert n x (sort_commitment_outputs xs) (h, AtLeast-sort n xs hs)

total-append : (xs ys : List TxOut) → total_sats (xs ++ ys) ≡ total_sats xs + total_sats ys
total-append [] ys = omega arith
total-append (x ∷ xs) ys = omega (arith, total-append xs ys)

pub total-add_outputs :
    (xs : List CommitmentOutput) (tx : TxBuilder)
    → total_sats (add_outputs xs tx).outputs ≡ total_sats tx.outputs + sum xs
unfolding add_outputs add_output
total-add_outputs [] tx = omega arith
total-add_outputs ((o, h) ∷ xs) tx =
    total-add_outputs xs (add_output o tx) ∙ omega (arith, total-append tx.outputs (o ∷ []))

abbrev pub NoneBelow : ℕ → List TxOut → Type 0
NoneBelow limit outs = All (λ o. limit ≤ sats o.value) outs

NoneBelow-snoc :
    (n : ℕ) (xs : List TxOut) (o : TxOut)
    → NoneBelow n xs
    → n ≤ sats o.value
    → NoneBelow n (xs ++ o ∷ [])
NoneBelow-snoc n [] o h k = (k, tt)
NoneBelow-snoc n (x ∷ xs) o (h, hs) k = (h, NoneBelow-snoc n xs o hs k)

pub NoneBelow-add_outputs :
    (n : ℕ) (xs : List CommitmentOutput) (tx : TxBuilder)
    → NoneBelow n tx.outputs
    → AtLeast n xs
    → NoneBelow n (add_outputs xs tx).outputs
unfolding add_outputs add_output
NoneBelow-add_outputs n [] tx h k = h
NoneBelow-add_outputs n ((o, htlc) ∷ xs) tx h (k, ks) =
    NoneBelow-add_outputs n xs (add_output o tx) (NoneBelow-snoc n tx.outputs o h k) ks

pub unpruned-AtMost :
    (a : CommitmentArgs) (htlcs : List Htlc) → htlc_sats (unpruned_htlcs a htlcs) ≤ htlc_sats htlcs
unfolding unpruned_htlcs
unpruned-AtMost a [] = omega arith
unpruned-AtMost a (h ∷ htlcs) = elim (Bool-cases (is_kept a h)) [
  | inl kept ↦ rw kept (omega (arith, unpruned-AtMost a htlcs))
  | inr pruned ↦ rw pruned (omega (arith, unpruned-AtMost a htlcs))
]

is_kept-enough :
    (a : CommitmentArgs) (h : Htlc) → is_kept a h ≡ true → sats a.dust_limit_satoshi ≤ sats h.value
unfolding is_kept
is_kept-enough a h e = ground arith

abbrev pub HtlcsAtLeast : ℕ → List Htlc → Type 0
HtlcsAtLeast n htlcs = All (λ h. n ≤ sats h.value) htlcs

pub unpruned-AtLeast :
    (a : CommitmentArgs) (htlcs : List Htlc)
    → HtlcsAtLeast (sats a.dust_limit_satoshi) (unpruned_htlcs a htlcs)
unfolding unpruned_htlcs
unpruned-AtLeast a [] = tt
unpruned-AtLeast a (h ∷ htlcs) = elim (Bool-cases (is_kept a h)) [
  | inl kept ↦ rw kept (is_kept-enough a h kept, unpruned-AtLeast a htlcs)
  | inr pruned ↦ rw pruned (unpruned-AtLeast a htlcs)
]
