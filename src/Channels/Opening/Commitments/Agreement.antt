-- ===== src/Channels/Opening/Commitments/Agreement.antt =====
-- Both sides make the same commitment transaction from their own views of the channel.
use node_lightning.Common.{
  ℕ, ◌≡◌, refl, sym, ap, ap₂, ◌∙◌, Bool, true, false, not, if◌then◌else◌, List, [], map, Option,
  none, some, Result, ok, err, ◌>>=◌,
}
use node_lightning.Bitcoin.Value.{Value, sats}
use node_lightning.Bitcoin.Script.{Primitives}
use node_lightning.Bitcoin.Transaction.{OutPoint, TxBuilder}
use node_lightning.Channels.Channel.{Channel, open_payment_base_point, accept_payment_base_point}
use node_lightning.Channels.Keys.{Curve, derive_pub_key, derive_revocation_pub_key}
use node_lightning.Channels.Transactions.{Htlc, CommitmentArgs, TxError}
use node_lightning.Channels.Transactions.Build.{create_commitment}
use node_lightning.Channels.Transactions.Mirror.{
  mirror, flip_htlc, other_side, create_commitment-mirror,
}
use node_lightning.Channels.Opening.Commitments.{
  CommitmentError, assigned, of_tx, remote_args, local_args, create_remote_commitment_tx,
  create_local_commitment_tx,
}

-- The channel as the other side has it.
abbrev pub swap : Channel → Channel
swap c = record c { our_side = c.their_side; their_side = c.our_side; funder = not c.funder }

abbrev pub from_other_side : TxBuilder × List Htlc → Result CommitmentError (TxBuilder × List Htlc)
from_other_side (tx, htlcs) = ok (tx, map flip_htlc htlcs)

of_tx-other_side :
    (made : Result TxError (TxBuilder × List Htlc))
    → of_tx (made >>= other_side) ≡ (of_tx made >>= from_other_side)
of_tx-other_side (ok (tx, htlcs)) = refl
of_tx-other_side (err e) = refl

open-swap : (c : Channel) → open_payment_base_point (swap c) ≡ open_payment_base_point c
unfolding open_payment_base_point
open-swap c = flip_funder c.funder
  where
    flip_funder :
        (f : Bool)
        → (if not f then c.their_side.payment_base_point else c.our_side.payment_base_point)
          ≡ (if f then c.our_side.payment_base_point else c.their_side.payment_base_point)
    flip_funder true = refl
    flip_funder false = refl

accept-swap : (c : Channel) → accept_payment_base_point (swap c) ≡ accept_payment_base_point c
unfolding accept_payment_base_point
accept-swap c = flip_funder c.funder
  where
    flip_funder :
        (f : Bool)
        → (if not f then c.our_side.payment_base_point else c.their_side.payment_base_point)
          ≡ (if f then c.their_side.payment_base_point else c.our_side.payment_base_point)
    flip_funder true = refl
    flip_funder false = refl

module _ (p : Primitives) (k : Curve) where
  -- The arguments from the fields that are read.
  chain :
      (is_funder reverse : Bool) (point : Option (List ℕ)) (revocation : Option (List ℕ))
      (delayed : Option (List ℕ)) (remote : Option (List ℕ)) (local_htlc : Option (List ℕ))
      (remote_htlc : Option (List ℕ)) (number : Option (ℕ)) (open_point : Option (List ℕ))
      (accept_point : Option (List ℕ)) (out_point : Option (OutPoint)) (dust : Option (Value))
      (fee : Option (Value)) (delay : Option (ℕ)) (mine : Option (Value)) (yours : Option (Value))
      → Result CommitmentError CommitmentArgs
  chain is_funder reverse point? revocation? delayed? remote? local_htlc? remote_htlc? number?
        open_point? accept_point? out_point? dust? fee? delay? mine? yours? =
      do
        point ← assigned point?
        revocation ← assigned revocation?
        delayed ← assigned delayed?
        remote ← assigned remote?
        local_htlc ← assigned local_htlc?
        remote_htlc ← assigned remote_htlc?
        number ← assigned number?
        open_point ← assigned open_point?
        accept_point ← assigned accept_point?
        out_point ← assigned out_point?
        dust ← assigned dust?
        fee ← assigned fee?
        delay ← assigned delay?
        mine ← assigned mine?
        yours ← assigned yours?
        ok (record {
          is_funder_local = is_funder;
          commitment_number = number;
          open_payment_base_point = open_point;
          accept_payment_base_point = accept_point;
          funding_out_point = out_point;
          dust_limit_satoshi = dust;
          fee_per_kw = sats fee;
          local_delay = delay;
          local_value = mine;
          remote_value = yours;
          revocation_pub_key = derive_revocation_pub_key p.sha256 k point revocation;
          delayed_pub_key = derive_pub_key p.sha256 k point delayed;
          remote_pub_key = remote;
          reverse_htlcs = reverse;
          local_htlc_pub_key = derive_pub_key p.sha256 k point local_htlc;
          remote_htlc_pub_key = derive_pub_key p.sha256 k point remote_htlc;
          htlcs = [];
        })

  abbrev made :
      Result CommitmentError CommitmentArgs → Result CommitmentError (TxBuilder × List Htlc)
  made args = args >>= λ a. of_tx (create_commitment p a)

  last_step :
      (a : CommitmentArgs)
      → of_tx (create_commitment p (mirror a)) ≡ (of_tx (create_commitment p a) >>= from_other_side)
  last_step a = ap of_tx (create_commitment-mirror p a) ∙ of_tx-other_side (create_commitment p a)

  chain-agree :
      (is_funder : Bool) (point : Option (List ℕ)) (revocation : Option (List ℕ))
      (delayed : Option (List ℕ)) (remote : Option (List ℕ)) (local_htlc : Option (List ℕ))
      (remote_htlc : Option (List ℕ)) (number : Option (ℕ)) (open_point : Option (List ℕ))
      (accept_point : Option (List ℕ)) (out_point : Option (OutPoint)) (dust : Option (Value))
      (fee : Option (Value)) (delay : Option (ℕ)) (mine : Option (Value)) (yours : Option (Value))
      → made (
          chain is_funder true point revocation delayed remote local_htlc remote_htlc number
            open_point accept_point out_point dust fee delay mine yours)
        ≡ (made (
              chain is_funder false point revocation delayed remote local_htlc remote_htlc number
                open_point accept_point out_point dust fee delay mine yours)
            >>= from_other_side)
  unfolding chain
  chain-agree is_funder none revocation delayed remote local_htlc remote_htlc number open_point
        accept_point out_point dust fee delay mine yours =
      refl
  chain-agree is_funder (some point) none delayed remote local_htlc remote_htlc number open_point
        accept_point out_point dust fee delay mine yours =
      refl
  chain-agree is_funder (some point) (some revocation) none remote local_htlc remote_htlc number
        open_point accept_point out_point dust fee delay mine yours =
      refl
  chain-agree is_funder (some point) (some revocation) (some delayed) none local_htlc remote_htlc
        number open_point accept_point out_point dust fee delay mine yours =
      refl
  chain-agree is_funder (some point) (some revocation) (some delayed) (some remote) none remote_htlc
        number open_point accept_point out_point dust fee delay mine yours =
      refl
  chain-agree is_funder (some point) (some revocation) (some delayed) (some remote)
        (some local_htlc) none number open_point accept_point out_point dust fee delay mine yours =
      refl
  chain-agree is_funder (some point) (some revocation) (some delayed) (some remote)
        (some local_htlc) (some remote_htlc) none open_point accept_point out_point dust fee delay
        mine yours =
      refl
  chain-agree is_funder (some point) (some revocation) (some delayed) (some remote)
        (some local_htlc) (some remote_htlc) (some number) none accept_point out_point dust fee
        delay mine yours =
      refl
  chain-agree is_funder (some point) (some revocation) (some delayed) (some remote)
        (some local_htlc) (some remote_htlc) (some number) (some open_point) none out_point dust fee
        delay mine yours =
      refl
  chain-agree is_funder (some point) (some revocation) (some delayed) (some remote)
        (some local_htlc) (some remote_htlc) (some number) (some open_point) (some accept_point)
        none dust fee delay mine yours =
      refl
  chain-agree is_funder (some point) (some revocation) (some delayed) (some remote)
        (some local_htlc) (some remote_htlc) (some number) (some open_point) (some accept_point)
        (some out_point) none fee delay mine yours =
      refl
  chain-agree is_funder (some point) (some revocation) (some delayed) (some remote)
        (some local_htlc) (some remote_htlc) (some number) (some open_point) (some accept_point)
        (some out_point) (some dust) none delay mine yours =
      refl
  chain-agree is_funder (some point) (some revocation) (some delayed) (some remote)
        (some local_htlc) (some remote_htlc) (some number) (some open_point) (some accept_point)
        (some out_point) (some dust) (some fee) none mine yours =
      refl
  chain-agree is_funder (some point) (some revocation) (some delayed) (some remote)
        (some local_htlc) (some remote_htlc) (some number) (some open_point) (some accept_point)
        (some out_point) (some dust) (some fee) (some delay) none yours =
      refl
  chain-agree is_funder (some point) (some revocation) (some delayed) (some remote)
        (some local_htlc) (some remote_htlc) (some number) (some open_point) (some accept_point)
        (some out_point) (some dust) (some fee) (some delay) (some mine) none =
      refl
  chain-agree is_funder (some point) (some revocation) (some delayed) (some remote)
        (some local_htlc) (some remote_htlc) (some number) (some open_point) (some accept_point)
        (some out_point) (some dust) (some fee) (some delay) (some mine) (some yours) =
      last_step _

  -- The arguments of the other side's transaction, with two of the fields given apart.
  abbrev args_of :
      Channel → Bool → Option (List ℕ) → Option (List ℕ) → Result CommitmentError CommitmentArgs
  args_of c reverse open_point accept_point =
      chain (not c.funder) reverse c.their_side.next_commitment_point
        c.our_side.revocation_base_point c.their_side.delayed_base_point
        c.our_side.payment_base_point c.their_side.htlc_base_point c.our_side.htlc_base_point
        c.their_side.next_commitment_number open_point accept_point c.funding_out_point
        c.their_side.dust_limit c.fee_rate_per_kw c.their_side.to_self_delay_blocks
        c.their_side.balance c.our_side.balance

  agree :
      (c : Channel) (open_point accept_point : Option (List ℕ))
      → made (args_of c true open_point accept_point)
        ≡ (made (args_of c false open_point accept_point) >>= from_other_side)
  agree c open_point accept_point =
      chain-agree (not c.funder) c.their_side.next_commitment_point c.our_side.revocation_base_point
        c.their_side.delayed_base_point c.our_side.payment_base_point c.their_side.htlc_base_point
        c.our_side.htlc_base_point c.their_side.next_commitment_number open_point accept_point
        c.funding_out_point c.their_side.dust_limit c.fee_rate_per_kw
        c.their_side.to_self_delay_blocks c.their_side.balance c.our_side.balance

  remote_args-fields :
      (c : Channel)
      → remote_args p k c ≡ args_of c true (open_payment_base_point c) (accept_payment_base_point c)
  unfolding remote_args chain
  remote_args-fields c = refl

  local_args-swap :
      (c : Channel)
      → local_args p k (swap c)
        ≡ args_of c false (open_payment_base_point (swap c)) (accept_payment_base_point (swap c))
  unfolding local_args chain
  local_args-swap c = refl

  -- The commitment transaction of the other side, as a channel makes it to sign it, is the one that the
  -- other side makes for itself from its own view of the channel, in which the sides are exchanged; or
  -- both give the same error.
  pub create_remote_commitment_tx-swap :
      (c : Channel)
      → create_remote_commitment_tx p k c
        ≡ (create_local_commitment_tx p k (swap c) >>= from_other_side)
  unfolding create_remote_commitment_tx create_local_commitment_tx
  create_remote_commitment_tx-swap c =
      ap made (remote_args-fields c)
      ∙ agree c (open_payment_base_point c) (accept_payment_base_point c)
      ∙ ap (λ args. made args >>= from_other_side)
          (ap₂ (args_of c false) (sym (open-swap c)) (sym (accept-swap c))
            ∙ sym (local_args-swap c))
