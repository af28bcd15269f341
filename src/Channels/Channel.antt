-- ===== src/Channels/Channel.antt =====
-- packages/lightning/lib/channels/Channel.ts, with domain/ChannelId.ts. A key or a signature is its
-- bytes; a field that is not assigned yet is `none`. What the curve's library makes of keys is a
-- parameter (`Keys`).
pub mod Rotation
use node_lightning.Common.{
  ℕ, ◌+◌, ◌-◌, ◌/◌, ◌^◌, ◌%◌, Bool, true, false, ltb, if◌then◌else◌, List, [], ◌∷◌, Option, none,
  some, Result, ok, err, ◌>>=◌, get_elem?, set, bit_and, bit_xor,
}
use node_lightning.Bitcoin.Value.{Value}
use node_lightning.Bitcoin.Script.{ScriptError, Primitives, serialize_cmds}
use node_lightning.Bitcoin.Transaction.{OutPoint}
use node_lightning.Channels.Commitment.Number.{secret_index, next}
use node_lightning.Channels.Commitment.Secret.{derive}
use node_lightning.Channels.Scripts.{funding_script}
use node_lightning.Channels.Side.{ChannelSide, new_side}

-- `type_error` is the use of a field that is not assigned, `invalid_key` what the construction of a key
-- from bytes that are none throws, and `negative_index` the use of a commitment number above the highest.
pub data ChannelError : Type 0 where
  type_error invalid_key invalid_outpoint negative_index underflow : ChannelError
  script_error : ScriptError → ChannelError

-- The public key of a private key, compressed, and the test of a private key.
pub record Keys : Type 0 where
  pub public_key : List ℕ → List ℕ
  pub valid_private_key : List ℕ → Bool

pub record Channel : Type 0 where
  pub temporary_id : Option (List ℕ)
  pub channel_id : Option (List ℕ)
  pub is_public : Option Bool
  pub open_block_height : Option ℕ
  pub minimum_depth : Option ℕ
  pub funding_out_point : Option OutPoint
  pub funding_script : Option (List ℕ)
  pub fee_rate_per_kw : Option Value
  pub funding_amount : Option Value
  pub push_amount : Option Value
  pub funding_key : Option (List ℕ)
  pub payment_base_point_secret : Option (List ℕ)
  pub delayed_base_point_secret : Option (List ℕ)
  pub revocation_base_point_secret : Option (List ℕ)
  pub htlc_base_point_secret : Option (List ℕ)
  pub funding_confirmed_height : Option ℕ
  pub per_commitment_seed : Option (List ℕ)
  pub funder : Bool
  pub our_side : ChannelSide
  pub their_side : ChannelSide

-- The constructor.
unfoldable pub new_channel : Bool → Channel
unfolding new_side
new_channel funder = record {
  temporary_id = none;
  channel_id = none;
  is_public = none;
  open_block_height = none;
  minimum_depth = none;
  funding_out_point = none;
  funding_script = none;
  fee_rate_per_kw = none;
  funding_amount = none;
  push_amount = none;
  funding_key = none;
  payment_base_point_secret = none;
  delayed_base_point_secret = none;
  revocation_base_point_secret = none;
  htlc_base_point_secret = none;
  funding_confirmed_height = none;
  per_commitment_seed = none;
  funder = funder;
  our_side = new_side;
  their_side = new_side;
}

abbrev pub need {ℓ} : {A : Type ℓ} → Option A → Result ChannelError A
need none = err type_error
need (some a) = ok a

-- `readyHeight`; `none` is undefined, or NaN where the minimum depth is not known.
unfoldable pub ready_at : Option ℕ → Option ℕ → Option ℕ
ready_at none depth = none
ready_at (some height) none = none
ready_at (some height) (some depth) = some (height + depth - 1)

unfoldable pub ready_height : Channel → Option ℕ
unfolding ready_at
ready_height c = ready_at c.funding_confirmed_height c.minimum_depth

unfoldable pub has_channel_ready : Channel → Result ChannelError Bool
has_channel_ready c = need c.their_side.next_commitment_number >>= λ number. ok (ltb 0 number)

unfoldable pub open_payment_base_point : Channel → Option (List ℕ)
open_payment_base_point c =
    if c.funder then c.our_side.payment_base_point else c.their_side.payment_base_point

unfoldable pub accept_payment_base_point : Channel → Option (List ℕ)
accept_payment_base_point c =
    if c.funder then c.their_side.payment_base_point else c.our_side.payment_base_point

unfoldable pub mark_confirmed : ℕ → Channel → Channel
mark_confirmed height c = record c { funding_confirmed_height = some height }

unfoldable pub attach_funding_signed : List ℕ → Channel → Channel
attach_funding_signed signature c = record c {
  our_side = record c.our_side { next_commitment_sig = some signature };
}

-- The point that `Helpers.createChannelReadyMessage` puts in the message, for a channel with an id.
unfoldable pub create_channel_ready_message : Channel → Result ChannelError (List ℕ × List ℕ)
create_channel_ready_message c = do
  id ← need c.channel_id
  point ← need c.our_side.next_commitment_point
  ok (id, point)

-- `value[i] ^= mask`, where the index is in the buffer or nothing happens.
unfoldable pub xor_at : ℕ → ℕ → List ℕ → List ℕ
xor_at i mask value = elim (get_elem? value i) [
  | none ↦ value
  | some byte ↦ set value i (bit_xor byte mask % 256)
]

-- `ChannelId.fromOutPoint`
unfoldable pub from_out_point : OutPoint → Result ChannelError (List ℕ)
unfolding xor_at
from_out_point outpoint =
    if ltb 0xffff outpoint.output_index
    then err invalid_outpoint
    else ok (
        xor_at 30 (bit_and outpoint.output_index 0xff)
          (xor_at 31 (outpoint.output_index / 2 ^ 8) outpoint.txid))

-- `attachFundingTx`, of which the transaction's id matters.
unfoldable pub attach_funding_tx : List ℕ → Channel → Result ChannelError Channel
unfolding from_out_point
attach_funding_tx tx_id c =
    let outpoint : OutPoint = record { txid = tx_id; output_index = 0 } in
    from_out_point outpoint >>= λ id.
    ok (record c { funding_out_point = some outpoint; channel_id = some id })

pub record AcceptChannelMessage : Type 0 where
  pub dust_limit_value : Value
  pub max_htlc_value_in_flight_value : Value
  pub channel_reserve_value : Value
  pub htlc_minimum_value : Value
  pub minimum_depth : ℕ
  pub to_self_delay : ℕ
  pub max_accepted_htlcs : ℕ
  pub funding_pub_key : List ℕ
  pub revocation_base_point : List ℕ
  pub payment_base_point : List ℕ
  pub delayed_payment_base_point : List ℕ
  pub htlc_base_point : List ℕ
  pub first_per_commitment_point : List ℕ

module _ (p : Primitives) where
  -- `new PublicKey(buffer, network)`
  unfoldable pub new_public_key : List ℕ → Result ChannelError (List ℕ)
  new_public_key buffer = if p.valid_public_key buffer then ok buffer else err invalid_key

  unfoldable pub make_funding_script : List ℕ → List ℕ → Result ChannelError (List ℕ)
  unfolding funding_script serialize_cmds
  make_funding_script ours theirs = elim (funding_script p ours theirs >>= serialize_cmds) [
    | ok buf ↦ ok buf
    | err e ↦ err (script_error e)
  ]

  unfoldable pub attach_accept_channel :
      AcceptChannelMessage → Channel → Result ChannelError Channel
  unfolding new_public_key make_funding_script
  attach_accept_channel msg c = do
    funding ← new_public_key msg.funding_pub_key
    payment ← new_public_key msg.payment_base_point
    delayed ← new_public_key msg.delayed_payment_base_point
    htlc ← new_public_key msg.htlc_base_point
    revocation ← new_public_key msg.revocation_base_point
    first ← new_public_key msg.first_per_commitment_point
    ours ← need c.our_side.funding_pub_key
    script ← make_funding_script ours funding
    ok (record c {
      minimum_depth = some msg.minimum_depth;
      our_side = record c.our_side {
        channel_reserve = some msg.channel_reserve_value;
        to_self_delay_blocks = some msg.to_self_delay;
      };
      their_side = record c.their_side {
        dust_limit = some msg.dust_limit_value;
        min_htlc_value = some msg.htlc_minimum_value;
        max_accepted_htlc = some msg.max_accepted_htlcs;
        max_in_flight_htlc_value = some msg.max_htlc_value_in_flight_value;
        funding_pub_key = some funding;
        payment_base_point = some payment;
        delayed_base_point = some delayed;
        htlc_base_point = some htlc;
        revocation_base_point = some revocation;
        next_commitment_number = some 0;
        next_commitment_point = some first;
      };
      funding_script = some script;
    })

  -- What `attachChannelReady` makes of their side, with the point of the message.
  unfoldable pub attach_channel_ready : List ℕ → Channel → Result ChannelError Channel
  unfolding new_public_key next
  attach_channel_ready next_per_commitment_point c = do
    number ← need c.their_side.next_commitment_number
    point ← new_public_key next_per_commitment_point
    ok (record c {
      their_side = record c.their_side {
        commitment_number = some number;
        commitment_point = c.their_side.next_commitment_point;
        commitment_sig = c.their_side.next_commitment_sig;
        next_commitment_number = some (next number);
        next_commitment_point = some point;
        next_commitment_sig = none;
      };
    })

module _ (p : Primitives) (k : Keys) where
  -- `CommitmentSecret.publicKey(seed, network, number)`
  unfoldable pub commitment_point : List ℕ → ℕ → Result ChannelError (List ℕ)
  unfolding secret_index derive
  commitment_point seed number = elim (secret_index number) [
    | none ↦ err negative_index
    | some index ↦
        let secret = derive p.sha256 seed index 48 in
        if k.valid_private_key secret then ok (k.public_key secret) else err invalid_key
  ]

  unfoldable pub revoke_local_commitment : Channel → Result ChannelError Channel
  unfolding commitment_point next
  revoke_local_commitment c = do
    number ← need c.our_side.next_commitment_number
    seed ← need c.per_commitment_seed
    point ← commitment_point seed (next number)
    ok (record c {
      our_side = record c.our_side {
        commitment_number = some number;
        commitment_point = c.our_side.next_commitment_point;
        commitment_sig = c.our_side.next_commitment_sig;
        next_commitment_number = some (next number);
        next_commitment_point = some point;
        next_commitment_sig = none;
      };
    })
