-- ===== src/Channels/Opening/Create.antt =====
-- `createChannel` of packages/lightning/lib/channels/Helpers.ts. What the wallet answers is a record,
-- and so are the options (channels/OpenChannelRequest.ts).
use node_lightning.Common.{ℕ, Bool, true, List, some, Result, ok, ◌>>=◌, ◌>>◌}
use node_lightning.Bitcoin.Value.{Value, subn}
use node_lightning.Bitcoin.Script.{Primitives}
use node_lightning.Peer.BitField.{BitField}
use node_lightning.Channels.Channel.{Channel, Keys, new_channel, commitment_point}
use node_lightning.Channels.Opening.{
  OpeningError, or_throws, or_underflow, check, funds_not_available, funding_amount_too_high,
  push_amount_too_high, funding_amount_too_low, dust_limit_too_low, channel_reserve_too_low,
  channel_reserve_unreachable, max_accepted_htlcs_too_high, validate_funding_amount_max,
  validate_push_amount, validate_funder_fees, validate_dust_limit_too_small,
  validate_channel_reserve_dust_limit, validate_channel_reserve_reachable,
  validate_max_accepted_htlcs_too_large,
}
use node_lightning.Common.{none}

-- `IChannelWallet`, and the random temporary id.
pub record Wallet : Type 0 where
  pub has_funds : Value → Bool
  pub block_height : ℕ
  pub fee_rate_per_kw : Value
  pub dust_limit : Value
  pub funding_key : List ℕ
  pub payment_base_point_secret : List ℕ
  pub delayed_payment_base_point_secret : List ℕ
  pub htlc_base_point_secret : List ℕ
  pub revocation_base_point_secret : List ℕ
  pub per_commitment_seed : List ℕ
  pub temporary_id : List ℕ

pub record OpenChannelRequest : Type 0 where
  pub remote_features : BitField
  pub our_options : BitField
  pub funding_amount : Value
  pub push_amount : Value
  pub max_htlc_in_flight_value : Value
  pub min_htlc_value : Value
  pub max_accepted_htlcs : ℕ
  pub channel_reserve_value : Value
  pub to_self_block_delay : ℕ
  pub public_channel : Bool

module _ (p : Primitives) (k : Keys) where
  -- The fields of the channel that is returned. The setters of the secrets set the public keys.
  unfoldable pub opened_channel : OpenChannelRequest → Wallet → Value → List ℕ → Channel
  unfolding new_channel
  opened_channel options wallet our_balance first_point =
      let c = new_channel true in
      record c {
        temporary_id = some wallet.temporary_id;
        open_block_height = some wallet.block_height;
        fee_rate_per_kw = some wallet.fee_rate_per_kw;
        funding_amount = some options.funding_amount;
        push_amount = some options.push_amount;
        funding_key = some wallet.funding_key;
        payment_base_point_secret = some wallet.payment_base_point_secret;
        delayed_base_point_secret = some wallet.delayed_payment_base_point_secret;
        htlc_base_point_secret = some wallet.htlc_base_point_secret;
        revocation_base_point_secret = some wallet.revocation_base_point_secret;
        per_commitment_seed = some wallet.per_commitment_seed;
        our_side = record c.our_side {
          balance = some our_balance;
          dust_limit = some wallet.dust_limit;
          min_htlc_value = some options.min_htlc_value;
          max_accepted_htlc = some options.max_accepted_htlcs;
          max_in_flight_htlc_value = some options.max_htlc_in_flight_value;
          funding_pub_key = some (k.public_key wallet.funding_key);
          payment_base_point = some (k.public_key wallet.payment_base_point_secret);
          delayed_base_point = some (k.public_key wallet.delayed_payment_base_point_secret);
          htlc_base_point = some (k.public_key wallet.htlc_base_point_secret);
          revocation_base_point = some (k.public_key wallet.revocation_base_point_secret);
          next_commitment_number = some 0;
          next_commitment_point = some first_point;
        };
        their_side = record c.their_side {
          balance = some options.push_amount;
          channel_reserve = some options.channel_reserve_value;
          to_self_delay_blocks = some options.to_self_block_delay;
        };
      }

  unfoldable pub create_channel : OpenChannelRequest → Wallet → Result OpeningError Channel
  unfolding validate_funding_amount_max validate_push_amount validate_funder_fees
      validate_dust_limit_too_small validate_channel_reserve_dust_limit
      validate_channel_reserve_reachable validate_max_accepted_htlcs_too_large commitment_point
      or_underflow opened_channel
  create_channel options wallet = do
    check (wallet.has_funds options.funding_amount) funds_not_available
    check
        (validate_funding_amount_max options.funding_amount options.our_options
          options.remote_features)
        funding_amount_too_high
    check (validate_push_amount options.funding_amount options.push_amount) push_amount_too_high
    fees_covered ←
        or_throws
          (validate_funder_fees options.funding_amount options.push_amount wallet.fee_rate_per_kw)
    check fees_covered funding_amount_too_low
    our_balance ← or_throws (or_underflow (subn options.funding_amount options.push_amount))
    check (validate_dust_limit_too_small wallet.dust_limit) dust_limit_too_low
    check (validate_channel_reserve_dust_limit options.channel_reserve_value wallet.dust_limit none)
        channel_reserve_too_low
    reachable ← or_throws (
        validate_channel_reserve_reachable options.funding_amount options.push_amount
          wallet.fee_rate_per_kw options.channel_reserve_value)
    check reachable channel_reserve_unreachable
    check (validate_max_accepted_htlcs_too_large options.max_accepted_htlcs)
        max_accepted_htlcs_too_high
    first_point ← or_throws (commitment_point p k wallet.per_commitment_seed 0)
    ok (opened_channel options wallet our_balance first_point)
