-- ===== src/Examples/Opening.antt =====
-- Runs of the opening of a channel, packages/lightning/lib/channels.
use node_lightning.Common.{ℕ, ◌≡◌, ◌↔◌, refl, true, List, [], ◌∷◌, replicate, some, ok, ◌>>=◌}
use node_lightning.Bitcoin.Value.{from_sats}
use node_lightning.Channels.Side.{ChannelSide, new_side}
use node_lightning.Channels.Keys.{
  Curve, derive_pub_key, derive_priv_key, derive_revocation_pub_key, derive_revocation_priv_key,
  derived_keys,
}
use node_lightning.Channels.Channel.{
  Channel, Keys, AcceptChannelMessage, new_channel, revoke_local_commitment, attach_channel_ready,
  create_channel_ready_message,
}
use node_lightning.Channels.Channel.Rotation.{Agrees, Rotated, attach_channel_ready-Agrees}
use node_lightning.Channels.Opening.{default_preferences}
use node_lightning.Channels.Opening.Create.{
  Wallet, OpenChannelRequest, opened_channel, create_channel,
}
use node_lightning.Channels.Opening.Sound.{IsSound, create_channel-IsSound}
use node_lightning.Channels.Opening.Accept.{validate_accept_channel}
use node_lightning.Channels.Opening.Rules.{IsAcceptable, validate_accept_channel_iff}
use node_lightning.Channels.Opening.Commitments.{
  create_remote_commitment_tx, create_local_commitment_tx,
}
use node_lightning.Channels.Opening.Commitments.Agreement.{
  swap, from_other_side, create_remote_commitment_tx-swap,
}
use node_lightning.Examples.Primitives.{toy}

abbrev key : List ℕ
key = replicate 33 2

-- A curve on which every tweak leaves a key as it is, and every private key has one public key.
abbrev flat : Curve
flat = record {
  get_public_key = λ k. k;
  public_key_tweak_add = λ k t. k;
  public_key_tweak_mul = λ k t. k;
  public_key_combine = λ a b. a;
  private_key_tweak_add = λ k t. k;
  private_key_tweak_mul = λ k t. k;
  tweak_add_lem = λ k t. refl;
  tweak_mul_lem = λ k t. refl;
  combine_lem = λ a b. refl;
}

abbrev toy_keys : Keys
toy_keys = record { public_key = λ k. key; valid_private_key = λ k. true }

abbrev wallet : Wallet
wallet = record {
  has_funds = λ v. true;
  block_height = 100;
  fee_rate_per_kw = from_sats 1000;
  dust_limit = from_sats 354;
  funding_key = 1 ∷ [];
  payment_base_point_secret = 2 ∷ [];
  delayed_payment_base_point_secret = 3 ∷ [];
  htlc_base_point_secret = 4 ∷ [];
  revocation_base_point_secret = 5 ∷ [];
  per_commitment_seed = replicate 32 6;
  temporary_id = replicate 32 7;
}

abbrev options : OpenChannelRequest
options = record {
  remote_features = record { value = 0 };
  our_options = record { value = 0 };
  funding_amount = from_sats 200_000;
  push_amount = from_sats 2000;
  max_htlc_in_flight_value = from_sats 20_000;
  min_htlc_value = from_sats 1;
  max_accepted_htlcs = 30;
  channel_reserve_value = from_sats 2000;
  to_self_block_delay = 144;
  public_channel = true;
}

abbrev opened : Channel
unfolding opened_channel
opened = opened_channel toy toy_keys options wallet (from_sats 198_000) key

opened_lem : create_channel toy toy_keys options wallet ≡ ok opened
unfolding create_channel opened
opened_lem = refl

create_channel-IsSound_example : IsSound opened
create_channel-IsSound_example =
    create_channel-IsSound toy toy_keys options wallet opened opened_lem

abbrev accept : AcceptChannelMessage
accept = record {
  dust_limit_value = from_sats 354;
  max_htlc_value_in_flight_value = from_sats 20_000;
  channel_reserve_value = from_sats 2000;
  htlc_minimum_value = from_sats 1;
  minimum_depth = 6;
  to_self_delay = 144;
  max_accepted_htlcs = 30;
  funding_pub_key = key;
  revocation_base_point = key;
  payment_base_point = key;
  delayed_payment_base_point = key;
  htlc_base_point = key;
  first_per_commitment_point = key;
}

has_reserve : opened.their_side.channel_reserve ≡ some (from_sats 2000)
unfolding opened
has_reserve = refl

has_dust : opened.our_side.dust_limit ≡ some (from_sats 354)
unfolding opened
has_dust = refl

has_funding : opened.funding_amount ≡ some (from_sats 200_000)
unfolding opened
has_funding = refl

validate_accept_channel_iff_example :
    (validate_accept_channel toy default_preferences opened accept ≡ ok true)
    ↔ IsAcceptable toy default_preferences
        (from_sats 2000)
        (from_sats 354)
        (from_sats 200_000)
        accept
validate_accept_channel_iff_example =
    validate_accept_channel_iff toy default_preferences (from_sats 2000) (from_sats 354)
      (from_sats 200_000) accept opened has_reserve has_dust has_funding

-- A side with the fields that a commitment transaction reads.
abbrev side : ℕ → ChannelSide
unfolding new_side
side balance = record new_side {
  dust_limit = some (from_sats 354);
  to_self_delay_blocks = some 144;
  payment_base_point = some key;
  delayed_base_point = some key;
  revocation_base_point = some key;
  htlc_base_point = some key;
  next_commitment_number = some 0;
  next_commitment_point = some key;
  balance = some (from_sats balance);
}

abbrev ready : Channel
unfolding side new_channel
ready = record (new_channel true) {
  channel_id = some (9 ∷ []);
  per_commitment_seed = some (replicate 32 6);
  funding_out_point = some (record { txid = 9 ∷ []; output_index = 0 });
  fee_rate_per_kw = some (from_sats 1000);
  our_side = side 198_000;
  their_side = side 2000;
}

create_remote_commitment_tx-swap_example :
    create_remote_commitment_tx toy flat ready
    ≡ (create_local_commitment_tx toy flat (swap ready) >>= from_other_side)
create_remote_commitment_tx-swap_example = create_remote_commitment_tx-swap toy flat ready

derived_keys_example :
    (flat.get_public_key (derive_priv_key toy.sha256 flat (flat.get_public_key (3 ∷ [])) (4 ∷ []))
      ≡ derive_pub_key toy.sha256 flat
          (flat.get_public_key (3 ∷ []))
          (flat.get_public_key (4 ∷ [])))
    × (flat.get_public_key (derive_revocation_priv_key toy.sha256 flat (3 ∷ []) (4 ∷ []))
        ≡ derive_revocation_pub_key toy.sha256 flat
            (flat.get_public_key (3 ∷ []))
            (flat.get_public_key (4 ∷ [])))
derived_keys_example = derived_keys toy.sha256 flat (3 ∷ []) (4 ∷ [])

abbrev revoked : Channel
unfolding ready side
revoked = record ready {
  our_side = record ready.our_side {
    commitment_number = some 0;
    commitment_point = some key;
    next_commitment_number = some 1;
    next_commitment_point = some key;
  };
}

revoked_lem : revoke_local_commitment toy toy_keys ready ≡ ok revoked
unfolding revoke_local_commitment revoked ready side
revoked_lem = refl

message_lem : create_channel_ready_message revoked ≡ ok (9 ∷ [], key)
unfolding create_channel_ready_message revoked ready side
message_lem = refl

early_lem : create_channel_ready_message ready ≡ ok (9 ∷ [], key)
unfolding create_channel_ready_message ready side
early_lem = refl

attach_channel_ready-Agrees_example :
    Rotated toy toy_keys ready.per_commitment_seed ready.our_side revoked.our_side
    × ((d' : Channel) × (attach_channel_ready toy key (swap ready) ≡ ok d')
        × Agrees revoked.our_side d'.their_side)
    × ((d' : Channel) × (attach_channel_ready toy key (swap ready) ≡ ok d')
        × (d'.their_side.next_commitment_point ≡ ready.our_side.next_commitment_point)
        × (¬ Agrees ready.our_side d'.their_side))
attach_channel_ready-Agrees_example =
    attach_channel_ready-Agrees toy toy_keys ready revoked (swap ready) (9 ∷ []) key (9 ∷ []) key
      (record { number = refl; point = refl; next_number = refl; next_point = refl }) revoked_lem
      message_lem refl early_lem refl
