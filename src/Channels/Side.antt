-- ===== src/Channels/Side.antt =====
-- packages/lightning/lib/channels/ChannelSide.ts: what a channel keeps of either of its sides. A field
-- that is not assigned yet is `none`; a public key or a signature is its bytes.
use node_lightning.Common.{ℕ, Option, none, List}
use node_lightning.Bitcoin.Value.{Value}

pub record ChannelSide : Type 0 where
  pub dust_limit : Option Value
  pub channel_reserve : Option Value
  pub to_self_delay_blocks : Option ℕ
  pub max_accepted_htlc : Option ℕ
  pub max_in_flight_htlc_value : Option Value
  pub min_htlc_value : Option Value
  pub funding_pub_key : Option (List ℕ)
  pub payment_base_point : Option (List ℕ)
  pub delayed_base_point : Option (List ℕ)
  pub revocation_base_point : Option (List ℕ)
  pub htlc_base_point : Option (List ℕ)
  pub commitment_number : Option ℕ
  pub commitment_point : Option (List ℕ)
  pub commitment_sig : Option (List ℕ)
  pub next_commitment_number : Option ℕ
  pub next_commitment_point : Option (List ℕ)
  pub next_commitment_sig : Option (List ℕ)
  pub balance : Option Value
  pub htlc_counter : Option ℕ

unfoldable pub new_side : ChannelSide
new_side = record {
  dust_limit = none;
  channel_reserve = none;
  to_self_delay_blocks = none;
  max_accepted_htlc = none;
  max_in_flight_htlc_value = none;
  min_htlc_value = none;
  funding_pub_key = none;
  payment_base_point = none;
  delayed_base_point = none;
  revocation_base_point = none;
  htlc_base_point = none;
  commitment_number = none;
  commitment_point = none;
  commitment_sig = none;
  next_commitment_number = none;
  next_commitment_point = none;
  next_commitment_sig = none;
  balance = none;
  htlc_counter = none;
}
