-- ===== src/Channels/Opening.antt =====
-- The opening of a channel by packages/lightning/lib/channels/Helpers.ts: the rules of BOLT 2, with the
-- limits of channels/ChannelPreferences.ts.
pub mod Create
pub mod Accept
pub mod Sound
pub mod Rules
pub mod Commitments
use node_lightning.Common.{
  ℕ, ◌+◌, ◌-◌, ◌*◌, ◌/◌, ◌^◌, Bool, true, false, ltb, leb, not, ◌&&◌, ◌||◌, if◌then◌else◌, List, [],
  ◌∷◌, Option, none, some, Result, ok, err, ◌>>=◌,
}
use node_lightning.Bitcoin.Value.{Value, ValueError, sats, from_sats, gt, gte, lte, addn, subn, eq}
use node_lightning.Peer.BitField.{BitField, any_set}
use node_lightning.Channels.Channel.{ChannelError, Channel, type_error, underflow}

-- `channels/OpeningErrorType.ts`
pub data OpeningErrorType : Type 0 where
  peer_not_ready funds_not_available funding_amount_too_low funding_amount_too_high :
      OpeningErrorType
  push_amount_too_high dust_limit_too_low dust_limit_too_high channel_reserve_too_low :
      OpeningErrorType
  channel_reserve_too_high channel_reserve_unreachable channel_reserve_dust_limit_mismatch :
      OpeningErrorType
  max_accepted_htlcs_too_low max_accepted_htlcs_too_high to_self_delay_too_high : OpeningErrorType
  invalid_funding_key invalid_payment_base_point invalid_delayed_base_point : OpeningErrorType
  invalid_htlc_base_point invalid_revocation_base_point invalid_per_commitment_point :
      OpeningErrorType
  minimum_depth_too_high htlc_minimum_too_high max_htlc_in_flight_too_low : OpeningErrorType
  invalid_commitment_sig : OpeningErrorType

-- The method returns an error, or it throws.
pub data OpeningError : Type 0 where
  refused : OpeningErrorType → OpeningError
  thrown : ChannelError → OpeningError

abbrev pub or_throws {ℓ} : {A : Type ℓ} → Result ChannelError A → Result OpeningError A
or_throws (ok a) = ok a
or_throws (err e) = err (thrown e)

-- `if (!valid) return Result.err(new OpeningError(type));`
abbrev pub check : Bool → OpeningErrorType → Result OpeningError (Unit {0})
check valid type = if not valid then err (refused type) else ok tt

pub record ChannelPreferences : Type 0 where
  pub max_allowed_too_self_delay : ℕ
  pub max_minimum_funding_depth : ℕ
  pub max_chan_perc_htlc_minimum : ℕ
  pub min_chan_perc_max_htlc_in_flight : ℕ
  pub max_chan_perc_channel_reserve : ℕ
  pub min_max_accepted_htlcs : ℕ
  pub max_dust_limit : Value

abbrev pub default_preferences : ChannelPreferences
default_preferences = record {
  max_allowed_too_self_delay = 2016;
  max_minimum_funding_depth = 144;
  max_chan_perc_htlc_minimum = 10;
  min_chan_perc_max_htlc_in_flight = 1;
  max_chan_perc_channel_reserve = 20;
  min_max_accepted_htlcs = 1;
  max_dust_limit = from_sats 1000;
}

abbrev pub large_channel_flags : List ℕ
large_channel_flags = 19 ∷ 18 ∷ []

unfoldable pub validate_funding_amount_max : Value → BitField → BitField → Bool
unfolding any_set
validate_funding_amount_max funding_amount local remote =
    if any_set large_channel_flags local && any_set large_channel_flags remote
    then true
    else ltb (sats funding_amount) 16_777_216

unfoldable pub validate_push_amount : Value → Value → Bool
validate_push_amount funding_amount push_amount = lte push_amount funding_amount

unfoldable pub validate_dust_limit_too_small : Value → Bool
validate_dust_limit_too_small dust_limit = gte dust_limit (from_sats 354)

-- Without and with the values of `accept_channel`.
unfoldable pub validate_channel_reserve_dust_limit : Value → Value → Option (Value × Value) → Bool
validate_channel_reserve_dust_limit open_reserve open_dust none = lte open_dust open_reserve && true
validate_channel_reserve_dust_limit open_reserve open_dust (some (accept_reserve, accept_dust)) =
    lte open_dust open_reserve && (lte accept_dust open_reserve && lte open_dust accept_reserve)

unfoldable pub or_underflow : {A : Type 0} → Result ValueError A → Result ChannelError A
or_underflow (ok a) = ok a
or_underflow (err e) = err underflow

-- `(724n * feeRatePerKw.sats) / 1000n`
abbrev pub commitment_fee : Value → ℕ
commitment_fee fee_rate_per_kw = 724 * sats fee_rate_per_kw / 1000

unfoldable pub validate_channel_reserve_reachable :
    Value → Value → Value → Value → Result ChannelError Bool
unfolding or_underflow
validate_channel_reserve_reachable funding_amount push_amount fee_rate_per_kw channel_reserve =
    let fees : Value = from_sats (commitment_fee fee_rate_per_kw) in
    if gt (addn push_amount fees) funding_amount
    then ok false
    else (or_underflow (subn funding_amount push_amount) >>= λ rest.
        or_underflow (subn rest fees) >>= λ funder_balance.
        ok (gt funder_balance channel_reserve || gt push_amount channel_reserve))

unfoldable pub validate_funder_fees : Value → Value → Value → Result ChannelError Bool
unfolding or_underflow
validate_funder_fees funding_amount push_amount fee_rate_per_kw =
    if gt push_amount funding_amount
    then ok false
    else (or_underflow (subn funding_amount push_amount) >>= λ funders_balance.
        ok (ltb (commitment_fee fee_rate_per_kw) (sats funders_balance)))

unfoldable pub validate_max_accepted_htlcs_too_large : ℕ → Bool
validate_max_accepted_htlcs_too_large max_accepted_htlcs = leb max_accepted_htlcs 483

-- `validateFundingTx`: the value and the script of the output.
unfoldable pub validate_dust_limit_too_large : ChannelPreferences → Value → Bool
validate_dust_limit_too_large prefs dust_limit = lte dust_limit prefs.max_dust_limit

module _ (prefs : ChannelPreferences) where
  unfoldable pub validate_max_accepted_htlcs_too_small : ℕ → Bool
  validate_max_accepted_htlcs_too_small max_accepted_htlc =
      leb prefs.min_max_accepted_htlcs max_accepted_htlc

  unfoldable pub validate_minimum_depth_too_large : ℕ → Bool
  validate_minimum_depth_too_large depth = leb depth prefs.max_minimum_funding_depth

  unfoldable pub validate_to_self_delay_too_large : ℕ → Bool
  validate_to_self_delay_too_large to_self_delay =
      leb to_self_delay prefs.max_allowed_too_self_delay

  -- The share of the funding amount, in whole satoshis.
  unfoldable pub validate_htlc_minimum_too_large : Value → Value → Bool
  validate_htlc_minimum_too_large htlc_minimum funding_amount =
      lte htlc_minimum (from_sats (sats funding_amount * prefs.max_chan_perc_htlc_minimum / 100))

  unfoldable pub validate_max_htlc_in_flight_too_small : Value → Value → Bool
  validate_max_htlc_in_flight_too_small max_htlc_in_flight funding_amount =
      gte max_htlc_in_flight
        (from_sats (sats funding_amount * prefs.min_chan_perc_max_htlc_in_flight / 100))

  unfoldable pub validate_channel_reserve_too_large : Value → Value → Bool
  validate_channel_reserve_too_large channel_reserve funding_amount =
      lte channel_reserve
        (from_sats (sats funding_amount * prefs.max_chan_perc_channel_reserve / 100))
