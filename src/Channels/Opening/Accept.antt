-- ===== src/Channels/Opening/Accept.antt =====
-- `validateAcceptChannel` of packages/lightning/lib/channels/Helpers.ts, with the other messages' checks.
use node_lightning.Common.{
  ℕ, Bool, true, false, not, if◌then◌else◌, List, [], ◌∷◌, some, Result, ok, ◌>>=◌, ◌>>◌,
}
use node_lightning.Bitcoin.Value.{Value, eq}
use node_lightning.Bitcoin.Script.{Primitives, bytes_equal}
use node_lightning.Bitcoin.Transaction.{TxOut}
use node_lightning.Channels.Channel.{Channel, ChannelError, AcceptChannelMessage, need}
use node_lightning.Channels.Opening.{
  OpeningErrorType, OpeningError, or_throws, check, ChannelPreferences,
  channel_reserve_dust_limit_mismatch, to_self_delay_too_high, max_accepted_htlcs_too_high,
  invalid_funding_key, invalid_payment_base_point, invalid_delayed_base_point,
  invalid_revocation_base_point, invalid_htlc_base_point, invalid_per_commitment_point,
  dust_limit_too_low, minimum_depth_too_high, htlc_minimum_too_high, max_htlc_in_flight_too_low,
  channel_reserve_too_high, max_accepted_htlcs_too_low, dust_limit_too_high,
  validate_channel_reserve_dust_limit, validate_to_self_delay_too_large,
  validate_max_accepted_htlcs_too_large, validate_dust_limit_too_small,
  validate_minimum_depth_too_large, validate_htlc_minimum_too_large,
  validate_max_htlc_in_flight_too_small, validate_channel_reserve_too_large,
  validate_max_accepted_htlcs_too_small, validate_dust_limit_too_large,
}

abbrev pub Rule : Type 0
Rule = Bool × OpeningErrorType

-- `if (!valid) return OpeningError.toResult(type);`, one after the other.
unfoldable pub check_all : List Rule → Result OpeningError (Unit {0})
check_all [] = ok tt
check_all ((valid, type) ∷ rules) = check valid type >> check_all rules

module _ (p : Primitives) (prefs : ChannelPreferences) where
  -- The rules that do not read the funding amount, up to the minimum depth.
  unfoldable pub first_rules : Value → Value → AcceptChannelMessage → List Rule
  first_rules reserve dust msg =
      (
        validate_channel_reserve_dust_limit reserve dust
            (some (msg.channel_reserve_value, msg.dust_limit_value)),
        channel_reserve_dust_limit_mismatch,
      )
      ∷ (validate_to_self_delay_too_large prefs msg.to_self_delay, to_self_delay_too_high)
      ∷ (validate_max_accepted_htlcs_too_large msg.max_accepted_htlcs, max_accepted_htlcs_too_high)
      ∷ (p.valid_public_key msg.funding_pub_key, invalid_funding_key)
      ∷ (p.valid_public_key msg.payment_base_point, invalid_payment_base_point)
      ∷ (p.valid_public_key msg.delayed_payment_base_point, invalid_delayed_base_point)
      ∷ (p.valid_public_key msg.revocation_base_point, invalid_revocation_base_point)
      ∷ (p.valid_public_key msg.htlc_base_point, invalid_htlc_base_point)
      ∷ (p.valid_public_key msg.first_per_commitment_point, invalid_per_commitment_point)
      ∷ (validate_dust_limit_too_small msg.dust_limit_value, dust_limit_too_low)
      ∷ (validate_minimum_depth_too_large prefs msg.minimum_depth, minimum_depth_too_high)
      ∷ []

  unfoldable pub last_rules : Value → AcceptChannelMessage → List Rule
  last_rules funding msg =
      (validate_htlc_minimum_too_large prefs msg.htlc_minimum_value funding, htlc_minimum_too_high)
      ∷ (
        validate_max_htlc_in_flight_too_small prefs msg.max_htlc_value_in_flight_value funding,
        max_htlc_in_flight_too_low,
      )
      ∷ (
        validate_channel_reserve_too_large prefs msg.channel_reserve_value funding,
        channel_reserve_too_high,
      )
      ∷ (
        validate_max_accepted_htlcs_too_small prefs msg.max_accepted_htlcs,
        max_accepted_htlcs_too_low,
      )
      ∷ (validate_dust_limit_too_large prefs msg.dust_limit_value, dust_limit_too_high)
      ∷ []

  unfoldable pub validate_accept_channel : Channel → AcceptChannelMessage → Result OpeningError Bool
  unfolding check_all first_rules last_rules
  validate_accept_channel channel msg = do
    reserve ← or_throws (need channel.their_side.channel_reserve)
    dust ← or_throws (need channel.our_side.dust_limit)
    check_all (first_rules reserve dust msg)
    funding ← or_throws (need channel.funding_amount)
    check_all (last_rules funding msg)
    ok true

-- `validateFundingTx`
unfoldable pub validate_funding_tx : Channel → TxOut → Result ChannelError Bool
unfolding bytes_equal
validate_funding_tx channel output = do
  amount ← need channel.funding_amount
  if not (eq output.value amount)
      then ok false
      else (need channel.funding_script >>= λ script.
          ok (if not (bytes_equal output.script_pub_key script) then false else true))

-- `validateChannelReadyMessage`
unfoldable pub validate_channel_ready_message : Primitives → List ℕ → Bool
validate_channel_ready_message p next_per_commitment_point =
    if not (p.valid_public_key next_per_commitment_point) then false else true
