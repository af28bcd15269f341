-- ===== src/Channels/Opening/Sound.antt =====
-- What holds of a channel that `createChannel` returns.
use node_lightning.Common.{
  ℕ, ◌+◌, ◌≤◌, ◌<◌, ◌≡◌, refl, ap, ◌∙◌, Bool, true, false, subst, List, some, none, Result, ok, err,
  ◌>>◌, >>=-eq-ok, arith,
}
use node_lightning.Bitcoin.Value.{Value, sats, subn}
use node_lightning.Bitcoin.Script.{Primitives}
use node_lightning.Channels.Channel.{Channel, ChannelError, Keys, commitment_point}
use node_lightning.Channels.Opening.{
  OpeningErrorType, OpeningError, funds_not_available, funding_amount_too_high,
  push_amount_too_high, funding_amount_too_low, dust_limit_too_low, channel_reserve_too_low,
  channel_reserve_unreachable, max_accepted_htlcs_too_high, or_throws, or_underflow, check,
  commitment_fee, validate_funding_amount_max, validate_push_amount, validate_funder_fees,
  validate_dust_limit_too_small, validate_channel_reserve_dust_limit,
  validate_channel_reserve_reachable, validate_max_accepted_htlcs_too_large,
}
use node_lightning.Channels.Opening.Create.{
  Wallet, OpenChannelRequest, opened_channel, create_channel,
}

-- A step behind a check is reached only if the check holds.
pub check->> :
    {A : Type 0} (valid : Bool) (type : OpeningErrorType) (rest : Result OpeningError A) {a : A}
    → (check valid type >> rest) ≡ ok a
    → (valid ≡ true) × (rest ≡ ok a)
check->> true type rest h = (refl, h)
check->> false type rest h = cc h

or_throws-eq-ok : {A : Type 0} (r : Result ChannelError A) {a : A} → or_throws r ≡ ok a → r ≡ ok a
or_throws-eq-ok (ok a) h = cc h
or_throws-eq-ok (err e) h = cc h

-- A channel's opening side: its balances add up to the funding amount, ours pays the fee of the first
-- commitment transaction, the dust limit is 354 satoshis at least and not above the reserve, and no more
-- than 483 HTLCs are accepted.
pub record IsSound (c : Channel) : Type 0 where
  pub our_balance : Value
  pub their_balance : Value
  pub funding : Value
  pub fee_rate : Value
  pub dust : Value
  pub reserve : Value
  pub htlcs : ℕ
  pub has_our_balance : c.our_side.balance ≡ some our_balance
  pub has_their_balance : c.their_side.balance ≡ some their_balance
  pub has_funding : c.funding_amount ≡ some funding
  pub has_fee_rate : c.fee_rate_per_kw ≡ some fee_rate
  pub has_dust : c.our_side.dust_limit ≡ some dust
  pub has_reserve : c.their_side.channel_reserve ≡ some reserve
  pub has_htlcs : c.our_side.max_accepted_htlc ≡ some htlcs
  pub balanced : our_balance.psats + their_balance.psats ≡ funding.psats
  pub pays_fee : commitment_fee fee_rate < sats our_balance
  pub dust_least : 354 ≤ sats dust
  pub dust_reserve : dust.psats ≤ reserve.psats
  pub htlcs_most : htlcs ≤ 483

fees-covered :
    (funding push rate ours : Value)
    → validate_funder_fees funding push rate ≡ ok true
    → or_underflow (subn funding push) ≡ ok ours
    → (ours.psats + push.psats ≡ funding.psats) × (commitment_fee rate < sats ours)
unfolding validate_funder_fees or_underflow
fees-covered funding push rate ours h e = (ground arith, ground arith)

module _ (p : Primitives) (k : Keys) where
  opened-IsSound :
      (options : OpenChannelRequest) (wallet : Wallet) (ours : Value) (first : List ℕ)
      → ours.psats + options.push_amount.psats ≡ options.funding_amount.psats
      → commitment_fee wallet.fee_rate_per_kw < sats ours
      → validate_dust_limit_too_small wallet.dust_limit ≡ true
      → validate_channel_reserve_dust_limit options.channel_reserve_value wallet.dust_limit none
        ≡ true
      → validate_max_accepted_htlcs_too_large options.max_accepted_htlcs ≡ true
      → IsSound (opened_channel p k options wallet ours first)
  unfolding opened_channel validate_dust_limit_too_small validate_channel_reserve_dust_limit
      validate_max_accepted_htlcs_too_large
  opened-IsSound options wallet ours first balanced paid dust reserve htlcs = record {
    our_balance = ours;
    their_balance = options.push_amount;
    funding = options.funding_amount;
    fee_rate = wallet.fee_rate_per_kw;
    dust = wallet.dust_limit;
    reserve = options.channel_reserve_value;
    htlcs = options.max_accepted_htlcs;
    has_our_balance = refl;
    has_their_balance = refl;
    has_funding = refl;
    has_fee_rate = refl;
    has_dust = refl;
    has_reserve = refl;
    has_htlcs = refl;
    balanced = balanced;
    pays_fee = paid;
    dust_least = ground arith;
    dust_reserve = ground arith;
    htlcs_most = ground arith;
  }

  -- A channel that is created has balances that add up to its funding amount, of which ours pays the fee
  -- of the first commitment transaction, a dust limit of 354 satoshis at least that is not above the
  -- reserve, and accepts 483 HTLCs at most.
  pub create_channel-IsSound :
      (options : OpenChannelRequest) (wallet : Wallet) (c : Channel)
      → create_channel p k options wallet ≡ ok c
      → IsSound c
  unfolding create_channel
  create_channel-IsSound options wallet c h =
      let o : OpenChannelRequest = options in
      let (_, h₁) = check->> (wallet.has_funds o.funding_amount) funds_not_available _ h in
      let (_, h₂) =
        check->> (validate_funding_amount_max o.funding_amount o.our_options o.remote_features)
          funding_amount_too_high _ h₁ in
      let (_, h₃) =
        check->> (validate_push_amount o.funding_amount o.push_amount) push_amount_too_high _ h₂ in
      let fees =
        or_throws (validate_funder_fees o.funding_amount o.push_amount wallet.fee_rate_per_kw) in
      let (covered, e₄, h₄) = >>=-eq-ok fees _ h₃ in
      let (is_covered, h₅) = check->> covered funding_amount_too_low _ h₄ in
      let rest = or_throws (or_underflow (subn o.funding_amount o.push_amount)) in
      let (ours, e₆, h₆) = >>=-eq-ok rest _ h₅ in
      let (dust, h₇) =
        check->> (validate_dust_limit_too_small wallet.dust_limit) dust_limit_too_low _ h₆ in
      let (reserve, h₈) =
        check->>
          (validate_channel_reserve_dust_limit o.channel_reserve_value wallet.dust_limit none)
          channel_reserve_too_low _ h₇ in
      let reach = or_throws (
        validate_channel_reserve_reachable o.funding_amount o.push_amount wallet.fee_rate_per_kw
          o.channel_reserve_value) in
      let (reachable, _, h₉) = >>=-eq-ok reach _ h₈ in
      let (_, h₁₀) = check->> reachable channel_reserve_unreachable _ h₉ in
      let (htlcs, h₁₁) =
        check->> (validate_max_accepted_htlcs_too_large o.max_accepted_htlcs)
          max_accepted_htlcs_too_high _ h₁₀ in
      let (first, _, h₁₂) =
        >>=-eq-ok (or_throws (commitment_point p k wallet.per_commitment_seed 0)) _ h₁₁ in
      let made : opened_channel p k o wallet ours first ≡ c = cc h₁₂ in
      let (balanced, paid) =
        fees-covered o.funding_amount o.push_amount wallet.fee_rate_per_kw ours
          (or_throws-eq-ok _ e₄ ∙ ap ok is_covered) (or_throws-eq-ok _ e₆) in
      subst IsSound made (opened-IsSound options wallet ours first balanced paid dust reserve htlcs)
