-- ===== src/Channels/Opening/Rules.antt =====
-- Which `accept_channel` messages are accepted.
use node_lightning.Common.{
  ◌*◌, ◌/◌, ◌^◌, ◌≤◌, ◌≡◌, ◌↔◌, refl, sym, ap, ◌∙◌, Bool, true, false, List, [], ◌∷◌, ◌++◌, Option,
  some, Result, ok, err, ◌>>=◌, ◌>>◌, >>=-eq-ok, All, arith,
}
use node_lightning.Bitcoin.Value.{Value, sats}
use node_lightning.Bitcoin.Script.{Primitives}
use node_lightning.Channels.Channel.{Channel, AcceptChannelMessage, need}
use node_lightning.Channels.Opening.{
  OpeningErrorType, OpeningError, refused, or_throws, ChannelPreferences,
  validate_channel_reserve_dust_limit, validate_to_self_delay_too_large,
  validate_max_accepted_htlcs_too_large, validate_dust_limit_too_small,
  validate_minimum_depth_too_large, validate_htlc_minimum_too_large,
  validate_max_htlc_in_flight_too_small, validate_channel_reserve_too_large,
  validate_max_accepted_htlcs_too_small, validate_dust_limit_too_large,
}
use node_lightning.Channels.Opening.Accept.{
  Rule, check_all, first_rules, last_rules, validate_accept_channel,
}

abbrev Holds : Rule → Type 0
Holds (valid, type) = valid ≡ true

check_all_ok : (rules : List Rule) → All Holds rules → check_all rules ≡ ok tt
unfolding check_all
check_all_ok [] h = refl
check_all_ok ((valid, type) ∷ rules) (h, hs) = rw h (check_all_ok rules hs)

check_all-Holds : (rules : List Rule) → check_all rules ≡ ok tt → All Holds rules
unfolding check_all
check_all-Holds [] h = tt
check_all-Holds ((true, type) ∷ rules) h = (refl, check_all-Holds rules h)
check_all-Holds ((false, type) ∷ rules) h = cc h

-- The error is that of the first rule that does not hold.
first_broken :
    (before after : List Rule) (type : OpeningErrorType)
    → All Holds before
    → check_all (before ++ (false, type) ∷ after) ≡ err (refused type)
unfolding check_all
first_broken [] after type h = refl
first_broken ((valid, t) ∷ before) after type (h, hs) = rw h (first_broken before after type hs)

module _ (p : Primitives) (prefs : ChannelPreferences) (reserve dust funding : Value)
    (msg : AcceptChannelMessage) where
  -- What is asked of the message, given the reserve and the dust limit that were sent, and the
  -- funding amount.
  pub record IsAcceptable : Type 0 where
    pub our_dust : dust.psats ≤ reserve.psats
    pub their_dust : msg.dust_limit_value.psats ≤ reserve.psats
    pub our_dust_below : dust.psats ≤ msg.channel_reserve_value.psats
    pub delay : msg.to_self_delay ≤ prefs.max_allowed_too_self_delay
    pub htlcs_most : msg.max_accepted_htlcs ≤ 483
    pub funding_key : p.valid_public_key msg.funding_pub_key ≡ true
    pub payment_key : p.valid_public_key msg.payment_base_point ≡ true
    pub delayed_key : p.valid_public_key msg.delayed_payment_base_point ≡ true
    pub revocation_key : p.valid_public_key msg.revocation_base_point ≡ true
    pub htlc_key : p.valid_public_key msg.htlc_base_point ≡ true
    pub commitment_key : p.valid_public_key msg.first_per_commitment_point ≡ true
    pub dust_least : 354 ≤ sats msg.dust_limit_value
    pub depth : msg.minimum_depth ≤ prefs.max_minimum_funding_depth
    pub htlc_minimum :
        msg.htlc_minimum_value.psats
        ≤ sats funding * prefs.max_chan_perc_htlc_minimum / 100 * 10 ^ 12
    pub in_flight :
        sats funding * prefs.min_chan_perc_max_htlc_in_flight / 100 * 10 ^ 12
        ≤ msg.max_htlc_value_in_flight_value.psats
    pub reserve_most :
        msg.channel_reserve_value.psats
        ≤ sats funding * prefs.max_chan_perc_channel_reserve / 100 * 10 ^ 12
    pub htlcs_least : prefs.min_max_accepted_htlcs ≤ msg.max_accepted_htlcs
    pub dust_most : msg.dust_limit_value.psats ≤ prefs.max_dust_limit.psats

  acceptable-of :
      All Holds (first_rules p prefs reserve dust msg)
      → All Holds (last_rules p prefs funding msg)
      → IsAcceptable
  unfolding first_rules last_rules validate_channel_reserve_dust_limit
      validate_to_self_delay_too_large validate_max_accepted_htlcs_too_large
      validate_dust_limit_too_small validate_minimum_depth_too_large validate_htlc_minimum_too_large
      validate_max_htlc_in_flight_too_small validate_channel_reserve_too_large
      validate_max_accepted_htlcs_too_small validate_dust_limit_too_large
  acceptable-of (r₁, (r₂, (r₃, (k₁, (k₂, (k₃, (k₄, (k₅, (k₆, (r₄, (r₅, _)))))))))))
        (s₁, (s₂, (s₃, (s₄, (s₅, _))))) =
      record {
        our_dust = ground (arith, r₁);
        their_dust = ground (arith, r₁);
        our_dust_below = ground (arith, r₁);
        delay = ground (arith, r₂);
        htlcs_most = ground (arith, r₃);
        funding_key = k₁;
        payment_key = k₂;
        delayed_key = k₃;
        revocation_key = k₄;
        htlc_key = k₅;
        commitment_key = k₆;
        dust_least = ground (arith, r₄);
        depth = ground (arith, r₅);
        htlc_minimum = ground (arith, s₁);
        in_flight = ground (arith, s₂);
        reserve_most = ground (arith, s₃);
        htlcs_least = ground (arith, s₄);
        dust_most = ground (arith, s₅);
      }

  first-of : IsAcceptable → All Holds (first_rules p prefs reserve dust msg)
  unfolding first_rules validate_channel_reserve_dust_limit validate_to_self_delay_too_large
      validate_max_accepted_htlcs_too_large validate_dust_limit_too_small
      validate_minimum_depth_too_large
  first-of h = (
    ground (arith, h.our_dust, h.their_dust, h.our_dust_below),
    (
      ground (arith, h.delay),
      (
        ground (arith, h.htlcs_most),
        (
          h.funding_key,
          (
            h.payment_key,
            (
              h.delayed_key,
              (
                h.revocation_key,
                (
                  h.htlc_key,
                  (h.commitment_key, (ground (arith, h.dust_least), (ground (arith, h.depth), tt))),
                ),
              ),
            ),
          ),
        ),
      ),
    ),
  )

  last-of : IsAcceptable → All Holds (last_rules p prefs funding msg)
  unfolding last_rules validate_htlc_minimum_too_large validate_max_htlc_in_flight_too_small
      validate_channel_reserve_too_large validate_max_accepted_htlcs_too_small
      validate_dust_limit_too_large
  last-of h = (
    ground (arith, h.htlc_minimum),
    (
      ground (arith, h.in_flight),
      (
        ground (arith, h.reserve_most),
        (ground (arith, h.htlcs_least), (ground (arith, h.dust_most), tt)),
      ),
    ),
  )

  -- The message is checked by both groups of rules.
  both_rules :
      (channel : Channel)
      → channel.their_side.channel_reserve ≡ some reserve
      → channel.our_side.dust_limit ≡ some dust
      → channel.funding_amount ≡ some funding
      → validate_accept_channel p prefs channel msg ≡ (
          check_all (first_rules p prefs reserve dust msg)
          >> (check_all (last_rules p prefs funding msg) >> ok true))
  unfolding validate_accept_channel
  both_rules channel has_reserve has_dust has_funding =
      ap (λ r. chain r channel.our_side.dust_limit channel.funding_amount) has_reserve
      ∙ ap (λ d. chain (some reserve) d channel.funding_amount) has_dust
      ∙ ap (λ f. chain (some reserve) (some dust) f) has_funding
    where
      chain : Option Value → Option Value → Option Value → Result OpeningError Bool
      chain r d f = or_throws (need r) >>= λ reserve. or_throws (need d) >>= λ dust.
          check_all (first_rules p prefs reserve dust msg)
          >> (or_throws (need f) >>= λ funding.
              check_all (last_rules p prefs funding msg) >> ok true)

  -- For a channel with a reserve, a dust limit and a funding amount, the message is accepted exactly when
  -- both reserves cover the dust limits, its delay, numbers of HTLCs and depth, its dust limit, minimum
  -- HTLC, amount in flight and reserve are within the limits of BOLT 2 and of the preferences, and its
  -- six keys are public keys. Its temporary channel id is not looked at.
  pub validate_accept_channel_iff :
      (channel : Channel)
      → channel.their_side.channel_reserve ≡ some reserve
      → channel.our_side.dust_limit ≡ some dust
      → channel.funding_amount ≡ some funding
      → (validate_accept_channel p prefs channel msg ≡ ok true) ↔ IsAcceptable
  validate_accept_channel_iff channel has_reserve has_dust has_funding =
      let e = both_rules channel has_reserve has_dust has_funding in
      let first = first_rules p prefs reserve dust msg in
      let last = last_rules p prefs funding msg in
      (
        λ h.
            let (_, f, h') = >>=-eq-ok (check_all first) _ (sym e ∙ h) in
            let (_, g, _) = >>=-eq-ok (check_all last) _ h' in
            acceptable-of (check_all-Holds first f) (check_all-Holds last g),
        λ a. e ∙ rw (check_all_ok first (first-of a), check_all_ok last (last-of a)) refl,
      )
