-- ===== src/Bitcoin/Value.antt =====
-- packages/bitcoin/lib/Value.ts: an amount in picosatoshis. The mutable `add` and `sub` and their forms
-- that return a new amount compute the same; an amount here is a value, and the callers modelled hold
-- no amount that another one changes. Conversions to and from floating point are left out.
use node_lightning.Common.{
  ℕ, ◌+◌, ◌-◌, ◌*◌, ◌/◌, ◌^◌, Bool, ltb, leb, ◌==◌, not, if◌then◌else◌, Result, ok, err,
}

pub data ValueError : Type 0 where
  value_underflow : ValueError

pub record Value : Type 0 where
  pub psats : ℕ

abbrev pub from_sats : ℕ → Value
from_sats num = record { psats = num * 10 ^ 12 }

abbrev pub from_milli_sats : ℕ → Value
from_milli_sats num = record { psats = num * 10 ^ 9 }

abbrev pub from_micro_sats : ℕ → Value
from_micro_sats num = record { psats = num * 10 ^ 6 }

abbrev pub from_pico_sats : ℕ → Value
from_pico_sats num = record { psats = num }

abbrev pub zero_value : Value
zero_value = record { psats = 0 }

abbrev pub microsats : Value → ℕ
microsats v = v.psats / 10 ^ 6

abbrev pub msats : Value → ℕ
msats v = v.psats / 10 ^ 9

abbrev pub sats : Value → ℕ
sats v = v.psats / 10 ^ 12

abbrev pub eq : Value → Value → Bool
eq v other = other.psats == v.psats

abbrev pub neq : Value → Value → Bool
neq v other = not (other.psats == v.psats)

abbrev pub gt : Value → Value → Bool
gt v other = ltb other.psats v.psats

abbrev pub gte : Value → Value → Bool
gte v other = leb other.psats v.psats

abbrev pub lt : Value → Value → Bool
lt v other = ltb v.psats other.psats

abbrev pub lte : Value → Value → Bool
lte v other = leb v.psats other.psats

-- `addn`, and what `add` makes of the amount.
abbrev pub addn : Value → Value → Value
addn v other = record { psats = v.psats + other.psats }

-- `subn`, and what `sub` makes of the amount.
abbrev pub subn : Value → Value → Result ValueError Value
subn v other =
    if ltb v.psats other.psats
    then err value_underflow
    else ok (record { psats = v.psats - other.psats })
