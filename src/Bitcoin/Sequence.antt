-- ===== src/Bitcoin/Sequence.antt =====
-- packages/bitcoin/lib/Sequence.ts: the nSequence field of a transaction's input (BIP 68).
pub mod Delays
use node_lightning.Common.{
  ℕ, ◌+◌, ◌-◌, ◌*◌, ◌/◌, ◌%◌, ◌^◌, ◌<◌, ◌≡◌, Bool, ltb, ◌==◌, if◌then◌else◌, Result, ok, err, ◌>>=◌,
  bit_and, bit_or, List,
}
use node_lightning.Common.Bytes.{le_bytes}
use node_lightning.Bitcoin.LockTime.{TimeLockMode, block, time}

pub data SequenceError : Type 0 where
  invalid_sequence : SequenceError

abbrev pub max_sequence : ℕ
max_sequence = 0xffff_ffff

abbrev pub default_sequence : ℕ
default_sequence = 0xffff_ffff

pub record Sequence : Type 0 where
  pub value : ℕ

-- The setter of `value`, and the constructor, which goes through it.
unfoldable pub new_sequence : ℕ → Result SequenceError Sequence
new_sequence val =
    if ltb max_sequence val then err invalid_sequence else ok (record { value = val })

-- The static constructors, which the constructor does not refuse.
unfoldable pub locktime : Result SequenceError Sequence
unfolding new_sequence
locktime = new_sequence 0xffff_fffe

unfoldable pub rbf : Result SequenceError Sequence
unfolding new_sequence
rbf = new_sequence 0xffff_fffd

unfoldable pub default : Result SequenceError Sequence
unfolding new_sequence
default = new_sequence default_sequence

unfoldable pub zero_sequence : Result SequenceError Sequence
unfolding new_sequence
zero_sequence = new_sequence 0

unfoldable pub is_default : Sequence → Bool
is_default s = s.value == default_sequence

-- `BigInt(value) >> 31n === 0n`
unfoldable pub enabled : Sequence → Bool
enabled s = s.value / 2 ^ 31 == 0

unfoldable pub is_lock_time_signaled : Sequence → Bool
is_lock_time_signaled s = ltb s.value default_sequence

unfoldable pub is_rbf_signaled : Sequence → Bool
is_rbf_signaled s = ltb s.value (default_sequence - 1)

-- `value >> 22 === 1`. The shift is on the 32-bit signed reading of the value, so that a value with
-- its top bit set gives a negative number, which is never 1.
unfoldable pub mode : Sequence → TimeLockMode
mode s = if ltb s.value (2 ^ 31) then (if s.value / 2 ^ 22 == 1 then time else block) else block

-- `(value & 0xffff) * 512`
unfoldable pub get_time_delay : Sequence → ℕ
get_time_delay s = bit_and s.value 0xffff * 512

-- The setter of `timeDelay`, on a whole number of seconds: the quotient by 512 is rounded up.
unfoldable pub set_time_delay : Sequence → ℕ → Result SequenceError Sequence
unfolding new_sequence
set_time_delay s seconds =
    let value : ℕ = (seconds + 511) / 512 in
    if ltb 0xffff value then err invalid_sequence else new_sequence (bit_or value (2 ^ 22))

-- The static `timeDelay`, which sets a new default nSequence.
unfoldable pub time_delay : ℕ → Result SequenceError Sequence
unfolding new_sequence set_time_delay
time_delay seconds = new_sequence default_sequence >>= λ sut. set_time_delay sut seconds

unfoldable pub get_block_delay : Sequence → ℕ
get_block_delay s = bit_and s.value 0xffff

unfoldable pub set_block_delay : Sequence → ℕ → Result SequenceError Sequence
unfolding new_sequence
set_block_delay s blocks = if ltb 0xffff blocks then err invalid_sequence else new_sequence blocks

unfoldable pub block_delay : ℕ → Result SequenceError Sequence
unfolding new_sequence set_block_delay
block_delay blocks = new_sequence default_sequence >>= λ sut. set_block_delay sut blocks

unfoldable pub serialize : Sequence → List ℕ
serialize s = le_bytes 4 s.value
