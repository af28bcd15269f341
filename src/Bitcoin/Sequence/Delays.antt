-- ===== src/Bitcoin/Sequence/Delays.antt =====
-- Setting and reading the relative delays of an nSequence.
use node_lightning.Common.{
  ℕ, ◌+◌, ◌*◌, ◌/◌, ◌%◌, ◌^◌, ◌<◌, ◌≤◌, ◌≡◌, ◌∙◌, true, ok, err, bit_and, bit_or, arith,
}
use node_lightning.Common.Bits.{bit_and-ones, bit_or_fields, bit_or_comm}
use node_lightning.Bitcoin.LockTime.{block, time}
use node_lightning.Bitcoin.Sequence.{
  Sequence, invalid_sequence, time_delay, get_time_delay, block_delay, get_block_delay, mode,
  enabled,
}

low_16 : (v : ℕ) → bit_and v 0xffff ≡ v % 0x1_0000
low_16 v = bit_and-ones 16 v

set_type_flag : (v : ℕ) → v < 2 ^ 22 → bit_or v (2 ^ 22) ≡ v + 2 ^ 22
set_type_flag v h = bit_or_comm v (2 ^ 22) ∙ bit_or_fields 22 1 v h ∙ omega arith

-- A delay in seconds that fits 16 bits of 512 seconds each is stored: the nSequence is enabled, has
-- the time mode, and gives back the delay rounded up to a multiple of 512.
pub time_delay_ok :
    (seconds : ℕ)
    → seconds ≤ 0xffff * 512
    → (s : Sequence) × (time_delay seconds ≡ ok s)
      × (enabled s ≡ true)
      × (mode s ≡ time)
      × (seconds ≤ get_time_delay s)
      × (get_time_delay s < seconds + 512)
      × (get_time_delay s % 512 ≡ 0)
unfolding time_delay enabled mode get_time_delay
time_delay_ok seconds h =
    let units : ℕ = (seconds + 511) / 512 in
    let flagged = set_type_flag units (omega arith) in
    let low = low_16 (units + 2 ^ 22) in
    (
      record { value = units + 2 ^ 22 },
      ground (arith, flagged),
      ground arith,
      ground arith,
      omega (arith, low),
      omega (arith, low),
      omega (arith, low),
    )

-- A longer delay is refused.
pub time_delay_too_long :
    (seconds : ℕ) → 0xffff * 512 < seconds → time_delay seconds ≡ err invalid_sequence
unfolding time_delay
time_delay_too_long seconds h = ground arith

-- A delay in blocks is stored exactly when it fits 16 bits; then the nSequence is enabled, has the
-- block mode, and gives the delay back.
pub block_delay_ok :
    (blocks : ℕ)
    → (blocks ≤ 0xffff
        → (s : Sequence) × (block_delay blocks ≡ ok s)
          × (enabled s ≡ true)
          × (mode s ≡ block)
          × (get_block_delay s ≡ blocks))
      × (0xffff < blocks → block_delay blocks ≡ err invalid_sequence)
unfolding block_delay enabled mode get_block_delay
block_delay_ok blocks = (
  λ h. (
    record { value = blocks },
    ground arith,
    ground arith,
    ground arith,
    omega (arith, low_16 blocks),
  ),
  λ h. ground arith,
)
