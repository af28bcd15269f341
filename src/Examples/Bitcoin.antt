-- ===== src/Examples/Bitcoin.antt =====
-- Runs of packages/bitcoin/lib/Sequence.ts.
use node_lightning.Common.{◌+◌, ◌%◌, ◌<◌, ◌≤◌, ◌≡◌, true, ok, err, arith}
use node_lightning.Bitcoin.LockTime.{block, time}
use node_lightning.Bitcoin.Sequence.{
  Sequence, invalid_sequence, time_delay, get_time_delay, block_delay, get_block_delay, mode,
  enabled,
}
use node_lightning.Bitcoin.Sequence.Delays.{time_delay_ok, block_delay_ok}

time_delay_ok_example :
    (s : Sequence) × (time_delay 513 ≡ ok s)
    × (enabled s ≡ true)
    × (mode s ≡ time)
    × (513 ≤ get_time_delay s)
    × (get_time_delay s < 513 + 512)
    × (get_time_delay s % 512 ≡ 0)
time_delay_ok_example = time_delay_ok 513 (omega arith)

block_delay_ok_example :
    (144 ≤ 0xffff
      → (s : Sequence) × (block_delay 144 ≡ ok s)
        × (enabled s ≡ true)
        × (mode s ≡ block)
        × (get_block_delay s ≡ 144))
    × (0xffff < 144 → block_delay 144 ≡ err invalid_sequence)
block_delay_ok_example = block_delay_ok 144
