-- ===== src/Examples/Domain.antt =====
-- Runs of packages/lightning/lib/domain.
use node_lightning.Common.{◌+◌, ◌*◌, ◌^◌, ◌≡◌, ℕ, List, length, some, ok, arith}
use node_lightning.Domain.ShortChannelId.{ShortChannelId, to_buffer, to_number, from_buffer}
use node_lightning.Domain.ShortChannelId.RoundTrip.{from_buffer-to_buffer, to_number_fields}

abbrev channel : ShortChannelId
channel = record { block = 539_268; tx_idx = 845; vout_idx = 1 }

from_buffer-to_buffer_example :
    (buf : List ℕ) × (to_buffer (some channel) ≡ ok buf)
    × (length buf ≡ 8)
    × (from_buffer buf ≡ ok channel)
from_buffer-to_buffer_example =
    from_buffer-to_buffer channel (omega arith) (omega arith) (omega arith)

to_number_fields_example : to_number (some channel) ≡ ok (539_268 * 2 ^ 40 + 845 * 2 ^ 16 + 1)
to_number_fields_example = to_number_fields channel (omega arith) (omega arith) (omega arith)
