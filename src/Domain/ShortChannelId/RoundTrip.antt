-- ===== src/Domain/ShortChannelId/RoundTrip.antt =====
-- The two binary forms of a short channel id give it back.
use node_lightning.Common.{
  ℕ, ◌+◌, ◌*◌, ◌^◌, ◌<◌, ◌≡◌, refl, ap, arith, lt→ltb, List, ◌++◌, length, some, ok,
}
use node_lightning.Common.Bytes.{be_value, be_bytes, le_value, le_bytes, be_value-be_bytes}
use node_lightning.Domain.ShortChannelId.{ShortChannelId, to_buffer, to_number, from_buffer}

-- A short channel id of 3, 3 and 2 bytes is written to 8 bytes, from which it is read back.
pub from_buffer-to_buffer :
    (obj : ShortChannelId)
    → obj.block < 2 ^ 24
    → obj.tx_idx < 2 ^ 24
    → obj.vout_idx < 2 ^ 16
    → (buf : List ℕ) × (to_buffer (some obj) ≡ ok buf)
      × (length buf ≡ 8)
      × (from_buffer buf ≡ ok obj)
unfolding to_buffer from_buffer be_bytes
from_buffer-to_buffer obj b t v = (
  be_bytes 3 obj.block ++ be_bytes 3 obj.tx_idx ++ be_bytes 2 obj.vout_idx,
  rw (lt→ltb obj.block (256 ^ 3) b, lt→ltb obj.tx_idx (256 ^ 3) t, lt→ltb obj.vout_idx (256 ^ 2) v)
      refl,
  refl,
  rw
      (
        be_value-be_bytes 3 obj.block b,
        be_value-be_bytes 3 obj.tx_idx t,
        be_value-be_bytes 2 obj.vout_idx v,
      )
      refl,
)

value_of_fields :
    (b t v : ℕ)
    → b < 2 ^ 24
    → t < 2 ^ 24
    → v < 2 ^ 16
    → be_value (be_bytes 3 b ++ be_bytes 3 t ++ be_bytes 2 v) ≡ b * 2 ^ 40 + t * 2 ^ 16 + v
unfolding be_value be_bytes le_value le_bytes
value_of_fields b t v hb ht hv = omega arith

-- The number of a short channel id whose fields fit has the block in its upper 24 bits, then the
-- transaction in 24 bits, and the output in the lower 16.
pub to_number_fields :
    (obj : ShortChannelId)
    → obj.block < 2 ^ 24
    → obj.tx_idx < 2 ^ 24
    → obj.vout_idx < 2 ^ 16
    → to_number (some obj) ≡ ok (obj.block * 2 ^ 40 + obj.tx_idx * 2 ^ 16 + obj.vout_idx)
unfolding to_number to_buffer
to_number_fields obj b t v =
    rw
      (lt→ltb obj.block (256 ^ 3) b, lt→ltb obj.tx_idx (256 ^ 3) t, lt→ltb obj.vout_idx (256 ^ 2) v)
      (ap (λ (n : ℕ). ok n) value)
  where
    value :
        be_value (be_bytes 3 obj.block ++ be_bytes 3 obj.tx_idx ++ be_bytes 2 obj.vout_idx)
        ≡ obj.block * 2 ^ 40 + obj.tx_idx * 2 ^ 16 + obj.vout_idx
    value = value_of_fields obj.block obj.tx_idx obj.vout_idx b t v
