-- ===== src/Domain/ShortChannelId.antt =====
-- packages/lightning/lib/domain/ShortChannelId.ts and ShortChannelIdUtils.ts: a channel named by the
-- place of its funding output in the chain. The forms in text are left out.
pub mod RoundTrip
use node_lightning.Common.{
  ℕ, ◌/◌, ◌^◌, ltb, ◌==◌, not, if◌then◌else◌, bit_and, List, ◌++◌, length, take, drop, replicate,
  Option, none, some, Result, ok, err, ◌>>=◌,
}
use node_lightning.Common.Bytes.{be_value, be_bytes}

-- `node_range` is what a write of a number that does not fit throws.
pub data ShortChannelIdError : Type 0 where
  invalid_argument node_range : ShortChannelIdError

pub record ShortChannelId : Type 0 where
  pub block : ℕ
  pub tx_idx : ℕ
  pub vout_idx : ℕ

-- `buf.writeUIntBE(val, offset, len)` of Node: the bytes that it puts at the offset, of a number in
-- range.
unfoldable pub write_uint_be : ℕ → ℕ → Result ShortChannelIdError (List ℕ)
write_uint_be val len = if ltb val (256 ^ len) then ok (be_bytes len val) else err node_range

unfoldable pub to_buffer : Option ShortChannelId → Result ShortChannelIdError (List ℕ)
unfolding write_uint_be
to_buffer none = ok (replicate 8 0)
to_buffer (some obj) = write_uint_be obj.block 3 >>= λ block.
    write_uint_be obj.tx_idx 3 >>= λ tx_idx.
    write_uint_be obj.vout_idx 2 >>= λ vout_idx. ok (block ++ tx_idx ++ vout_idx)

unfoldable pub to_number : Option ShortChannelId → Result ShortChannelIdError ℕ
unfolding to_buffer
to_number obj = to_buffer obj >>= λ buf. ok (be_value buf)

unfoldable pub from_buffer : List ℕ → Result ShortChannelIdError ShortChannelId
from_buffer buf =
    if not (length buf == 8)
    then err invalid_argument
    else ok (record {
      block = be_value (take 3 buf);
      tx_idx = be_value (take 3 (drop 3 buf));
      vout_idx = be_value (take 2 (drop 6 buf));
    })

unfoldable pub from_number : ℕ → ShortChannelId
from_number num = record {
  block = bit_and num 0xff_ffff_0000_0000_00 / 2 ^ 40;
  tx_idx = bit_and num 0xff_ffff_0000 / 2 ^ 16;
  vout_idx = bit_and num 0xffff;
}
