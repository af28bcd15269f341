-- ===== src/Channels/Commitment/Number.antt =====
-- packages/lightning/lib/channels/CommitmentNumber.ts: a commitment number obscured in the time
-- locks of its transaction. SHA-256 is a parameter.
pub mod Obscured
use node_lightning.Common.{
  ℕ, ◌+◌, ◌-◌, ◌*◌, ◌/◌, ◌^◌, ltb, if◌then◌else◌, Result, bit_and, bit_or, bit_xor, List, ◌++◌,
  length, drop, Option, some, none,
}
use node_lightning.Common.Bytes.{be_value}
use node_lightning.Bitcoin.Sequence.{Sequence, SequenceError, new_sequence}
use node_lightning.Bitcoin.LockTime.{LockTime, LockTimeError, new_lock_time}

abbrev pub max_commitment_number : ℕ
max_commitment_number = 281474976710655

-- `new Sequence(Number((0x80n << 24n) | (obscurred >> 24n)))`
unfoldable pub get_sequence : ℕ → Result SequenceError Sequence
get_sequence obscurred = new_sequence (bit_or (0x80 * 2 ^ 24) (obscurred / 2 ^ 24))

-- `new LockTime(Number((0x20n << 24n) | (obscurred & 0xffffffn)))`
unfoldable pub get_lock_time : ℕ → Result LockTimeError LockTime
get_lock_time obscurred = new_lock_time (bit_or (0x20 * 2 ^ 24) (bit_and obscurred 0xff_ffff))

-- `secretIndex`; `none` is a negative bigint, which a number above the maximum gives.
unfoldable pub secret_index : ℕ → Option ℕ
secret_index value =
    if ltb max_commitment_number value then none else some (max_commitment_number - value)

-- `next`
unfoldable pub next : ℕ → ℕ
next value = value + 1

module _ (sha256 : List ℕ → List ℕ) where
  -- The last six bytes of the hash of both base points.
  unfoldable pub get_hash : List ℕ → List ℕ → ℕ
  get_hash open_base_point accept_base_point =
      let hash = sha256 (open_base_point ++ accept_base_point) in
      be_value (drop (length hash - 6) hash)

  unfoldable pub obscure : ℕ → List ℕ → List ℕ → ℕ
  obscure commitment open_base_point accept_base_point =
      bit_xor (get_hash open_base_point accept_base_point) commitment

  unfoldable pub reveal : LockTime → Sequence → List ℕ → List ℕ → ℕ
  reveal locktime sequence open_base_point accept_base_point =
      let hash = get_hash open_base_point accept_base_point in
      let upper : ℕ = bit_and sequence.value 0xff_ffff * 2 ^ 24 in
      let lower : ℕ = bit_and locktime.value 0xff_ffff in bit_xor hash (bit_or upper lower)
