-- ===== src/Channels/Commitment/Number/Obscured.antt =====
-- An obscured commitment number is revealed again from the time locks that carry it.
use node_lightning.Common.{
  ℕ, ◌+◌, ◌-◌, ◌*◌, ◌/◌, ◌%◌, ◌^◌, ◌<◌, ◌≤◌, ◌≡◌, subst, ◌∙◌, ap, false, ok, bit_and, bit_or,
  bit_xor, arith, List, ◌++◌, length, drop, All, length-drop,
}
use node_lightning.Common.Bytes.{IsByte, be_value, be_value-lt, All-drop}
use node_lightning.Common.Bits.{bit_and-ones, bit_or_fields, bit_xor-lt, bit_xor_cancel}
use node_lightning.Bitcoin.Sequence.{Sequence, enabled, new_sequence}
use node_lightning.Bitcoin.LockTime.{LockTime, lock_type, time, new_lock_time}
use node_lightning.Channels.Commitment.Number.{
  get_sequence, get_lock_time, get_hash, obscure, reveal,
}

low_24 : (v : ℕ) → bit_and v 0xff_ffff ≡ v % 2 ^ 24
low_24 v = bit_and-ones 24 v

get_sequence_value :
    (x : ℕ) → x < 2 ^ 48 → get_sequence x ≡ ok (record { value = 2 ^ 31 + x / 2 ^ 24 })
unfolding get_sequence new_sequence
get_sequence_value x h = ground (arith, bit_or_fields 24 0x80 (x / 2 ^ 24))

get_lock_time_value :
    (x : ℕ) → x < 2 ^ 48 → get_lock_time x ≡ ok (record { value = 0x20 * 2 ^ 24 + x % 2 ^ 24 })
unfolding get_lock_time new_lock_time
get_lock_time_value x h = ground (arith, low_24 x, bit_or_fields 24 0x20 (x % 2 ^ 24))

reveal_value :
    (x : ℕ)
    → x < 2 ^ 48
    → bit_or
        (bit_and (2 ^ 31 + x / 2 ^ 24) 0xff_ffff * 2 ^ 24)
        (bit_and (0x20 * 2 ^ 24 + x % 2 ^ 24) 0xff_ffff)
      ≡ x
reveal_value x h =
    ap (λ (u : ℕ). bit_or (u * 2 ^ 24) (bit_and (0x20 * 2 ^ 24 + x % 2 ^ 24) 0xff_ffff)) upper
    ∙ ap (bit_or (x / 2 ^ 24 * 2 ^ 24)) lower
    ∙ bit_or_fields 24 (x / 2 ^ 24) (x % 2 ^ 24) (omega arith)
    ∙ omega arith
  where
    upper : bit_and (2 ^ 31 + x / 2 ^ 24) 0xff_ffff ≡ x / 2 ^ 24
    upper = omega (arith, low_24 (2 ^ 31 + x / 2 ^ 24))

    lower : bit_and (0x20 * 2 ^ 24 + x % 2 ^ 24) 0xff_ffff ≡ x % 2 ^ 24
    lower = omega (arith, low_24 (0x20 * 2 ^ 24 + x % 2 ^ 24))

module _ (sha256 : List ℕ → List ℕ) where
  get_hash-lt :
      (open_point accept_point : List ℕ)
      → 6 ≤ length (sha256 (open_point ++ accept_point))
      → All IsByte (sha256 (open_point ++ accept_point))
      → get_hash sha256 open_point accept_point < 2 ^ 48
  unfolding get_hash
  get_hash-lt open_point accept_point h k =
      let hash = sha256 (open_point ++ accept_point) in
      let last = drop (length hash - 6) hash in
      let six : length last ≡ 6 = omega (arith, length-drop (length hash - 6) hash) in
      subst (λ n. be_value last < 256 ^ n) six
        (be_value-lt last (All-drop (length hash - 6) hash k))

  -- Where the digest has at least six elements, all bytes, a commitment number below 2^48 that is
  -- obscured goes into an nSequence with the relative lock time disabled and an nLockTime of the time
  -- kind, and the two reveal it.
  pub reveal-obscure :
      (open_point accept_point : List ℕ) (commitment : ℕ)
      → 6 ≤ length (sha256 (open_point ++ accept_point))
      → All IsByte (sha256 (open_point ++ accept_point))
      → commitment < 2 ^ 48
      → (s : Sequence) × (l : LockTime) × (get_sequence
            (obscure sha256 commitment open_point accept_point)
          ≡ ok s)
        × (get_lock_time (obscure sha256 commitment open_point accept_point) ≡ ok l)
        × (enabled s ≡ false)
        × (lock_type l ≡ time)
        × (reveal sha256 l s open_point accept_point ≡ commitment)
  unfolding obscure reveal enabled lock_type
  reveal-obscure open_point accept_point commitment h k fits =
      let hash = get_hash sha256 open_point accept_point in
      let hash_fits = get_hash-lt open_point accept_point h k in
      let x = bit_xor hash commitment in
      let x_fits = bit_xor-lt 48 hash commitment hash_fits fits in
      (
        record { value = 2 ^ 31 + x / 2 ^ 24 },
        record { value = 0x20 * 2 ^ 24 + x % 2 ^ 24 },
        get_sequence_value x x_fits,
        get_lock_time_value x x_fits,
        ground arith,
        ground arith,
        ap (bit_xor hash) (reveal_value x x_fits)
            ∙ bit_xor_cancel 48 hash commitment hash_fits fits,
      )
