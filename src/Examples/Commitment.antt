-- ===== src/Examples/Commitment.antt =====
-- Runs of packages/lightning/lib/channels/Commitment*.ts, with functions in the place of SHA-256.
use node_lightning.Common.{ℕ, ◌-◌, ◌^◌, ◌<◌, ◌≤◌, ◌≡◌, refl, false, ok, err, arith, List, [], ◌∷◌}
use node_lightning.Bitcoin.Sequence.{Sequence, enabled}
use node_lightning.Bitcoin.LockTime.{LockTime, lock_type, time}
use node_lightning.Channels.Commitment.Number.{get_sequence, get_lock_time, obscure, reveal}
use node_lightning.Channels.Commitment.Number.Obscured.{reveal-obscure}
use node_lightning.Channels.Commitment.Secret.{derive}
use node_lightning.Channels.Commitment.Secret.Prefix.{derive_prefix}
use node_lightning.Channels.Commitment.Store.{Store, insert, derive_old, not_received, empty}
use node_lightning.Channels.Commitment.Store.Inserted.{
  insert-HoldsFrom, HoldsFrom, empty-HoldsFrom, insert_down,
}
use node_lightning.Channels.Commitment.Store.Search.{derive_old-insert_down}

-- A digest of six bytes, and a map on byte strings.
digest : List ℕ → List ℕ
digest xs = 0xb2 ∷ 0x17 ∷ 0x9a ∷ 0x5c ∷ 0x01 ∷ 0xfe ∷ []

echo : List ℕ → List ℕ
echo xs = xs

abbrev seed : List ℕ
seed = 1 ∷ 2 ∷ 3 ∷ []

reveal-obscure_example :
    (s : Sequence) × (l : LockTime) × (get_sequence (obscure digest 42 (2 ∷ []) (3 ∷ [])) ≡ ok s)
    × (get_lock_time (obscure digest 42 (2 ∷ []) (3 ∷ [])) ≡ ok l)
    × (enabled s ≡ false)
    × (lock_type l ≡ time)
    × (reveal digest l s (2 ∷ []) (3 ∷ []) ≡ 42)
unfolding digest
reveal-obscure_example =
    reveal-obscure digest (2 ∷ []) (3 ∷ []) 42 (omega arith)
      (omega arith, (omega arith, (omega arith, (omega arith, (omega arith, (omega arith, tt))))))
      (omega arith)

derive_prefix_example : derive echo (derive echo seed 8 48) 11 3 ≡ derive echo seed 11 48
derive_prefix_example = derive_prefix echo 48 3 11 8 seed (omega arith) refl refl

insert-HoldsFrom_example :
    (after : Store) × (insert echo (derive echo seed 0xffff_ffff_ffff 48) 0xffff_ffff_ffff empty
      ≡ ok after)
    × HoldsFrom echo seed 0xffff_ffff_ffff after
insert-HoldsFrom_example =
    insert-HoldsFrom echo seed 0xffff_ffff_ffff empty (omega arith) (empty-HoldsFrom echo seed)

derive_old-insert_down_example :
    (after : Store) × (insert_down echo seed 3 ≡ ok after)
    × ((i : ℕ) → 2 ^ 48 - 3 ≤ i → i < 2 ^ 48 → derive_old echo i after ≡ ok (derive echo seed i 48))
    × ((i : ℕ) → i < 2 ^ 48 - 3 → derive_old echo i after ≡ err not_received)
derive_old-insert_down_example = derive_old-insert_down echo seed 3 (omega arith)
