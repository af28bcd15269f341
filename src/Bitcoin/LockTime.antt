-- ===== src/Bitcoin/LockTime.antt =====
-- packages/bitcoin/lib/LockTime.ts: a transaction's absolute lock time.
use node_lightning.Common.{ℕ, Bool, ltb, if◌then◌else◌, Result, ok, err}
use node_lightning.Common.Bytes.{le_bytes}
use node_lightning.Common.{List}

pub data TimeLockMode : Type 0 where
  block time : TimeLockMode

pub data LockTimeError : Type 0 where
  invalid_locktime : LockTimeError

abbrev pub default_locktime : ℕ
default_locktime = 0xffff_ffff

abbrev pub time_threshold : ℕ
time_threshold = 500_000_000

pub record LockTime : Type 0 where
  pub value : ℕ

-- The constructor, which goes through the setter. A natural number is not below zero.
unfoldable pub new_lock_time : ℕ → Result LockTimeError LockTime
new_lock_time val =
    if ltb default_locktime val then err invalid_locktime else ok (record { value = val })

unfoldable pub is_enabled : LockTime → Bool
is_enabled l = ltb l.value default_locktime

unfoldable pub lock_type : LockTime → TimeLockMode
lock_type l = if ltb l.value time_threshold then block else time

unfoldable pub serialize : LockTime → List ℕ
serialize l = le_bytes 4 l.value
