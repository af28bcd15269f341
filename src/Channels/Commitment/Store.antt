-- ===== src/Channels/Commitment/Store.antt =====
-- packages/lightning/lib/channels/CommitmentSecretStore.ts: the compact store of received secrets.
-- SHA-256 is a parameter. A secret is a list of bytes; an index is a bigint below 2^48.
pub mod Lowest
pub mod Places
pub mod Inserted
pub mod Search
use node_lightning.Common.{
  ℕ, zero, suc, ◌+◌, ◌*◌, ◌/◌, ◌^◌, ◌==◌, Bool, true, false, ◌&&◌, if◌then◌else◌, bit_and, List, [],
  ◌∷◌, Option, none, some, Result, ok, err, ◌>>=◌, ◌>>◌, get_elem?, replicate, set,
}
use node_lightning.Channels.Commitment.Secret.{derive}

-- `type_error` is what a read of a missing item, or a comparison with `undefined`, throws.
pub data StoreError : Type 0 where
  incorrect_secret not_received type_error : StoreError

-- The loop of `calcIndex` from bit `i` on, with the rounds left.
unfoldable pub calc_index_loop : ℕ → ℕ → ℕ → ℕ
calc_index_loop zero i index = 48
calc_index_loop (suc left) i index =
    let rest = calc_index_loop left (i + 1) index in if bit_and index (2 ^ i) == 0 then rest else i

unfoldable pub calc_index : ℕ → ℕ
unfolding calc_index_loop
calc_index index = calc_index_loop 48 0 index

pub record Item : Type 0 where
  pub index : ℕ
  pub secret : Option (List ℕ)

abbrev pub Store : Type 0
Store = List Item

unfoldable pub empty : Store
empty = replicate 49 (record { index = 0; secret = none })

-- `Buffer.equals`
unfoldable pub equals : List ℕ → List ℕ → Bool
equals [] [] = true
equals [] (y ∷ ys) = false
equals (x ∷ xs) [] = false
equals (x ∷ xs) (y ∷ ys) = x == y && equals xs ys

-- The upper bits from place `b` on, of 48.
unfoldable pub mask : ℕ → ℕ
mask b = 0xffff_ffff_ffff / 2 ^ b * 2 ^ b

-- `secrets[b]`
unfoldable pub item_at : Store → ℕ → Result StoreError Item
item_at secrets b = elim (get_elem? secrets b) [ none ↦ err type_error | some item ↦ ok item ]

module _ (sha256 : List ℕ → List ℕ) where
  -- One round of the check: what is known at place `b` must derive from the new secret.
  unfoldable pub check_item : List ℕ → ℕ → Item → Result StoreError (Unit {0})
  check_item secret b item = elim item.secret [
    | none ↦ err type_error
    | some existing ↦
        if equals (derive sha256 secret item.index b) existing then ok tt else err incorrect_secret
  ]

  -- The check's loop from place `b` on, with the rounds left below `top`.
  unfoldable pub check_loop : ℕ → ℕ → ℕ → List ℕ → Store → Result StoreError (Unit {0})
  check_loop zero b top secret secrets = ok tt
  check_loop (suc left) b top secret secrets = item_at secrets b >>= λ item.
      check_item secret top item >> check_loop left (b + 1) top secret secrets

  unfoldable pub insert : List ℕ → ℕ → Store → Result StoreError Store
  insert secret i secrets =
      let top = calc_index i in
      check_loop top 0 top secret secrets
      >> ok (set secrets top (record { index = i; secret = some secret }))

  -- One round of the search: the derived secret, if the item at place `b` has a prefix of `i`.
  unfoldable pub try_item : ℕ → ℕ → Item → Option (List ℕ)
  unfolding mask
  try_item i b item = elim item.secret [
    | none ↦ none
    | some secret ↦
        if bit_and i (mask b) == item.index then some (derive sha256 secret i b) else none
  ]

  -- The search over the items from place `b` on.
  unfoldable pub derive_loop : ℕ → ℕ → Store → Result StoreError (List ℕ)
  unfolding try_item
  derive_loop i b [] = err not_received
  derive_loop i b (item ∷ rest) =
      let later = derive_loop i (b + 1) rest in
      elim (try_item i b item) [ some found ↦ ok found | none ↦ later ]

  unfoldable pub derive_old : ℕ → Store → Result StoreError (List ℕ)
  unfolding derive_loop
  derive_old i secrets = derive_loop i 0 secrets
