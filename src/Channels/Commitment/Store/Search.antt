-- ===== src/Channels/Commitment/Store/Search.antt =====
-- What `derive` of the store finds among the items that stand for the secrets of one seed.
use node_lightning.Common.{
  ℕ, suc, ◌+◌, ◌-◌, ◌/◌, ◌%◌, ◌^◌, ◌<◌, ◌≤◌, ◌≡◌, ◌≢◌, ◌⊎◌, inl, inr, refl, ◌∙◌, ap, subst, sym,
  arith, true, false, ◌==◌, ==_iff, Bool-cases, some, none, ok, err, List, [], ◌∷◌, length,
  get_elem?, bit_and, ne→==_false,
}
use node_lightning.Common.Bits.{bit_and-high}
use native.Mathlib.Nat.{add-zero, zero-add}
use node_lightning.Channels.Commitment.Secret.{derive}
use node_lightning.Channels.Commitment.Secret.Prefix.{derive_prefix}
use node_lightning.Channels.Commitment.Store.{
  Store, Item, calc_index, mask, try_item, derive_loop, derive_old, not_received,
}
use node_lightning.Channels.Commitment.Store.Lowest.{calc_index-IsLowest}
use node_lightning.Channels.Commitment.Store.Places.{
  floor, floor_facts, floor_next, calc_index-floor, multiple_gap,
}
use node_lightning.Channels.Commitment.Store.Inserted.{
  IsCurrent, vacant, filled, HoldsFrom, insert_down, insert_down-HoldsFrom,
}

mask-floor : (i b : ℕ) → b ≤ 48 → i < 2 ^ 48 → bit_and i (mask b) ≡ floor i b
unfolding mask floor
mask-floor i b h k = bit_and-high b 48 i h k

floor_48 : (i : ℕ) → i < 2 ^ 48 → floor i 48 ≡ 0
unfolding floor
floor_48 i h = omega arith

floor_0 : (i : ℕ) → floor i 0 ≡ i
unfolding floor
floor_0 i = omega arith

shift_place : (b c : ℕ) → b + suc c ≡ b + 1 + c
shift_place b c = omega arith

module _ (sha256 : List ℕ → List ℕ) (seed : List ℕ) where
  -- The search may go on from an item that is not the floor of `i`: the next floor is still reached.
  search_goes_on :
      (n i b : ℕ)
      → b ≤ 48
      → i < 2 ^ 48
      → n ≤ floor i b
      → (calc_index (floor i b) ≡ b → (b ≢ 48) × (n + 2 ^ b ≤ floor i b))
      → (b < 48) × (n ≤ floor i (b + 1))
  search_goes_on n i b h k reach skip = elim (floor_next i b) [
    | inl (clear, same) ↦ (omega (arith, not_last), omega (arith, same))
    | inr (set, lower) ↦
        let gap = skip (calc_index-floor i b h (λ _. set)) in
        (omega (arith, gap.0), omega (arith, lower, gap.1))
  ]
    where
      not_last : b ≢ 48
      not_last e = (skip (calc_index-floor i b h (λ l. absurd (omega arith)))).0 e

  -- A round of the search finds the secret at `i`, or the search may go on.
  try_round :
      (n i b : ℕ) (item : Item)
      → b ≤ 48
      → i < 2 ^ 48
      → n ≤ floor i b
      → IsCurrent sha256 seed n b item
      → (try_item sha256 i b item ≡ some (derive sha256 seed i 48))
        ⊎ ((try_item sha256 i b item ≡ none) × (b < 48) × (n ≤ floor i (b + 1)))
  unfolding try_item
  try_round n i b item h k reach (vacant e none_yet) = inr (rw (e, try_item) refl, on.0, on.1)
    where
      on : (b < 48) × (n ≤ floor i (b + 1))
      on =
          search_goes_on n i b h k reach
            (λ place. absurd (none_yet (floor i b) reach (omega (arith, floor_facts i b)) place))
  try_round n i b item h k reach (filled e place lo hi least) =
      elim (Bool-cases (floor i b == item.index)) [
        | inl same ↦ inl (rw (e, try_item, mask-floor i b h k, same) (ap some (found same)))
        | inr other ↦
            let on = search_goes_on n i b h k reach (gap other) in
            inr (rw (e, try_item, mask-floor i b h k, other) refl, on.0, on.1)
      ]
    where
      found :
          (floor i b == item.index) ≡ true
          → derive sha256 (derive sha256 seed item.index 48) i b ≡ derive sha256 seed i 48
      found same =
          let at : floor i b ≡ item.index = (==_iff _ _).0 same in
          let (low, quotient, below) = floor_facts i b in
          derive_prefix sha256 48 b i item.index seed h (subst (λ (m : ℕ). m % 2 ^ b ≡ 0) at low)
            (sym quotient ∙ ap (λ (m : ℕ). m / 2 ^ b) at)

      gap :
          (floor i b == item.index) ≡ false
          → calc_index (floor i b) ≡ b
          → (b ≢ 48) × (n + 2 ^ b ≤ floor i b)
      gap other at =
          let (low, quotient, below) = floor_facts i b in
          let bound = least (floor i b) reach (omega (arith, below)) at in
          let lower : item.index < floor i b = ground arith in
          let own =
            subst (λ p. item.index % 2 ^ p ≡ 0) place (calc_index-IsLowest item.index).below in
          (
            λ end. omega (arith, lower, floor_48 i k, ap (floor i) end),
            omega (arith, multiple_gap b item.index (floor i b) own low lower),
          )

  search_finds :
      (n i b : ℕ) (items : Store)
      → i < 2 ^ 48
      → b ≤ 48
      → b + length items ≡ 49
      → n ≤ floor i b
      → ((c : ℕ) (item : Item)
          → get_elem? items c ≡ some item
          → IsCurrent sha256 seed n (b + c) item)
      → derive_loop sha256 i b items ≡ ok (derive sha256 seed i 48)
  unfolding derive_loop
  search_finds n i b [] k h size reach current = absurd (omega arith)
  search_finds n i b (item ∷ rest) k h size reach current =
      elim (try_round n i b item h k reach
        (subst (λ p. IsCurrent sha256 seed n p item) (add-zero b) (current 0 item refl))) [
          | inl found ↦ rw (found, derive_loop) refl
          | inr (missing, more, reach') ↦
              rw (missing, derive_loop)
                (search_finds n i (b + 1) rest k (omega arith) (omega arith) reach' (λ c it e.
                  subst (λ p. IsCurrent sha256 seed n p it) (shift_place b c)
                    (current (suc c) it e)))
        ]

  try_fails :
      (n i b : ℕ) (item : Item)
      → i < n
      → i < 2 ^ 48
      → b ≤ 48
      → IsCurrent sha256 seed n b item
      → try_item sha256 i b item ≡ none
  unfolding try_item
  try_fails n i b item h k l (vacant e none_yet) = rw (e, try_item) refl
  try_fails n i b item h k l (filled e place lo hi least) =
      rw (e, try_item, mask-floor i b l k, ne→==_false (floor i b) item.index below) refl
    where
      below : floor i b ≢ item.index
      below e = omega (arith, floor_facts i b)

  search_fails :
      (n i b : ℕ) (items : Store)
      → i < n
      → i < 2 ^ 48
      → b + length items ≤ 49
      → ((c : ℕ) (item : Item)
          → get_elem? items c ≡ some item
          → IsCurrent sha256 seed n (b + c) item)
      → derive_loop sha256 i b items ≡ err not_received
  unfolding derive_loop
  search_fails n i b [] h k size current = refl
  search_fails n i b (item ∷ rest) h k size current =
      rw
        (
          try_fails n i b item h k (omega arith)
              (subst (λ p. IsCurrent sha256 seed n p item) (add-zero b) (current 0 item refl)),
          derive_loop,
        )
        (search_fails n i (b + 1) rest h k (omega arith) (λ c it e.
          subst (λ p. IsCurrent sha256 seed n p it) (shift_place b c) (current (suc c) it e)))

  derive_old_received :
      (n i : ℕ) (secrets : Store)
      → HoldsFrom sha256 seed n secrets
      → i < 2 ^ 48
      → n ≤ i
      → derive_old sha256 i secrets ≡ ok (derive sha256 seed i 48)
  unfolding derive_old
  derive_old_received n i secrets inv h l =
      search_finds n i 0 secrets h (omega arith) (omega (arith, inv.size))
        (omega (arith, floor_0 i))
        (λ c it e. subst (λ p. IsCurrent sha256 seed n p it) (sym (zero-add c)) (inv.items c it e))

  derive_old_missing :
      (n i : ℕ) (secrets : Store)
      → HoldsFrom sha256 seed n secrets
      → i < 2 ^ 48
      → i < n
      → derive_old sha256 i secrets ≡ err not_received
  unfolding derive_old
  derive_old_missing n i secrets inv h l =
      search_fails n i 0 secrets l h (omega (arith, inv.size))
        (λ c it e. subst (λ p. IsCurrent sha256 seed n p it) (sym (zero-add c)) (inv.items c it e))

  -- When the secrets of a seed are inserted in order from index 2^48 - 1 down, no insertion throws,
  -- whatever the number of them; the store then derives the secret at each index that has been
  -- inserted, and throws that it has not been received at each index below.
  pub derive_old-insert_down :
      (count : ℕ)
      → count ≤ 2 ^ 48
      → (after : Store) × (insert_down sha256 seed count ≡ ok after)
        × ((i : ℕ)
            → 2 ^ 48 - count ≤ i
            → i < 2 ^ 48
            → derive_old sha256 i after ≡ ok (derive sha256 seed i 48))
        × ((i : ℕ) → i < 2 ^ 48 - count → derive_old sha256 i after ≡ err not_received)
  derive_old-insert_down count h =
      let (after, given, inv) = insert_down-HoldsFrom sha256 seed count h in
      (
        after,
        given,
        λ i l k. derive_old_received (2 ^ 48 - count) i after inv k l,
        λ i l. derive_old_missing (2 ^ 48 - count) i after inv (omega arith) l,
      )
