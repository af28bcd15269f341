-- ===== src/Channels/Commitment/Store/Inserted.antt =====
-- A store that has been given the secrets of one seed in order, from index 2^48 - 1 down, takes the
-- next one and gives back every one of them.
use node_lightning.Common.{
  ℕ, zero, suc, ◌+◌, ◌-◌, ◌^◌, ◌<◌, ◌≤◌, ◌≡◌, ◌≢◌, inl, inr, refl, ◌∙◌, ap, subst, sym, arith, true,
  ◌==◌, ==_refl, ==_iff, Bool-cases, some, none, Result, ok, List, [], ◌∷◌, length, get_elem?, set,
  length-set, get_elem?-set_self, get_elem?-set_ne, replicate, ◌>>=◌,
}
use node_lightning.Common.Bits.{two_pow_pos}
use node_lightning.Channels.Commitment.Secret.{derive}
use node_lightning.Channels.Commitment.Secret.Prefix.{derive_prefix}
use node_lightning.Channels.Commitment.Store.{
  Store, StoreError, Item, calc_index, empty, equals, item_at, check_item, check_loop, insert,
}
use node_lightning.Channels.Commitment.Store.Lowest.{calc_index-IsLowest}
use node_lightning.Channels.Commitment.Store.Places.{calc_index-add, same_upper, add-lt}

equals_refl : (xs : List ℕ) → equals xs xs ≡ true
unfolding equals
equals_refl [] = refl
equals_refl (x ∷ xs) = rw ==_refl (equals_refl xs)

get_elem?-lt {ℓ} :
    {A : Type ℓ} (xs : List A) (i : ℕ) → i < length xs → (x : A) × (get_elem? xs i ≡ some x)
get_elem?-lt [] i h = absurd (omega arith)
get_elem?-lt (x ∷ xs) zero h = (x, refl)
get_elem?-lt (x ∷ xs) (suc i) h = get_elem?-lt xs i (omega arith)

item_at_found :
    (secrets : Store) (b : ℕ) (item : Item)
    → get_elem? secrets b ≡ some item
    → item_at secrets b ≡ ok item
unfolding item_at
item_at_found secrets b item e = rw (e, item_at) refl

same_item : {a b : Item} → some a ≡ some b → a ≡ b
same_item e = cc

get_elem?-replicate {ℓ} :
    {A : Type ℓ} (n i : ℕ) (a x : A) → get_elem? (replicate n a) i ≡ some x → x ≡ a
get_elem?-replicate zero i a x e = cc
get_elem?-replicate (suc n) zero a x e = cc
get_elem?-replicate (suc n) (suc i) a x e = get_elem?-replicate n i a x e

module _ (sha256 : List ℕ → List ℕ) (seed : List ℕ) where
  -- The item at place `b`, when every index from `n` on has been inserted: the lowest of these
  -- indices with that place, and its secret.
  pub data IsCurrent (n b : ℕ) (item : Item) : Type 0 where
    vacant :
        item.secret ≡ none → ((x : ℕ) → n ≤ x → x < 2 ^ 48 → calc_index x ≢ b) → IsCurrent n b item
    filled :
        item.secret ≡ some (derive sha256 seed item.index 48)
        → calc_index item.index ≡ b
        → n ≤ item.index
        → item.index < 2 ^ 48
        → ((x : ℕ) → n ≤ x → x < 2 ^ 48 → calc_index x ≡ b → item.index ≤ x)
        → IsCurrent n b item

  pub record HoldsFrom (n : ℕ) (secrets : Store) : Type 0 where
    pub size : length secrets ≡ 49
    pub items : (b : ℕ) (item : Item) → get_elem? secrets b ≡ some item → IsCurrent n b item

  -- The check of one known item against the honest secret at `m` passes.
  check_item_passes :
      (m b : ℕ) (item : Item)
      → m < 2 ^ 48
      → b < calc_index m
      → IsCurrent (suc m) b item
      → check_item sha256 (derive sha256 seed m 48) (calc_index m) item ≡ ok tt
  unfolding check_item
  check_item_passes m b item h l (vacant e none_yet) =
      let low = calc_index-IsLowest m in
      absurd (
        none_yet (m + 2 ^ b) (omega (arith, two_pow_pos b))
          (add-lt m (calc_index m) b low.in_range low.below l h)
          (calc_index-add m (calc_index m) b low.in_range low.below l))
  check_item_passes m b item h l (filled e place lo hi least) =
      let low = calc_index-IsLowest m in
      let bound =
        least (m + 2 ^ b) (omega (arith, two_pow_pos b))
          (add-lt m (calc_index m) b low.in_range low.below l h)
          (calc_index-add m (calc_index m) b low.in_range low.below l) in
      let derived =
        derive_prefix sha256 48 (calc_index m) item.index m seed low.in_range low.below
          (same_upper m (calc_index m) b item.index low.below l lo bound) in
      rw (e, derived, equals_refl) refl

  check_loop_passes :
      (m left b : ℕ) (secrets : Store)
      → m < 2 ^ 48
      → left + b ≡ calc_index m
      → HoldsFrom (suc m) secrets
      → check_loop sha256 left b (calc_index m) (derive sha256 seed m 48) secrets ≡ ok tt
  unfolding check_loop
  check_loop_passes m zero b secrets h e inv = refl
  check_loop_passes m (suc left) b secrets h e inv =
      let low = calc_index-IsLowest m in
      let (item, found) = get_elem?-lt secrets b (omega (arith, low.in_range, inv.size)) in
      rw
        (
          item_at_found secrets b item found,
          check_item_passes m b item h (omega arith) (inv.items b item found),
        )
        (check_loop_passes m left (b + 1) secrets h (omega arith) inv)

  -- An item at another place than that of `m` stays current when `m` is added.
  IsCurrent-step :
      (m b : ℕ) (item : Item) → calc_index m ≢ b → IsCurrent (suc m) b item → IsCurrent m b item
  IsCurrent-step m b item other (vacant e none_yet) =
      vacant e (λ x lo hi place. none_yet x (omega (arith, not_m x place)) hi place)
    where
      not_m : (x : ℕ) → calc_index x ≡ b → x ≢ m
      not_m x place same = other (ap calc_index (sym same) ∙ place)
  IsCurrent-step m b item other (filled e at lo hi least) =
      filled e at (omega arith) hi
        (λ x lo' hi' place. least x (omega (arith, not_m x place)) hi' place)
    where
      not_m : (x : ℕ) → calc_index x ≡ b → x ≢ m
      not_m x place same = other (ap calc_index (sym same) ∙ place)

  -- The items after the insertion: the new one, and those that stay.
  inserted-IsCurrent :
      (m b : ℕ) (secrets : Store) (item : Item)
      → m < 2 ^ 48
      → HoldsFrom (suc m) secrets
      → get_elem?
          (set secrets
            (calc_index m)
            (record { index = m; secret = some (derive sha256 seed m 48) }))
          b
        ≡ some item
      → IsCurrent m b item
  inserted-IsCurrent m b secrets item h inv e = elim (Bool-cases (calc_index m == b)) [
    | inl same ↦
        let at : calc_index m ≡ b = (==_iff _ _).0 same in
        let low = calc_index-IsLowest m in
        subst (IsCurrent m b)
          (same_item (
            sym
              (get_elem?-set_self secrets (calc_index m) _ (omega (arith, low.in_range, inv.size)))
            ∙ ap (get_elem? _) at
            ∙ e))
          (filled refl at (omega arith) h (λ x lo hi place. lo))
    | inr different ↦
        let other : calc_index m ≢ b = λ same. (cc (different, (==_iff _ _).1 same)) in
        IsCurrent-step m b item other
          (inv.items b item (sym (get_elem?-set_ne secrets (calc_index m) b _ other) ∙ e))
  ]

  -- Where every secret of the seed from index `m` + 1 up has been inserted, the secret at `m` is
  -- accepted, and then the store holds every secret from `m` up.
  pub insert-HoldsFrom :
      (m : ℕ) (secrets : Store)
      → m < 2 ^ 48
      → HoldsFrom (suc m) secrets
      → (after : Store) × (insert sha256 (derive sha256 seed m 48) m secrets ≡ ok after)
        × HoldsFrom m after
  unfolding insert
  insert-HoldsFrom m secrets h inv = (
    set secrets (calc_index m) (record { index = m; secret = some (derive sha256 seed m 48) }),
    rw (check_loop_passes m (calc_index m) 0 secrets h (omega arith) inv) refl,
    record {
      size = length-set secrets (calc_index m) _ ∙ inv.size;
      items = λ b item e. inserted-IsCurrent m b secrets item h inv e;
    },
  )

  -- The empty store holds the secrets from 2^48 up: there are none.
  pub empty-HoldsFrom : HoldsFrom (2 ^ 48) empty
  unfolding empty
  empty-HoldsFrom = record {
    size = refl;
    items = λ b item e.
        vacant (ap (λ i. i.secret) (get_elem?-replicate 49 b _ item e))
          (λ x lo hi place. absurd (omega arith));
  }

  -- Inserting the secrets of a seed in order, `count` of them from index 2^48 - 1 down.
  unfoldable pub insert_down : ℕ → Result StoreError Store
  insert_down zero = ok empty
  insert_down (suc count) = insert_down count >>= λ secrets.
      let m : ℕ = 2 ^ 48 - suc count in insert sha256 (derive sha256 seed m 48) m secrets

  pub insert_down-HoldsFrom :
      (count : ℕ)
      → count ≤ 2 ^ 48
      → (after : Store) × (insert_down count ≡ ok after) × HoldsFrom (2 ^ 48 - count) after
  unfolding insert_down
  insert_down-HoldsFrom zero h = (empty, refl, empty-HoldsFrom)
  insert_down-HoldsFrom (suc count) h =
      let (secrets, given, inv) = insert_down-HoldsFrom count (omega arith) in
      let next : 2 ^ 48 - count ≡ suc (2 ^ 48 - suc count) = omega arith in
      let (after, step, inv') =
        insert-HoldsFrom (2 ^ 48 - suc count) secrets (omega arith)
          (subst (λ n. HoldsFrom n secrets) next inv) in
      (after, rw given step, inv')
