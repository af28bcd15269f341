-- ===== src/Channels/Keys.antt =====
-- packages/lightning/lib/channels/ChannelKeys.ts: the keys that are derived for one commitment. What the
-- crypto package computes on the curve is a parameter (`Curve`).
use node_lightning.Common.{ℕ, ◌≡◌, ap₂, ◌∙◌, List, ◌++◌}

-- The functions of the curve on serialized keys, for scalars that are in range, as they are but for
-- chance. Public keys are the images of private keys, which respects sums and products.
pub record Curve : Type 0 where
  pub get_public_key : List ℕ → List ℕ
  pub public_key_tweak_add : List ℕ → List ℕ → List ℕ
  pub public_key_tweak_mul : List ℕ → List ℕ → List ℕ
  pub public_key_combine : List ℕ → List ℕ → List ℕ
  pub private_key_tweak_add : List ℕ → List ℕ → List ℕ
  pub private_key_tweak_mul : List ℕ → List ℕ → List ℕ
  pub tweak_add_lem :
      (k t : List ℕ)
      → get_public_key (private_key_tweak_add k t) ≡ public_key_tweak_add (get_public_key k) t
  pub tweak_mul_lem :
      (k t : List ℕ)
      → get_public_key (private_key_tweak_mul k t) ≡ public_key_tweak_mul (get_public_key k) t
  pub combine_lem :
      (a b : List ℕ)
      → get_public_key (private_key_tweak_add a b)
        ≡ public_key_combine (get_public_key a) (get_public_key b)

module _ (sha256 : List ℕ → List ℕ) (c : Curve) where
  unfoldable pub derive_pub_key : List ℕ → List ℕ → List ℕ
  derive_pub_key per_commitment_point base_point =
      c.public_key_tweak_add base_point (sha256 (per_commitment_point ++ base_point))

  unfoldable pub derive_priv_key : List ℕ → List ℕ → List ℕ
  derive_priv_key per_commitment_point base_point_secret =
      let base_point = c.get_public_key base_point_secret in
      c.private_key_tweak_add base_point_secret (sha256 (per_commitment_point ++ base_point))

  unfoldable pub derive_revocation_pub_key : List ℕ → List ℕ → List ℕ
  derive_revocation_pub_key per_commitment_point base_point =
      let tweak_a = sha256 (base_point ++ per_commitment_point) in
      let a = c.public_key_tweak_mul base_point tweak_a in
      let tweak_b = sha256 (per_commitment_point ++ base_point) in
      let b = c.public_key_tweak_mul per_commitment_point tweak_b in c.public_key_combine a b

  unfoldable pub derive_revocation_priv_key : List ℕ → List ℕ → List ℕ
  derive_revocation_priv_key per_commitment_point_secret base_point_secret =
      let base_point = c.get_public_key base_point_secret in
      let per_commitment_point = c.get_public_key per_commitment_point_secret in
      let tweak_a = sha256 (base_point ++ per_commitment_point) in
      let a = c.private_key_tweak_mul base_point_secret tweak_a in
      let tweak_b = sha256 (per_commitment_point ++ base_point) in
      let b = c.private_key_tweak_mul per_commitment_point_secret tweak_b in
      c.private_key_tweak_add a b

  -- The private keys that are derived from secrets are those of the public keys that the other side
  -- derives from the points: for a payment key, and for the revocation key, whose owner has the base
  -- point's secret and is given the commitment's secret when it is revoked.
  pub derived_keys :
      (per_commitment_secret base_point_secret : List ℕ)
      → (c.get_public_key
            (derive_priv_key (c.get_public_key per_commitment_secret) base_point_secret)
          ≡ derive_pub_key
              (c.get_public_key per_commitment_secret)
              (c.get_public_key base_point_secret))
        × (c.get_public_key (derive_revocation_priv_key per_commitment_secret base_point_secret)
            ≡ derive_revocation_pub_key
                (c.get_public_key per_commitment_secret)
                (c.get_public_key base_point_secret))
  unfolding derive_pub_key derive_priv_key derive_revocation_pub_key derive_revocation_priv_key
  derived_keys s b = (
    c.tweak_add_lem b _,
    c.combine_lem _ _ ∙ ap₂ c.public_key_combine (c.tweak_mul_lem b _) (c.tweak_mul_lem s _),
  )
