-- ===== src/Examples/Primitives.antt =====
-- Functions in the place of those of the crypto package: digests that are constant, and every byte
-- string of 33 bytes is a public key.
use node_lightning.Common.{ℕ, ◌≡◌, ◌⊎◌, refl, inl, true, ◌==◌, ==_iff, List, length, replicate}
use node_lightning.Bitcoin.Script.{Primitives}

pub is_33 : (key : List ℕ) → (length key == 33) ≡ true → (length key ≡ 33) ⊎ (length key ≡ 65)
is_33 key h = inl ((==_iff (length key) 33).0 h)

abbrev pub toy : Primitives
toy = record {
  hash160 = λ bs. replicate 20 7;
  ripemd160 = λ bs. replicate 20 8;
  sha256 = λ bs. replicate 32 (length bs);
  valid_public_key = λ key. length key == 33;
  is_der_sig = λ sig. true;
  length-hash160 = λ bs. refl;
  length-ripemd160 = λ bs. refl;
  length-sha256 = λ bs. refl;
  length-valid = is_33;
}
