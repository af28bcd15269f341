-- ===== src/Crypto/Keys.antt =====
-- What callers rely on: two keys of 32 bytes from one derivation, and decryption of what was encrypted.
use node_lightning.Common.{
  ℕ, zero, suc, ◌+◌, ◌-◌, ◌*◌, ◌≡◌, refl, ◌∙◌, arith, lt→ltb, ne→==_false, List, [], ◌∷◌, ◌++◌,
  length, take, some, ok, length-take, length-append, take-length_append, drop-length_append,
}
use node_lightning.Crypto.{Suite, expand, hkdf, ccp_encrypt, ccp_decrypt, final}

module _ (suite : Suite) where
  length-expand :
      (rounds i : ℕ) (prk info last : List ℕ)
      → length (expand suite rounds i prk info last) ≡ rounds * 32
  unfolding expand
  length-expand zero i prk info last = refl
  length-expand (suc left) i prk info last =
      let block = suite.hmac prk (last ++ info ++ i ∷ []) in
      omega (
        arith,
        length-append block (expand suite left (i + 1) prk info block),
        suite.length-hmac prk (last ++ info ++ i ∷ []),
        length-expand left (i + 1) prk info block,
      )

  -- The 64 bytes that a derivation gives.
  pub hkdf_64 :
      (ikm salt info : List ℕ)
      → (okm : List ℕ) × (hkdf suite ikm 64 salt info ≡ ok okm) × (length okm ≡ 64)
  unfolding hkdf
  hkdf_64 ikm salt info =
      let prk = suite.hmac salt ikm in
      let size = suite.length-hmac salt ikm in
      let okm = take 64 (expand suite 2 1 prk info []) in
      (
        okm,
        rw (size) refl,
        omega (arith, length-take 64 (expand suite 2 1 prk info []), length-expand 2 1 prk info []),
      )

  ccp_decrypt_parts :
      (k n ad pad tag : List ℕ)
      → length tag ≡ 16
      → ccp_decrypt suite k n ad (pad ++ tag) ≡ final (suite.decipher k n ad pad tag)
  unfolding ccp_decrypt
  ccp_decrypt_parts k n ad [] tag size = rw size refl
  ccp_decrypt_parts k n ad (x ∷ pad) tag size =
      rw
        (
          ne→==_false (length (x ∷ pad ++ tag)) 16 (λ e. omega (arith, long, e)),
          lt→ltb 16 (length (x ∷ pad ++ tag)) (omega (arith, long)),
          cut,
          take-length_append (x ∷ pad) tag,
          drop-length_append (x ∷ pad) tag,
        )
        refl
    where
      long : length (x ∷ pad ++ tag) ≡ length (x ∷ pad) + 16
      long = omega (arith, length-append (x ∷ pad) tag, size)

      cut : length (x ∷ pad ++ tag) - 16 ≡ length (x ∷ pad)
      cut = omega (arith, long)

  -- What was encrypted is decrypted under the same key, nonce and associated data.
  pub ccp_decrypt-ccp_encrypt :
      (k n ad text : List ℕ)
      → ccp_decrypt suite k n ad (ccp_encrypt suite k n ad text) ≡ ok (some text)
  unfolding ccp_encrypt final
  ccp_decrypt-ccp_encrypt k n ad text =
      ccp_decrypt_parts k n ad (suite.encipher k n ad text) (suite.tag k n ad text)
        (suite.length-tag k n ad text)
      ∙ rw (suite.decipher-encipher k n ad text) refl

  pub length-ccp_encrypt :
      (k n ad text : List ℕ) → length (ccp_encrypt suite k n ad text) ≡ length text + 16
  unfolding ccp_encrypt
  length-ccp_encrypt k n ad text = omega (
    arith,
    length-append (suite.encipher k n ad text) (suite.tag k n ad text),
    suite.length-encipher k n ad text,
    suite.length-tag k n ad text,
  )
