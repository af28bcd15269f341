-- ===== src/Crypto.antt =====
-- packages/crypto/lib: hkdf.ts, chachapoly.ts, and the calls of secp256k1.ts that the handshake makes.
-- What Node's crypto module and the secp256k1 package compute is a parameter: the fields of `Suite`
-- that are functions. Its laws are what their documentation promises.
pub mod Keys
use node_lightning.Common.{
  Bool, true, ℕ, zero, suc, ◌+◌, ◌-◌, ◌*◌, ◌/◌, ◌≡◌, ltb, leb, ◌==◌, if◌then◌else◌, List, [], ◌∷◌,
  ◌++◌, length, take, drop, Option, some, none, Result, ok, err,
}

pub data CryptoError : Type 0 where
  output_too_long authentication_failed : CryptoError

pub record Suite : Type 0 where
  -- SHA-256, and HMAC with SHA-256 of a key and an input.
  pub sha256 : List ℕ → List ℕ
  pub hmac : List ℕ → List ℕ → List ℕ
  pub length-hmac : (key input : List ℕ) → length (hmac key input) ≡ 32
  -- ChaCha20-Poly1305 of a key, a nonce, associated data and a text: the text encrypted, and its tag.
  pub encipher : List ℕ → List ℕ → List ℕ → List ℕ → List ℕ
  pub tag : List ℕ → List ℕ → List ℕ → List ℕ → List ℕ
  -- The text of an encrypted text and its tag, if the tag is authentic.
  pub decipher : List ℕ → List ℕ → List ℕ → List ℕ → List ℕ → Option (List ℕ)
  pub length-encipher : (k n ad text : List ℕ) → length (encipher k n ad text) ≡ length text
  pub length-tag : (k n ad text : List ℕ) → length (tag k n ad text) ≡ 16
  pub decipher-encipher :
      (k n ad text : List ℕ) → decipher k n ad (encipher k n ad text) (tag k n ad text) ≡ some text
  -- The valid secrets of the curve, the compressed public key of one, and the shared secret of a public
  -- key and a secret, which an invalid key does not have.
  pub is_secret : List ℕ → Bool
  pub get_public_key : List ℕ → List ℕ
  pub ecdh : List ℕ → List ℕ → Option (List ℕ)
  pub length-get_public_key : (secret : List ℕ) → length (get_public_key secret) ≡ 33
  pub shared :
      (a b : List ℕ)
      → is_secret a ≡ true
      → is_secret b ≡ true
      → (ss : List ℕ) × (ecdh (get_public_key a) b ≡ some ss)
        × (ecdh (get_public_key b) a ≡ some ss)

-- `decipher.final()`, which throws where the tag is not authentic.
unfoldable pub final : Option (List ℕ) → Result CryptoError (Option (List ℕ))
final (some text) = ok (some text)
final none = err authentication_failed

module _ (suite : Suite) where
  -- The rounds of the expansion, from the counter `i` and the last block on.
  unfoldable pub expand : ℕ → ℕ → List ℕ → List ℕ → List ℕ → List ℕ
  expand zero i prk info last = []
  expand (suc left) i prk info last =
      let block = suite.hmac prk (last ++ info ++ i ∷ []) in
      block ++ expand left (i + 1) prk info block

  -- `hkdf(ikm, len, salt, info)` with SHA-256. A digest is not empty, so that the rounds are a number.
  unfoldable pub hkdf : List ℕ → ℕ → List ℕ → List ℕ → Result CryptoError (List ℕ)
  unfolding expand
  hkdf ikm len salt info =
      let prk = suite.hmac salt ikm in
      let rounds : ℕ = (len + (length prk - 1)) / length prk in
      if ltb 255 rounds then err output_too_long else ok (take len (expand rounds 1 prk info []))

  -- `ccpEncrypt`
  unfoldable pub ccp_encrypt : List ℕ → List ℕ → List ℕ → List ℕ → List ℕ
  ccp_encrypt k n ad text = suite.encipher k n ad text ++ suite.tag k n ad text

  -- `ccpDecrypt`: `none` is the `undefined` that a text shorter than a tag gives.
  unfoldable pub ccp_decrypt :
      List ℕ → List ℕ → List ℕ → List ℕ → Result CryptoError (Option (List ℕ))
  unfolding final
  ccp_decrypt k n ad text =
      if length text == 16
      then final (suite.decipher k n ad [] text)
      else (if ltb 16 (length text)
          then final
              (suite.decipher k n ad (take (length text - 16) text) (drop (length text - 16) text))
          else ok none)
