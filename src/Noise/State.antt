-- ===== src/Noise/State.antt =====
-- packages/noise/lib/noise-state.ts. A field that is not assigned yet is `none`. What a method throws
-- ends the use of the state, so a thrown result carries none.
use node_lightning.Common.{
  ℕ, ◌+◌, Bool, false, ltb, leb, ◌==◌, not, if◌then◌else◌, List, [], ◌∷◌, ◌++◌, length, take, drop,
  replicate, Option, some, none, Result, ok, err, ◌>>=◌,
}
use node_lightning.Common.Bytes.{be_value, be_bytes, le_value, le_bytes}
use node_lightning.Crypto.{Suite, CryptoError, hkdf, ccp_encrypt, ccp_decrypt}

-- `type_error` is the use of an unassigned field, `key_error` what the curve's code throws on a key
-- that is not valid, and `range_error` what a write of a number too large for its bytes throws.
pub data NoiseError : Type 0 where
  act1_read_failed act1_bad_version act2_read_failed act2_bad_version act3_read_failed
        act3_bad_version type_error key_error range_error :
      NoiseError
  crypto_error : CryptoError → NoiseError

pub record NoiseState : Type 0 where
  pub ls : List ℕ
  pub lpk : List ℕ
  pub es : List ℕ
  pub epk : List ℕ
  pub rpk : Option (List ℕ)
  pub repk : Option (List ℕ)
  pub h : Option (List ℕ)
  pub ck : Option (List ℕ)
  pub rk : Option (List ℕ)
  pub sk : Option (List ℕ)
  pub sn : Option (List ℕ)
  pub rn : Option (List ℕ)
  pub temp_k1 : Option (List ℕ)
  pub temp_k2 : Option (List ℕ)
  pub temp_k3 : Option (List ℕ)

-- The use of a field.
abbrev pub need {ℓ} : {A : Type ℓ} → Option A → Result NoiseError A
need none = err type_error
need (some a) = ok a

-- A parameter with the default `Buffer.alloc(0)`.
abbrev pub or_empty : Option (List ℕ) → List ℕ
or_empty none = []
or_empty (some xs) = xs

abbrev pub lift {ℓ} : {A : Type ℓ} → Result CryptoError A → Result NoiseError A
lift (ok a) = ok a
lift (err e) = err (crypto_error e)

abbrev pub zeros : ℕ → List ℕ
zeros n = replicate n 0

-- `Buffer.from([0, 0, 0, 0, 1, 0, 0, 0, 0, 0, 0, 0])`
abbrev pub nonce_1 : List ℕ
nonce_1 = 0 ∷ 0 ∷ 0 ∷ 0 ∷ 1 ∷ 0 ∷ 0 ∷ 0 ∷ 0 ∷ 0 ∷ 0 ∷ 0 ∷ []

-- `Buffer.from("Noise_XK_secp256k1_ChaChaPoly_SHA256")` and `Buffer.from("lightning")`
abbrev pub protocol_name : List ℕ
protocol_name =
    0x4e ∷ 0x6f ∷ 0x69 ∷ 0x73 ∷ 0x65 ∷ 0x5f ∷ 0x58 ∷ 0x4b ∷ 0x5f ∷ 0x73 ∷ 0x65 ∷ 0x63 ∷ 0x70 ∷ 0x32
    ∷ 0x35 ∷ 0x36 ∷ 0x6b ∷ 0x31 ∷ 0x5f ∷ 0x43 ∷ 0x68 ∷ 0x61 ∷ 0x43 ∷ 0x68 ∷ 0x61 ∷ 0x50 ∷ 0x6f
    ∷ 0x6c ∷ 0x79 ∷ 0x5f ∷ 0x53 ∷ 0x48 ∷ 0x41 ∷ 0x32 ∷ 0x35 ∷ 0x36 ∷ []

abbrev pub prologue : List ℕ
prologue = 0x6c ∷ 0x69 ∷ 0x67 ∷ 0x68 ∷ 0x74 ∷ 0x6e ∷ 0x69 ∷ 0x6e ∷ 0x67 ∷ []

-- `m.slice(0, 1)[0] === 0`
abbrev pub version_0 : List ℕ → Bool
version_0 [] = false
version_0 (v ∷ m) = v == 0

-- `readUInt16LE(4) + 1`, written back: the new value and the nonce with it.
unfoldable pub increment : List ℕ → Result NoiseError (ℕ × List ℕ)
increment nonce =
    let value : ℕ = le_value (take 2 (drop 4 nonce)) + 1 in
    if ltb 0xffff value
    then err range_error
    else ok (value, take 4 nonce ++ le_bytes 2 value ++ drop 6 nonce)

-- `l.readUInt16BE(0)`
abbrev pub read_length : Option (List ℕ) → Result NoiseError ℕ
read_length none = err type_error
read_length (some []) = err range_error
read_length (some (x ∷ [])) = err range_error
read_length (some (x ∷ y ∷ rest)) = ok (be_value (x ∷ y ∷ []))

module _ (suite : Suite) where
  -- The constructor, on valid secrets.
  unfoldable pub new_state : List ℕ → List ℕ → NoiseState
  new_state ls es = record {
    ls = ls;
    lpk = suite.get_public_key ls;
    es = es;
    epk = suite.get_public_key es;
    rpk = none;
    repk = none;
    h = none;
    ck = none;
    rk = none;
    sk = none;
    sn = none;
    rn = none;
    temp_k1 = none;
    temp_k2 = none;
    temp_k3 = none;
  }

  -- `_initialize`
  unfoldable pub initialize : List ℕ → NoiseState → NoiseState
  initialize pubkey s =
      let name = suite.sha256 protocol_name in
      record s {
        ck = some name;
        h = some (suite.sha256 (suite.sha256 (name ++ prologue) ++ pubkey));
      }

  -- `h = sha256(h || bytes)`
  unfoldable pub absorb : List ℕ → NoiseState → Result NoiseError NoiseState
  absorb bytes s = need s.h >>= λ h. ok (record s { h = some (suite.sha256 (h ++ bytes)) })

  -- `hkdf(ikm, 64, ck)`: its first 32 bytes, and the rest.
  unfoldable pub two_keys : List ℕ → Option (List ℕ) → Result NoiseError (List ℕ × List ℕ)
  two_keys ikm ck =
      lift (hkdf suite ikm 64 (or_empty ck) []) >>= λ okm. ok (take 32 okm, drop 32 okm)

  abbrev pub ecdh : Option (List ℕ) → List ℕ → Result NoiseError (List ℕ)
  ecdh none secret = err type_error
  ecdh (some point) secret = elim (suite.ecdh point secret) [
    | none ↦ err key_error
    | some ss ↦ ok ss
  ]

  unfoldable pub initiator_act1 : List ℕ → NoiseState → Result NoiseError (List ℕ × NoiseState)
  unfolding initialize absorb two_keys
  initiator_act1 rpk s = absorb s.epk (initialize rpk (record s { rpk = some rpk })) >>= λ s1.
      ecdh (some rpk) s1.es >>= λ ss. two_keys ss s1.ck >>= λ keys. need s1.h >>= λ h.
      let c = ccp_encrypt suite keys.1 (zeros 12) h [] in
      absorb c (record s1 { ck = some keys.0; temp_k1 = some keys.1 }) >>= λ s2.
      ok (zeros 1 ++ s2.epk ++ c, s2)

  unfoldable pub initiator_act2 : List ℕ → NoiseState → Result NoiseError NoiseState
  unfolding absorb two_keys
  initiator_act2 m s =
      if not (length m == 50)
      then err act2_read_failed
      else (if not (version_0 m)
          then err act2_bad_version
          else (let re = take 33 (drop 1 m) in
              let c = drop 34 m in
              absorb re (record s { repk = some re }) >>= λ s1. ecdh (some re) s1.es >>= λ ss.
              two_keys ss s1.ck >>= λ keys. need s1.h >>= λ h.
              lift (ccp_decrypt suite keys.1 (zeros 12) h c) >>= λ p.
              absorb c (record s1 { ck = some keys.0; temp_k2 = some keys.1 })))

  unfoldable pub initiator_act3 : NoiseState → Result NoiseError (List ℕ × NoiseState)
  unfolding absorb two_keys
  initiator_act3 s = need s.temp_k2 >>= λ temp_k2. need s.h >>= λ h.
      let c = ccp_encrypt suite temp_k2 nonce_1 h s.lpk in
      absorb c s >>= λ s1. ecdh s1.repk s1.ls >>= λ ss. two_keys ss s1.ck >>= λ keys.
      need s1.h >>= λ h1.
      let t = ccp_encrypt suite keys.1 (zeros 12) h1 [] in
      two_keys [] (some keys.0) >>= λ final. ok (
        zeros 1 ++ c ++ t,
        record s1 {
          ck = some keys.0;
          temp_k3 = some keys.1;
          rk = some final.1;
          sk = some final.0;
          sn = some (zeros 12);
          rn = some (zeros 12);
        },
      )

  unfoldable pub receive_act1 : List ℕ → NoiseState → Result NoiseError NoiseState
  unfolding initialize absorb two_keys
  receive_act1 m s =
      if not (length m == 50)
      then err act1_read_failed
      else (if not (version_0 m)
          then err act1_bad_version
          else (let re = take 33 (drop 1 m) in
              let c = drop 34 m in
              absorb re (record (initialize s.lpk s) { repk = some re }) >>= λ s1.
              ecdh (some re) s1.ls >>= λ ss. two_keys ss s1.ck >>= λ keys. need s1.h >>= λ h.
              lift (ccp_decrypt suite keys.1 (zeros 12) h c) >>= λ p.
              absorb c (record s1 { ck = some keys.0; temp_k1 = some keys.1 })))

  unfoldable pub recieve_act2 : NoiseState → Result NoiseError (List ℕ × NoiseState)
  unfolding absorb two_keys
  recieve_act2 s = absorb s.epk s >>= λ s1. ecdh s1.repk s1.es >>= λ ss.
      two_keys ss s1.ck >>= λ keys. need s1.h >>= λ h.
      let c = ccp_encrypt suite keys.1 (zeros 12) h [] in
      absorb c (record s1 { ck = some keys.0; temp_k2 = some keys.1 }) >>= λ s2.
      ok (zeros 1 ++ s2.epk ++ c, s2)

  unfoldable pub receive_act3 : List ℕ → NoiseState → Result NoiseError NoiseState
  unfolding absorb two_keys
  receive_act3 m s =
      if not (length m == 66)
      then err act3_read_failed
      else (if not (version_0 m)
          then err act3_bad_version
          else (let c = take 49 (drop 1 m) in
              let t = drop 50 m in
              need s.temp_k2 >>= λ temp_k2. need s.h >>= λ h.
              lift (ccp_decrypt suite temp_k2 nonce_1 h c) >>= λ rs.
              absorb c (record s { rpk = rs }) >>= λ s1. ecdh s1.rpk s1.es >>= λ ss.
              two_keys ss s1.ck >>= λ keys. need s1.h >>= λ h1.
              lift (ccp_decrypt suite keys.1 (zeros 12) h1 t) >>= λ p.
              two_keys [] (some keys.0) >>= λ final. ok (record s1 {
                ck = some keys.0;
                temp_k3 = some keys.1;
                rk = some final.0;
                sk = some final.1;
                rn = some (zeros 12);
                sn = some (zeros 12);
              })))

  unfoldable pub rotate_sending_keys : NoiseState → Result NoiseError NoiseState
  unfolding two_keys
  rotate_sending_keys s = need s.sk >>= λ sk. two_keys sk s.ck >>= λ keys.
      ok (record s { sk = some keys.1; ck = some keys.0; sn = some (zeros 12) })

  unfoldable pub rotate_recieving_keys : NoiseState → Result NoiseError NoiseState
  unfolding two_keys
  rotate_recieving_keys s = need s.rk >>= λ rk. two_keys rk s.ck >>= λ keys.
      ok (record s { rk = some keys.1; ck = some keys.0; rn = some (zeros 12) })

  -- `if (this._incrementSendingNonce() >= 1000) this._rotateSendingKeys()`
  unfoldable pub after_sending : NoiseState → Result NoiseError NoiseState
  unfolding increment rotate_sending_keys
  after_sending s = need s.sn >>= λ sn. increment sn >>= λ next.
      let s1 = record s { sn = some next.1 } in
      if leb 1000 next.0 then rotate_sending_keys s1 else ok s1

  unfoldable pub after_recieving : NoiseState → Result NoiseError NoiseState
  unfolding increment rotate_recieving_keys
  after_recieving s = need s.rn >>= λ rn. increment rn >>= λ next.
      let s1 = record s { rn = some next.1 } in
      if leb 1000 next.0 then rotate_recieving_keys s1 else ok s1

  -- One encryption under the sending key, and one decryption under the receiving key, with what
  -- happens to the nonce and the key.
  unfoldable pub send_part : List ℕ → NoiseState → Result NoiseError (List ℕ × NoiseState)
  unfolding after_sending
  send_part text s = need s.sk >>= λ sk. need s.sn >>= λ sn.
      let c = ccp_encrypt suite sk sn [] text in after_sending s >>= λ s1. ok (c, s1)

  unfoldable pub recieve_part :
      List ℕ → NoiseState → Result NoiseError (Option (List ℕ) × NoiseState)
  unfolding after_recieving
  recieve_part c s = need s.rk >>= λ rk. need s.rn >>= λ rn.
      lift (ccp_decrypt suite rk rn [] c) >>= λ text. after_recieving s >>= λ s1. ok (text, s1)

  unfoldable pub encrypt_message : List ℕ → NoiseState → Result NoiseError (List ℕ × NoiseState)
  unfolding send_part
  encrypt_message m s =
      if ltb 0xffff (length m)
      then err range_error
      else (send_part (be_bytes 2 (length m)) s >>= λ lc.
          send_part m lc.1 >>= λ c. ok (lc.0 ++ c.0, c.1))

  unfoldable pub decrypt_length : List ℕ → NoiseState → Result NoiseError (ℕ × NoiseState)
  unfolding recieve_part
  decrypt_length lc s = recieve_part lc s >>= λ l. read_length l.0 >>= λ len. ok (len, l.1)

  unfoldable pub decrypt_message :
      List ℕ → NoiseState → Result NoiseError (Option (List ℕ) × NoiseState)
  unfolding recieve_part
  decrypt_message c s = recieve_part c s
