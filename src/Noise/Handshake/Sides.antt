-- ===== src/Noise/Handshake/Sides.antt =====
-- What the two sides have after each act, and what every act computes.
use node_lightning.Common.{
  ℕ, ◌+◌, ◌≡◌, refl, arith, true, ◌==◌, List, [], ◌∷◌, ◌++◌, length, take, drop, Option, some, ok,
  length-append, length-take, length-drop, take-length_append, drop-length_append, subst,
}
use node_lightning.Crypto.{Suite}
use node_lightning.Crypto.Keys.{hkdf_64}
use node_lightning.Noise.State.{NoiseState, or_empty, zeros, two_keys, ecdh}

-- The first `n` bytes of a message behind its version, and the rest.
pub message_parts :
    (n : ℕ) (xs ys : List ℕ) → length xs ≡ n → (take n (xs ++ ys) ≡ xs) × (drop n (xs ++ ys) ≡ ys)
message_parts n xs ys e =
    subst (λ (k : ℕ). (take k (xs ++ ys) ≡ xs) × (drop k (xs ++ ys) ≡ ys)) e
      (take-length_append xs ys, drop-length_append xs ys)

pub message_size :
    (n : ℕ) (xs c : List ℕ)
    → length xs ≡ n
    → length c ≡ 16
    → (length (0 ∷ (xs ++ c)) == n + 17) ≡ true
message_size n xs c e k = ground (arith, e, k, length-append xs c)

module _ (suite : Suite) where
  -- Two keys of 32 bytes are derived from any material.
  pub two_keys_ok :
      (ikm : List ℕ) (ck : Option (List ℕ))
      → (a b : List ℕ) × (two_keys suite ikm ck ≡ ok (a, b)) × (length a ≡ 32) × (length b ≡ 32)
  unfolding two_keys
  two_keys_ok ikm ck =
      let (okm, e, size) = hkdf_64 suite ikm (or_empty ck) [] in
      (
        take 32 okm,
        drop 32 okm,
        rw e refl,
        omega (arith, length-take 32 okm, size),
        omega (arith, length-drop 32 okm, size),
      )

  pub ecdh_ok :
      (point secret ss : List ℕ)
      → suite.ecdh point secret ≡ some ss
      → ecdh suite (some point) secret ≡ ok ss
  ecdh_ok point secret ss e = rw (e, ecdh) refl

  -- The keys of a side are those of valid secrets.
  pub record HasKeys (ls lpk es epk : List ℕ) : Type 0 where
    pub static_secret : suite.is_secret ls ≡ true
    pub static_key : lpk ≡ suite.get_public_key ls
    pub ephemeral_secret : suite.is_secret es ≡ true
    pub ephemeral_key : epk ≡ suite.get_public_key es

  abbrev pub IsParty : NoiseState → Type 0
  IsParty s = HasKeys s.ls s.lpk s.es s.epk

  -- Both sides have the same hash and chaining key.
  pub record Agree (i r : NoiseState) : Type 0 where
    pub hash : List ℕ
    pub chain : List ℕ
    pub initiator_hash : i.h ≡ some hash
    pub receiver_hash : r.h ≡ some hash
    pub initiator_chain : i.ck ≡ some chain
    pub receiver_chain : r.ck ≡ some chain

  pub record AfterAct1 (i r : NoiseState) : Type 0 where
    pub initiator : IsParty i
    pub receiver : IsParty r
    pub agree : Agree i r
    pub ephemeral_received : r.repk ≡ some i.epk
    pub static_known : i.rpk ≡ some r.lpk

  pub record AfterAct2 (i r : NoiseState) : Type 0 where
    pub initiator : IsParty i
    pub receiver : IsParty r
    pub agree : Agree i r
    pub receiver_ephemeral : i.repk ≡ some r.epk
    pub static_known : i.rpk ≡ some r.lpk
    pub key : List ℕ
    pub initiator_key : i.temp_k2 ≡ some key
    pub receiver_key : r.temp_k2 ≡ some key

  -- Each side has the other's static key, they have the same chaining key, and each sends under the key
  -- that the other receives under, with all nonces zero.
  pub record Established (i r : NoiseState) : Type 0 where
    pub responder_known : i.rpk ≡ some r.lpk
    pub initiator_known : r.rpk ≡ some i.lpk
    pub same_chain : i.ck ≡ r.ck
    pub same_hash : i.h ≡ r.h
    pub forward : List ℕ
    pub backward : List ℕ
    pub initiator_sends : i.sk ≡ some forward
    pub receiver_receives : r.rk ≡ some forward
    pub receiver_sends : r.sk ≡ some backward
    pub initiator_receives : i.rk ≡ some backward
    pub forward_size : length forward ≡ 32
    pub backward_size : length backward ≡ 32
    pub initiator_nonces : (i.sn ≡ some (zeros 12)) × (i.rn ≡ some (zeros 12))
    pub receiver_nonces : (r.sn ≡ some (zeros 12)) × (r.rn ≡ some (zeros 12))
