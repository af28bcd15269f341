-- ===== src/Noise/Handshake.antt =====
-- The three acts of the handshake, run by both sides with each other.
pub mod Sides
mod Act1
mod Act2
mod Act3
use node_lightning.Common.{
  ℕ, ◌+◌, ◌≡◌, refl, ap, ◌∙◌, arith, true, ◌==◌, List, [], ◌∷◌, ◌++◌, length, take, drop, Option,
  some, ok, length-append, length-take, length-drop, take-length_append, drop-length_append, subst,
}
use node_lightning.Crypto.{Suite, ccp_encrypt}
use node_lightning.Crypto.Keys.{hkdf_64, ccp_decrypt-ccp_encrypt, length-ccp_encrypt}
use node_lightning.Noise.State.{
  NoiseState, or_empty, zeros, nonce_1, new_state, initialize, absorb, two_keys, ecdh,
  protocol_name, prologue, initiator_act1, initiator_act2, initiator_act3, receive_act1,
  recieve_act2, receive_act3,
}
use node_lightning.Noise.Handshake.Sides.{
  message_parts, message_size, two_keys_ok, ecdh_ok, HasKeys, IsParty, Agree, AfterAct1, AfterAct2,
  Established,
}
use Act1.{act1}
use Act2.{act2}
use Act3.{act3}

module _ (suite : Suite) where
  new_state-IsParty :
      (ls es : List ℕ)
      → suite.is_secret ls ≡ true
      → suite.is_secret es ≡ true
      → IsParty suite (new_state suite ls es)
  unfolding new_state
  new_state-IsParty ls es hl he = record {
    static_secret = hl;
    static_key = refl;
    ephemeral_secret = he;
    ephemeral_key = refl;
  }

  -- Between an initiator and a responder of valid secrets, where the initiator is given the responder's
  -- static key, every act succeeds on the message of the act before, and the handshake ends with both
  -- sides established.
  pub handshake :
      (i_ls i_es r_ls r_es : List ℕ)
      → suite.is_secret i_ls ≡ true
      → suite.is_secret i_es ≡ true
      → suite.is_secret r_ls ≡ true
      → suite.is_secret r_es ≡ true
      → (m1 m2 m3 : List ℕ) × (i1 i2 i3 r1 r2 r3 : NoiseState) × (initiator_act1 suite
            (suite.get_public_key r_ls)
            (new_state suite i_ls i_es)
          ≡ ok (m1, i1))
        × (receive_act1 suite m1 (new_state suite r_ls r_es) ≡ ok r1)
        × (recieve_act2 suite r1 ≡ ok (m2, r2))
        × (initiator_act2 suite m2 i1 ≡ ok i2)
        × (initiator_act3 suite i2 ≡ ok (m3, i3))
        × (receive_act3 suite m3 r2 ≡ ok r3)
        × Established suite i3 r3
  unfolding new_state
  handshake i_ls i_es r_ls r_es a b c d =
      let (m1, i1, r1, sent1, received1, after1) =
        act1 suite (new_state suite i_ls i_es) (new_state suite r_ls r_es)
          (new_state-IsParty i_ls i_es a b) (new_state-IsParty r_ls r_es c d) in
      let (m2, r2, i2, sent2, received2, after2) = act2 suite i1 r1 after1 in
      let (m3, i3, r3, sent3, received3, done) = act3 suite i2 r2 after2 in
      (
        m1, m2, m3, i1, i2, i3, r1, r2, r3, sent1, received1, sent2, received2, sent3, received3,
        done,
      )
