-- ===== src/Noise/Handshake/Act2.antt =====
-- Of the handshake the second act: the responder sends its ephemeral key.
use node_lightning.Common.{ℕ, ◌≡◌, refl, ap, ◌∙◌, List, [], ◌∷◌, ◌++◌, length, some, ok}
use node_lightning.Crypto.{Suite, ccp_encrypt}
use node_lightning.Crypto.Keys.{ccp_decrypt-ccp_encrypt, length-ccp_encrypt}
use node_lightning.Noise.State.{NoiseState, zeros, absorb, initiator_act2, recieve_act2}
use node_lightning.Noise.Handshake.Sides.{
  message_parts, message_size, two_keys_ok, ecdh_ok, AfterAct1, AfterAct2,
}

module _ (suite : Suite) where
  pub act2 :
      (i r : NoiseState)
      → AfterAct1 suite i r
      → (m : List ℕ) × (r2 : NoiseState) × (i2 : NoiseState) × (recieve_act2 suite r ≡ ok (m, r2))
        × (initiator_act2 suite m i ≡ ok i2)
        × AfterAct2 suite i2 r2
  unfolding recieve_act2 initiator_act2 absorb
  act2 i r a =
      let agree = a.agree in
      let (ss, e_receiver, e_initiator) =
        suite.shared i.es r.es a.initiator.ephemeral_secret a.receiver.ephemeral_secret in
      let (ck, k2, derived, _, _) = two_keys_ok suite ss (some agree.chain) in
      let h = suite.sha256 (agree.hash ++ r.epk) in
      let c = ccp_encrypt suite k2 (zeros 12) h [] in
      let epk_size : length r.epk ≡ 33 =
        ap length a.receiver.ephemeral_key ∙ suite.length-get_public_key r.es in
      let (re, rest) = message_parts 33 r.epk c epk_size in
      let size = message_size 33 r.epk c epk_size (length-ccp_encrypt suite k2 (zeros 12) h []) in
      (
        0 ∷ (r.epk ++ c),
        record r { h = some (suite.sha256 (h ++ c)); ck = some ck; temp_k2 = some k2 },
        record i {
          repk = some r.epk;
          h = some (suite.sha256 (h ++ c));
          ck = some ck;
          temp_k2 = some k2;
        },
        rw
            (
              agree.receiver_hash,
              agree.receiver_chain,
              a.ephemeral_received,
              ecdh_ok suite i.epk r.es ss (rw a.initiator.ephemeral_key e_receiver),
              derived,
            )
            refl,
        rw
            (
              size,
              re,
              rest,
              agree.initiator_hash,
              agree.initiator_chain,
              ecdh_ok suite r.epk i.es ss (rw a.receiver.ephemeral_key e_initiator),
              derived,
              ccp_decrypt-ccp_encrypt suite k2 (zeros 12) h [],
            )
            refl,
        record {
          initiator = a.initiator;
          receiver = a.receiver;
          agree = record {
            hash = suite.sha256 (h ++ c);
            chain = ck;
            initiator_hash = refl;
            receiver_hash = refl;
            initiator_chain = refl;
            receiver_chain = refl;
          };
          receiver_ephemeral = refl;
          static_known = a.static_known;
          key = k2;
          initiator_key = refl;
          receiver_key = refl;
        },
      )
