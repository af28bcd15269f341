-- ===== src/Noise/Handshake/Act1.antt =====
-- Of the handshake the first act: the initiator proves that it knows the responder's static key.
use node_lightning.Common.{ℕ, ◌≡◌, refl, ap, ◌∙◌, List, [], ◌∷◌, ◌++◌, length, some, ok}
use node_lightning.Crypto.{Suite, ccp_encrypt}
use node_lightning.Crypto.Keys.{ccp_decrypt-ccp_encrypt, length-ccp_encrypt}
use node_lightning.Noise.State.{
  NoiseState, zeros, initialize, absorb, protocol_name, prologue, initiator_act1, receive_act1,
}
use node_lightning.Noise.Handshake.Sides.{
  message_parts, message_size, two_keys_ok, ecdh_ok, IsParty, AfterAct1,
}

module _ (suite : Suite) where
  pub act1 :
      (i r : NoiseState)
      → IsParty suite i
      → IsParty suite r
      → (m : List ℕ) × (i1 : NoiseState) × (r1 : NoiseState) × (initiator_act1 suite r.lpk i
          ≡ ok (m, i1))
        × (receive_act1 suite m r ≡ ok r1)
        × AfterAct1 suite i1 r1
  unfolding initiator_act1 receive_act1 initialize absorb
  act1 i r pi pr =
      let (ss, e_receiver, e_initiator) =
        suite.shared i.es r.ls pi.ephemeral_secret pr.static_secret in
      let (ck, k1, derived, _, _) = two_keys_ok suite ss (some (suite.sha256 protocol_name)) in
      let h =
        suite.sha256 (
          suite.sha256 (suite.sha256 (suite.sha256 protocol_name ++ prologue) ++ r.lpk) ++ i.epk) in
      let c = ccp_encrypt suite k1 (zeros 12) h [] in
      let epk_size : length i.epk ≡ 33 =
        ap length pi.ephemeral_key ∙ suite.length-get_public_key i.es in
      let (re, rest) = message_parts 33 i.epk c epk_size in
      let size = message_size 33 i.epk c epk_size (length-ccp_encrypt suite k1 (zeros 12) h []) in
      (
        0 ∷ (i.epk ++ c),
        record i {
          rpk = some r.lpk;
          h = some (suite.sha256 (h ++ c));
          ck = some ck;
          temp_k1 = some k1;
        },
        record r {
          repk = some i.epk;
          h = some (suite.sha256 (h ++ c));
          ck = some ck;
          temp_k1 = some k1;
        },
        rw (ecdh_ok suite r.lpk i.es ss (rw pr.static_key e_initiator), derived) refl,
        rw
            (
              size,
              re,
              rest,
              ecdh_ok suite i.epk r.ls ss (rw pi.ephemeral_key e_receiver),
              derived,
              ccp_decrypt-ccp_encrypt suite k1 (zeros 12) h [],
            )
            refl,
        record {
          initiator = pi;
          receiver = pr;
          agree = record {
            hash = suite.sha256 (h ++ c);
            chain = ck;
            initiator_hash = refl;
            receiver_hash = refl;
            initiator_chain = refl;
            receiver_chain = refl;
          };
          ephemeral_received = refl;
          static_known = refl;
        },
      )
