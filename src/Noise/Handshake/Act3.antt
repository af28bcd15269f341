-- ===== src/Noise/Handshake/Act3.antt =====
-- Of the handshake the last act: the initiator sends its static key.
use node_lightning.Common.{ℕ, ◌≡◌, refl, ap, arith, List, [], ◌∷◌, ◌++◌, length, some, ok}
use node_lightning.Crypto.{Suite, ccp_encrypt}
use node_lightning.Crypto.Keys.{ccp_decrypt-ccp_encrypt, length-ccp_encrypt}
use node_lightning.Noise.State.{NoiseState, zeros, nonce_1, absorb, initiator_act3, receive_act3}
use node_lightning.Noise.Handshake.Sides.{
  message_parts, message_size, two_keys_ok, ecdh_ok, AfterAct2, Established,
}

module _ (suite : Suite) where
  pub act3 :
      (i r : NoiseState)
      → AfterAct2 suite i r
      → (m : List ℕ) × (i3 : NoiseState) × (r3 : NoiseState) × (initiator_act3 suite i ≡ ok (m, i3))
        × (receive_act3 suite m r ≡ ok r3)
        × Established suite i3 r3
  unfolding initiator_act3 receive_act3 absorb
  act3 i r a =
      let agree = a.agree in
      let (ss, e_receiver, e_initiator) =
        suite.shared i.ls r.es a.initiator.static_secret a.receiver.ephemeral_secret in
      let (ck, k3, derived, _, _) = two_keys_ok suite ss (some agree.chain) in
      let (forward, backward, last, f_size, b_size) = two_keys_ok suite [] (some ck) in
      let c = ccp_encrypt suite a.key nonce_1 agree.hash i.lpk in
      let h = suite.sha256 (agree.hash ++ c) in
      let t = ccp_encrypt suite k3 (zeros 12) h [] in
      let c_size : length c ≡ 49 = omega (
        arith,
        length-ccp_encrypt suite a.key nonce_1 agree.hash i.lpk,
        ap length a.initiator.static_key,
        suite.length-get_public_key i.ls,
      ) in
      let (front, rest) = message_parts 49 c t c_size in
      let size = message_size 49 c t c_size (length-ccp_encrypt suite k3 (zeros 12) h []) in
      (
        0 ∷ (c ++ t),
        record i {
          h = some h;
          ck = some ck;
          temp_k3 = some k3;
          rk = some backward;
          sk = some forward;
          sn = some (zeros 12);
          rn = some (zeros 12);
        },
        record r {
          rpk = some i.lpk;
          h = some h;
          ck = some ck;
          temp_k3 = some k3;
          rk = some forward;
          sk = some backward;
          rn = some (zeros 12);
          sn = some (zeros 12);
        },
        rw
            (
              a.initiator_key,
              agree.initiator_hash,
              agree.initiator_chain,
              a.receiver_ephemeral,
              ecdh_ok suite r.epk i.ls ss (rw a.receiver.ephemeral_key e_initiator),
              derived,
              last,
            )
            refl,
        rw
            (
              size,
              front,
              rest,
              a.receiver_key,
              agree.receiver_hash,
              agree.receiver_chain,
              ccp_decrypt-ccp_encrypt suite a.key nonce_1 agree.hash i.lpk,
              ecdh_ok suite i.lpk r.es ss (rw a.initiator.static_key e_receiver),
              derived,
              ccp_decrypt-ccp_encrypt suite k3 (zeros 12) h [],
              last,
            )
            refl,
        record {
          responder_known = a.static_known;
          initiator_known = refl;
          same_chain = refl;
          same_hash = refl;
          forward = forward;
          backward = backward;
          initiator_sends = refl;
          receiver_receives = refl;
          receiver_sends = refl;
          initiator_receives = refl;
          forward_size = f_size;
          backward_size = b_size;
          initiator_nonces = (refl, refl);
          receiver_nonces = (refl, refl);
        },
      )
