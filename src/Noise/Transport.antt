-- ===== src/Noise/Transport.antt =====
-- One direction of the transport: what one side sends, the other receives, across key rotations.
use node_lightning.Common.{
  ℕ, ◌+◌, ◌<◌, ◌≤◌, ◌≡◌, inl, inr, refl, sym, ap, ◌∙◌, arith, leb, leb→lt, le→ltb, Bool-cases, List,
  [], ◌++◌, length, take, drop, some, ok,
}
use node_lightning.Common.Bytes.{
  be_bytes, le_value, le_bytes, be_value-be_bytes, le_value-le_bytes, length-be_bytes,
}
use node_lightning.Crypto.{Suite, ccp_encrypt}
use node_lightning.Crypto.Keys.{ccp_decrypt-ccp_encrypt, length-ccp_encrypt}
use node_lightning.Noise.State.{
  NoiseState, zeros, increment, rotate_sending_keys, rotate_recieving_keys, after_sending,
  after_recieving, send_part, recieve_part, encrypt_message, decrypt_length, decrypt_message,
  read_length,
}
use node_lightning.Noise.Handshake.Sides.{two_keys_ok, Established}

-- The nonce that counts `n`.
pub nonce : ℕ → List ℕ
nonce n = zeros 4 ++ le_bytes 2 n ++ zeros 6

nonce_0 : nonce 0 ≡ zeros 12
unfolding nonce le_bytes
nonce_0 = refl

nonce_value : (n : ℕ) → n < 1000 → le_value (take 2 (drop 4 (nonce n))) ≡ n
unfolding nonce le_bytes
nonce_value n h = le_value-le_bytes 2 n (omega (arith, h))

increment-nonce : (n : ℕ) → n < 1000 → increment (nonce n) ≡ ok (n + 1, nonce (n + 1))
unfolding increment nonce le_bytes
increment-nonce n h = rw (nonce_value n h, le→ltb 0xffff (n + 1) (omega (arith, h))) refl

read_length_bytes : (n : ℕ) → n ≤ 0xffff → read_length (some (be_bytes 2 n)) ≡ ok n
unfolding be_bytes
read_length_bytes n h = ap (λ (v : ℕ). ok v) (be_value-be_bytes 2 n (omega (arith, h)))

module _ (suite : Suite) where
  -- What one side sends in, the other one receives in: the same key, the same count, which is below
  -- 1000, and the same chaining key.
  pub record Link (sender receiver : NoiseState) : Type 0 where
    pub key : List ℕ
    pub count : ℕ
    pub sending_key : sender.sk ≡ some key
    pub receiving_key : receiver.rk ≡ some key
    pub sending_nonce : sender.sn ≡ some (nonce count)
    pub receiving_nonce : receiver.rn ≡ some (nonce count)
    pub below : count < 1000
    pub same_chain : sender.ck ≡ receiver.ck

  -- The key of the two sides is rotated at the same time, when the count reaches 1000.
  after_part :
      (s r : NoiseState)
      → Link s r
      → (s' r' : NoiseState) × (after_sending suite s ≡ ok s')
        × (after_recieving suite r ≡ ok r')
        × Link s' r'
  unfolding after_sending after_recieving rotate_sending_keys rotate_recieving_keys
  after_part s r l =
      let next = increment-nonce l.count l.below in
      elim (Bool-cases (leb 1000 (l.count + 1))) [
        | inl full ↦
            let (ck, k, derived, _, _) = two_keys_ok suite l.key r.ck in
            (
              record s { sk = some k; ck = some ck; sn = some (zeros 12) },
              record r { rk = some k; ck = some ck; rn = some (zeros 12) },
              rw (l.sending_nonce, next, full, l.sending_key, l.same_chain, derived) refl,
              rw (l.receiving_nonce, next, full, l.receiving_key, derived) refl,
              record {
                key = k;
                count = 0;
                sending_key = refl;
                receiving_key = refl;
                sending_nonce = ap some (sym nonce_0);
                receiving_nonce = ap some (sym nonce_0);
                below = omega arith;
                same_chain = refl;
              },
            )
        | inr more ↦ (
          record s { sn = some (nonce (l.count + 1)) },
          record r { rn = some (nonce (l.count + 1)) },
          rw (l.sending_nonce, next, more) refl,
          rw (l.receiving_nonce, next, more) refl,
          record {
            key = l.key;
            count = l.count + 1;
            sending_key = l.sending_key;
            receiving_key = l.receiving_key;
            sending_nonce = refl;
            receiving_nonce = refl;
            below = leb→lt 1000 (l.count + 1) more;
            same_chain = l.same_chain;
          },
        )
      ]

  part :
      (text : List ℕ) (s r : NoiseState)
      → Link s r
      → (c : List ℕ) × (s' r' : NoiseState) × (send_part suite text s ≡ ok (c, s'))
        × (recieve_part suite c r ≡ ok (some text, r'))
        × (length c ≡ length text + 16)
        × Link s' r'
  unfolding send_part recieve_part
  part text s r l =
      let (s', r', after_s, after_r, l') = after_part s r l in
      (
        ccp_encrypt suite l.key (nonce l.count) [] text,
        s',
        r',
        rw (after_s, l.sending_key, l.sending_nonce) refl,
        rw
            (
              after_r,
              l.receiving_key,
              l.receiving_nonce,
              ccp_decrypt-ccp_encrypt suite l.key (nonce l.count) [] text,
            )
            refl,
        length-ccp_encrypt suite l.key (nonce l.count) [] text,
        l',
      )

  -- On a link, a message of up to 65535 bytes is sent as an encrypted length of 18 bytes and an
  -- encrypted text of 16 bytes more than the message; from them the other side decrypts the length and
  -- the message, and the two sides are linked again.
  pub decrypt_message-encrypt_message :
      (m : List ℕ) (s r : NoiseState)
      → length m ≤ 0xffff
      → Link s r
      → (lc c : List ℕ) × (s' r1 r' : NoiseState) × (encrypt_message suite m s ≡ ok (lc ++ c, s'))
        × (length lc ≡ 18)
        × (length c ≡ length m + 16)
        × (decrypt_length suite lc r ≡ ok (length m, r1))
        × (decrypt_message suite c r1 ≡ ok (some m, r'))
        × Link s' r'
  unfolding encrypt_message decrypt_length decrypt_message
  decrypt_message-encrypt_message m s r h l =
      let (lc, s1, r1, sent1, received1, size1, l1) = part (be_bytes 2 (length m)) s r l in
      let (c, s2, r2, sent2, received2, size2, l2) = part m s1 r1 l1 in
      (
        lc,
        c,
        s2,
        r1,
        r2,
        rw (le→ltb 0xffff (length m) h, sent1, sent2) refl,
        omega (arith, size1, length-be_bytes 2 (length m)),
        size2,
        rw (received1, read_length_bytes (length m) h) refl,
        received2,
        l2,
      )

  -- A handshake that is done links the two sides in both directions.
  pub Established-Link : (i r : NoiseState) → Established suite i r → Link i r × Link r i
  Established-Link i r e = (
    record {
      key = e.forward;
      count = 0;
      sending_key = e.initiator_sends;
      receiving_key = e.receiver_receives;
      sending_nonce = e.initiator_nonces.0 ∙ ap some (sym nonce_0);
      receiving_nonce = e.receiver_nonces.1 ∙ ap some (sym nonce_0);
      below = omega arith;
      same_chain = e.same_chain;
    },
    record {
      key = e.backward;
      count = 0;
      sending_key = e.receiver_sends;
      receiving_key = e.initiator_receives;
      sending_nonce = e.receiver_nonces.0 ∙ ap some (sym nonce_0);
      receiving_nonce = e.initiator_nonces.1 ∙ ap some (sym nonce_0);
      below = omega arith;
      same_chain = sym e.same_chain;
    },
  )
