-- ===== src/Examples/Noise.antt =====
-- Runs of packages/noise/lib, with functions in the place of the cryptography.
use node_lightning.Common.{
  ℕ, ◌+◌, ◌≡◌, refl, arith, true, List, [], ◌∷◌, ◌++◌, length, replicate, length-replicate, ap,
  some, none, ok,
}
use native.Mathlib.Nat.{add_comm}
use node_lightning.Crypto.{Suite}
use node_lightning.Noise.State.{
  NoiseState, new_state, initiator_act1, initiator_act2, initiator_act3, receive_act1, recieve_act2,
  receive_act3, encrypt_message, decrypt_length, decrypt_message,
}
use node_lightning.Noise.Handshake.{handshake}
use node_lightning.Noise.Handshake.Sides.{Established}
use node_lightning.Noise.Transport.{nonce, Link, decrypt_message-encrypt_message}
use node_lightning.Noise.Socket.{NoiseSocket, ready, ready_for_len, on_data}
use node_lightning.Noise.Socket.Rounds.{always}
use node_lightning.Noise.Socket.Stream.{write_all, Received, on_data-write_all}

head : List ℕ → ℕ
head [] = 0
head (x ∷ xs) = x

-- A suite that hides nothing: a digest is the length of the input, a text is its own encryption.
toy : Suite
unfolding head
toy = record {
  sha256 = λ xs. replicate 32 (length xs);
  hmac = λ key input. replicate 32 (length input);
  length-hmac = λ key input. length-replicate 32 (length input);
  encipher = λ k n ad text. text;
  tag = λ k n ad text. replicate 16 (length text);
  decipher = λ k n ad text tag. some text;
  length-encipher = λ k n ad text. refl;
  length-tag = λ k n ad text. length-replicate 16 (length text);
  decipher-encipher = λ k n ad text. refl;
  is_secret = λ secret. true;
  get_public_key = λ secret. replicate 33 (head secret);
  ecdh = λ point secret. some (replicate 32 (head point + head secret));
  length-get_public_key = λ secret. length-replicate 33 (head secret);
  shared = λ a b ha hb. (
    replicate 32 (head a + head b),
    refl,
    ap (λ (n : ℕ). some (replicate 32 n)) (add_comm (head b) (head a)),
  );
}

handshake_example :
    (m1 m2 m3 : List ℕ) × (i1 i2 i3 r1 r2 r3 : NoiseState) × (initiator_act1 toy
        (toy.get_public_key (3 ∷ []))
        (new_state toy (1 ∷ []) (2 ∷ []))
      ≡ ok (m1, i1))
    × (receive_act1 toy m1 (new_state toy (3 ∷ []) (4 ∷ [])) ≡ ok r1)
    × (recieve_act2 toy r1 ≡ ok (m2, r2))
    × (initiator_act2 toy m2 i1 ≡ ok i2)
    × (initiator_act3 toy i2 ≡ ok (m3, i3))
    × (receive_act3 toy m3 r2 ≡ ok r3)
    × Established toy i3 r3
unfolding toy
handshake_example = handshake toy (1 ∷ []) (2 ∷ []) (3 ∷ []) (4 ∷ []) refl refl refl refl

-- A side that receives under the key it sends under, two counts before a rotation.
abbrev echo_state : NoiseState
echo_state = record {
  ls = [];
  lpk = [];
  es = [];
  epk = [];
  rpk = none;
  repk = none;
  h = none;
  ck = some (1 ∷ []);
  rk = some (5 ∷ []);
  sk = some (5 ∷ []);
  sn = some (nonce 998);
  rn = some (nonce 998);
  temp_k1 = none;
  temp_k2 = none;
  temp_k3 = none;
}

echo-Link : Link toy echo_state echo_state
echo-Link = record {
  key = 5 ∷ [];
  count = 998;
  sending_key = refl;
  receiving_key = refl;
  sending_nonce = refl;
  receiving_nonce = refl;
  below = omega arith;
  same_chain = refl;
}

decrypt_message-encrypt_message_example :
    (lc c : List ℕ) × (s' r1 r' : NoiseState) × (encrypt_message toy (7 ∷ 8 ∷ []) echo_state
      ≡ ok (lc ++ c, s'))
    × (length lc ≡ 18)
    × (length c ≡ 2 + 16)
    × (decrypt_length toy lc echo_state ≡ ok (2, r1))
    × (decrypt_message toy c r1 ≡ ok (some (7 ∷ 8 ∷ []), r'))
    × Link toy s' r'
decrypt_message-encrypt_message_example =
    decrypt_message-encrypt_message toy (7 ∷ 8 ∷ []) echo_state echo_state (omega arith) echo-Link

abbrev echo_socket : NoiseSocket
echo_socket = record {
  incoming = [];
  written = [];
  pushed = [];
  connected = true;
  destroyed = none;
  initiator = true;
  rpk = none;
  handshake_state = ready;
  read_state = ready_for_len;
  noise_state = echo_state;
  messages_received = 0;
  l = none;
}

abbrev messages : List (List ℕ)
messages = (7 ∷ 8 ∷ []) ∷ [] ∷ (9 ∷ []) ∷ []

on_data-write_all_example :
    (bytes : List ℕ) × (a' k' : NoiseSocket) × (write_all toy messages echo_socket ≡ ok a')
    × (a'.written ≡ [] ++ bytes)
    × (on_data toy always (record echo_socket { incoming = bytes ++ 0 ∷ [] }) ≡ k')
    × Received toy messages (0 ∷ []) echo_socket k'
    × Link toy a'.noise_state k'.noise_state
on_data-write_all_example =
    on_data-write_all toy messages (0 ∷ []) echo_socket echo_socket
      (omega arith, (omega arith, (omega arith, tt))) (omega arith) echo-Link (refl, refl)
