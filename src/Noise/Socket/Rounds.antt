-- ===== src/Noise/Socket/Rounds.antt =====
-- The rounds of the loop of `_onData` on a packet, and on less than one.
use node_lightning.Common.{
  ℕ, suc, ◌+◌, ◌<◌, ◌≡◌, refl, ap, ap₂, ◌∙◌, arith, Bool, true, false, le→ltb, lt→ltb, List, [],
  ◌∷◌, ◌++◌, length, length-append, take-length_append, drop-length_append, some, none, ok,
}
use node_lightning.Crypto.{Suite}
use node_lightning.Noise.State.{NoiseState, decrypt_length, decrypt_message}
use node_lightning.Noise.Socket.{
  NoiseSocket, ready, ready_for_len, ready_for_body, Step, read_socket, go_on, process, dispatch,
  process_packet_length, process_packet_body, use_length, use_body, on_data_loop,
}

-- `socket.read(n)` when `n` bytes have arrived.
read_front :
    (xs ys : List ℕ) (n : ℕ) (k : NoiseSocket) (use_bytes : List ℕ → NoiseSocket → Step)
    {result : Step}
    → length xs ≡ n
    → k.incoming ≡ xs ++ ys
    → use_bytes xs (record k { incoming = ys }) ≡ result
    → read_socket n k use_bytes ≡ result
unfolding read_socket
read_front xs ys n k use_bytes size e used =
    rw
      (
        e,
        ← size,
        le→ltb (length (xs ++ ys)) (length xs) (omega (arith, length-append xs ys)),
        take-length_append xs ys,
        drop-length_append xs ys,
      )
      used

-- The push of a stream that always asks for more.
abbrev pub always : ℕ → Bool
always n = true

-- A socket between two packets.
abbrev pub IsIdle : NoiseSocket → Type 0
IsIdle k = (k.handshake_state ≡ ready) × (k.read_state ≡ ready_for_len)

abbrev pub after_message : List ℕ → List ℕ → NoiseState → NoiseSocket → NoiseSocket
after_message m rest s k = record k {
  incoming = rest;
  noise_state = s;
  l = none;
  messages_received = k.messages_received + 1;
  pushed = k.pushed ++ some m ∷ [];
  read_state = ready_for_len;
}

after_length : List ℕ → ℕ → NoiseState → NoiseSocket → NoiseSocket
after_length rest len s k = record k {
  incoming = rest;
  noise_state = s;
  l = some len;
  read_state = ready_for_body;
}

module _ (suite : Suite) where
  length_round :
      (lc rest : List ℕ) (len : ℕ) (s : NoiseState) (k : NoiseSocket)
      → IsIdle k
      → k.incoming ≡ lc ++ rest
      → length lc ≡ 18
      → decrypt_length suite lc k.noise_state ≡ ok (len, s)
      → process suite always k ≡ ok (true, after_length rest len s k)
  unfolding process process_packet_length use_length after_length
  length_round lc rest len s k idle arrived size decrypted =
      ap₂ (λ h r. dispatch suite always h r k) idle.0 idle.1
      ∙ read_front lc rest 18 k (use_length suite) size arrived (rw decrypted refl)

  body_round :
      (m c rest : List ℕ) (s1 s2 : NoiseState) (k : NoiseSocket)
      → k.handshake_state ≡ ready
      → length c ≡ length m + 16
      → decrypt_message suite c s1 ≡ ok (some m, s2)
      → process suite always (after_length (c ++ rest) (length m) s1 k)
        ≡ ok (true, after_message m rest s2 k)
  unfolding process process_packet_body use_body after_length
  body_round m c rest s1 s2 k h size decrypted =
      ap
        (λ state.
          dispatch suite always state ready_for_body (after_length (c ++ rest) (length m) s1 k))
        h
      ∙ read_front c rest (length m + 16) (after_length (c ++ rest) (length m) s1 k)
          (use_body suite always) size refl (rw decrypted refl)

  -- A packet is read in two rounds, and its message is pushed.
  pub two_rounds :
      (m lc c rest : List ℕ) (s1 s2 : NoiseState) (k : NoiseSocket) (left : ℕ)
      → IsIdle k
      → k.incoming ≡ lc ++ (c ++ rest)
      → length lc ≡ 18
      → length c ≡ length m + 16
      → decrypt_length suite lc k.noise_state ≡ ok (length m, s1)
      → decrypt_message suite c s1 ≡ ok (some m, s2)
      → on_data_loop suite always (suc (suc left)) k
        ≡ on_data_loop suite always left (after_message m rest s2 k)
  unfolding on_data_loop
  two_rounds m lc c rest s1 s2 k left idle arrived size size' d1 d2 =
      ap (λ round. go_on round (on_data_loop suite always (suc left)) k)
        (length_round lc (c ++ rest) (length m) s1 k idle arrived size d1)
      ∙ ap
          (λ round.
            go_on round (on_data_loop suite always left) (after_length (c ++ rest) (length m) s1 k))
          (body_round m c rest s1 s2 k idle.0 size' d2)

  short_round :
      (k : NoiseSocket) → IsIdle k → length k.incoming < 18 → process suite always k ≡ ok (false, k)
  unfolding process process_packet_length read_socket
  short_round k idle few = ap₂ (λ h r. dispatch suite always h r k) idle.0 idle.1 ∙ too_few
    where
      too_few : process_packet_length suite k ≡ ok (false, k)
      too_few = rw (lt→ltb (length k.incoming) 18 few) refl

  -- A socket that is idle and has fewer bytes than an encrypted length has waits.
  pub waiting :
      (k : NoiseSocket) (left : ℕ)
      → IsIdle k
      → length k.incoming < 18
      → on_data_loop suite always (suc left) k ≡ k
  unfolding on_data_loop
  waiting k left idle few =
      ap (λ round. go_on round (on_data_loop suite always left) k) (short_round k idle few)
