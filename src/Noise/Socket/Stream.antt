-- ===== src/Noise/Socket/Stream.antt =====
-- What one socket writes, the other one pushes.
use node_lightning.Common.{
  ℕ, suc, zero, ◌+◌, ◌*◌, ◌≤◌, ◌<◌, ◌≡◌, refl, sym, ◌∙◌, arith, List, [], ◌∷◌, ◌++◌, map, length,
  All, length-append, append_assoc, append-nil, some, Result, ok, ◌>>=◌,
}
use node_lightning.Crypto.{Suite}
use node_lightning.Noise.State.{NoiseState, encrypt_message, decrypt_length, decrypt_message}
use node_lightning.Noise.Transport.{Link, decrypt_message-encrypt_message}
use node_lightning.Noise.Socket.{NoiseSocket, SocketError, on_data_loop, on_data, write}
use node_lightning.Noise.Socket.Rounds.{always, IsIdle, after_message, two_rounds, waiting}

module _ (suite : Suite) where
  -- Messages, written one after the other.
  unfoldable pub write_all : List (List ℕ) → NoiseSocket → Result SocketError NoiseSocket
  write_all [] k = ok k
  write_all (m ∷ ms) k = write suite m k >>= write_all ms

  -- What a socket has become that has received messages.
  pub record Received (ms : List (List ℕ)) (tail : List ℕ) (k k' : NoiseSocket) : Type 0 where
    pub pushed : k'.pushed ≡ k.pushed ++ map some ms
    pub left_over : k'.incoming ≡ tail
    pub still_idle : IsIdle k'
    pub not_destroyed : k'.destroyed ≡ k.destroyed

  -- The bytes that carry messages from one socket to another that is idle, with what happens to both.
  pub record Carried (ms : List (List ℕ)) (tail : List ℕ) (a k : NoiseSocket) : Type 0 where
    pub bytes : List ℕ
    pub sender : NoiseSocket
    pub writes : write_all ms a ≡ ok sender
    pub written : sender.written ≡ a.written ++ bytes
    pub long : 2 * length ms ≤ length bytes
    pub reads :
        (left : ℕ)
        → 2 * length ms < left
        → (k' : NoiseSocket) × (on_data_loop suite always left
              (record k { incoming = bytes ++ tail })
            ≡ k')
          × Received ms tail k k'
          × Link suite sender.noise_state k'.noise_state

  nothing_carried :
      (tail : List ℕ) (a k : NoiseSocket)
      → length tail < 18
      → Link suite a.noise_state k.noise_state
      → IsIdle k
      → (left : ℕ) → 0 < left
      → (k' : NoiseSocket) × (on_data_loop suite always left (record k { incoming = tail }) ≡ k')
        × Received [] tail k k'
        × Link suite a.noise_state k'.noise_state
  nothing_carried tail a k few link idle zero h = absurd (omega arith)
  nothing_carried tail a k few link idle (suc left) h = (
    record k { incoming = tail },
    waiting suite (record k { incoming = tail }) left idle few,
    record {
      pushed = sym (append-nil _);
      left_over = refl;
      still_idle = idle;
      not_destroyed = refl;
    },
    link,
  )

  write_one :
      (m c : List ℕ) (a : NoiseSocket) (s : NoiseState)
      → encrypt_message suite m a.noise_state ≡ ok (c, s)
      → write suite m a ≡ ok (record a { written = a.written ++ c; noise_state = s })
  unfolding write
  write_one m c a s e = rw e refl

  Carried-on :
      (m lc c : List ℕ) (ms : List (List ℕ)) (tail : List ℕ) (r1 r2 : NoiseState)
      (a k : NoiseSocket)
      → IsIdle k
      → length lc ≡ 18
      → length c ≡ length m + 16
      → decrypt_length suite lc k.noise_state ≡ ok (length m, r1)
      → decrypt_message suite c r1 ≡ ok (some m, r2)
      → (rest : Carried ms tail a (after_message m [] r2 k)) → (left : ℕ)
      → 2 * length (m ∷ ms) < left
      → (k' : NoiseSocket) × (on_data_loop suite always left
            (record k { incoming = ((lc ++ c) ++ rest.bytes) ++ tail })
          ≡ k')
        × Received (m ∷ ms) tail k k'
        × Link suite rest.sender.noise_state k'.noise_state
  Carried-on m lc c ms tail r1 r2 a k idle size size' d1 d2 rest zero h = absurd (omega arith)
  Carried-on m lc c ms tail r1 r2 a k idle size size' d1 d2 rest (suc zero) h = absurd (omega arith)
  Carried-on m lc c ms tail r1 r2 a k idle size size' d1 d2 rest (suc (suc left)) h =
      let (k', e, received, link) = rest.reads left (omega arith) in
      (
        k',
        two_rounds suite m lc c (rest.bytes ++ tail) r1 r2
              (record k { incoming = ((lc ++ c) ++ rest.bytes) ++ tail }) left idle
              (append_assoc (lc ++ c) rest.bytes tail ∙ append_assoc lc c (rest.bytes ++ tail)) size
              size' d1 d2
            ∙ e,
        record {
          pushed = received.pushed ∙ append_assoc k.pushed (some m ∷ []) (map some ms);
          left_over = received.left_over;
          still_idle = received.still_idle;
          not_destroyed = received.not_destroyed;
        },
        link,
      )

  carry :
      (ms : List (List ℕ)) (tail : List ℕ) (a k : NoiseSocket)
      → All (λ m. length m ≤ 0xffff) ms
      → length tail < 18
      → Link suite a.noise_state k.noise_state
      → IsIdle k
      → Carried ms tail a k
  unfolding write_all
  carry [] tail a k small few link idle = record {
    bytes = [];
    sender = a;
    writes = refl;
    written = sym (append-nil _);
    long = omega arith;
    reads = nothing_carried tail a k few link idle;
  }
  carry (m ∷ ms) tail a k (short, small) few link idle =
      let (lc, c, s', r1, r2, sent, size, size', d1, d2, link') =
        decrypt_message-encrypt_message suite m a.noise_state k.noise_state short link in
      let a1 = record a { written = a.written ++ (lc ++ c); noise_state = s' } in
      let rest = carry ms tail a1 (after_message m [] r2 k) small few link' (idle.0, refl) in
      record {
        bytes = (lc ++ c) ++ rest.bytes;
        sender = rest.sender;
        writes = rw (write_one m (lc ++ c) a s' sent) rest.writes;
        written = rest.written ∙ append_assoc a.written (lc ++ c) rest.bytes;
        long =
            omega (arith, rest.long, length-append (lc ++ c) rest.bytes, length-append lc c, size);
        reads = Carried-on m lc c ms tail r1 r2 a1 k idle size size' d1 d2 rest;
      }

  -- On a link, messages of up to 65535 bytes each are written by one socket as bytes; a socket that is
  -- idle and whose stream always asks for more, to which these bytes arrive with fewer than 18 bytes
  -- behind them, pushes exactly these messages, in order, keeps the bytes behind them, is idle and not
  -- destroyed, and the two are linked again. The rounds that `_onData` is given are enough.
  pub on_data-write_all :
      (ms : List (List ℕ)) (tail : List ℕ) (a k : NoiseSocket)
      → All (λ m. length m ≤ 0xffff) ms
      → length tail < 18
      → Link suite a.noise_state k.noise_state
      → IsIdle k
      → (bytes : List ℕ) × (a' k' : NoiseSocket) × (write_all ms a ≡ ok a')
        × (a'.written ≡ a.written ++ bytes)
        × (on_data suite always (record k { incoming = bytes ++ tail }) ≡ k')
        × Received ms tail k k'
        × Link suite a'.noise_state k'.noise_state
  unfolding on_data
  on_data-write_all ms tail a k small few link idle =
      let way = carry ms tail a k small few link idle in
      let (k', read, received, link') =
        way.reads (suc (length (way.bytes ++ tail)))
          (omega (arith, way.long, length-append way.bytes tail)) in
      (way.bytes, way.sender, k', way.writes, way.written, read, received, link')
