-- ===== src/Noise/Socket.antt =====
-- packages/noise/lib/noise-socket.ts. Of the underlying socket the bytes that have arrived and the
-- bytes that were written are kept. Whether `push` asks for more after a number of messages is the
-- stream library's answer, a parameter. Only the forwarding of the socket's other events is left out.
pub mod Rounds
pub mod Stream
use node_lightning.Common.{
  ℕ, suc, zero, ◌+◌, Bool, true, false, ltb, if◌then◌else◌, List, [], ◌∷◌, ◌++◌, length, take, drop,
  Option, some, none, Result, ok, err, ◌>>=◌,
}
use node_lightning.Crypto.{Suite}
use node_lightning.Noise.State.{
  NoiseError, NoiseState, initiator_act1, initiator_act2, initiator_act3, receive_act1,
  recieve_act2, receive_act3, encrypt_message, decrypt_length, decrypt_message,
}

pub data HandshakeState : Type 0 where
  initiator_initiating awaiting_initiator awaiting_initiator_reply awaiting_responder_reply ready :
      HandshakeState

pub data ReadState : Type 0 where
  ready_for_len ready_for_body blocked : ReadState

pub data SocketError : Type 0 where
  pending_state_invalid type_error : SocketError
  noise_error : NoiseError → SocketError

pub record NoiseSocket : Type 0 where
  pub incoming : List ℕ
  pub written : List ℕ
  pub pushed : List (Option (List ℕ))
  pub connected : Bool
  pub destroyed : Option SocketError
  pub initiator : Bool
  pub rpk : Option (List ℕ)
  pub handshake_state : HandshakeState
  pub read_state : ReadState
  pub noise_state : NoiseState
  pub messages_received : ℕ
  pub l : Option ℕ

-- The constructor.
unfoldable pub new_socket : NoiseState → Option (List ℕ) → NoiseSocket
new_socket noise rpk =
    let initiator : Bool = elim rpk [ none ↦ false | some key ↦ true ] in
    record {
      incoming = [];
      written = [];
      pushed = [];
      connected = false;
      destroyed = none;
      initiator = initiator;
      rpk = rpk;
      handshake_state = if initiator then initiator_initiating else awaiting_initiator;
      read_state = ready_for_len;
      noise_state = noise;
      messages_received = 0;
      l = none;
    }

-- What a method leaves: whether to read more, and the socket.
abbrev pub Step : Type 0
Step = Result SocketError (Bool × NoiseSocket)

abbrev pub noise {ℓ} : {A : Type ℓ} → Result NoiseError A → Result SocketError A
noise (ok a) = ok a
noise (err e) = err (noise_error e)

-- `socket.read(n)` while the connection is open: `n` bytes, if they have arrived, else nothing.
unfoldable pub read_socket : ℕ → NoiseSocket → (List ℕ → NoiseSocket → Step) → Step
read_socket n k use_bytes =
    if ltb (length k.incoming) n
    then ok (false, k)
    else use_bytes (take n k.incoming) (record k { incoming = drop n k.incoming })

abbrev pub write_socket : List ℕ → NoiseSocket → NoiseSocket
write_socket bytes k = record k { written = k.written ++ bytes }

-- The loop's continuation: a thrown error destroys the socket.
abbrev pub go_on : Step → (NoiseSocket → NoiseSocket) → NoiseSocket → NoiseSocket
go_on (err e) loop k = record k { destroyed = some e }
go_on (ok (true, k')) loop k = loop k'
go_on (ok (false, k')) loop k = k'

module _ (suite : Suite) where
  unfoldable pub initiate_handshake : NoiseSocket → Result SocketError NoiseSocket
  initiate_handshake k = elim k.rpk [
    | none ↦ err type_error
    | some rpk ↦ noise (initiator_act1 suite rpk k.noise_state) >>= λ m.
        ok (record (write_socket m.0 k) {
          noise_state = m.1;
          handshake_state = awaiting_responder_reply;
        })
  ]

  -- `_onConnected`
  unfoldable pub on_connected : NoiseSocket → NoiseSocket
  unfolding initiate_handshake
  on_connected k =
      if k.initiator
      then elim (initiate_handshake k) [ err e ↦ record k { destroyed = some e } | ok k' ↦ k' ]
      else k

  unfoldable pub process_initiator : NoiseSocket → Step
  unfolding read_socket
  process_initiator k = read_socket 50 k (λ m k1.
      noise (receive_act1 suite m k1.noise_state) >>= λ s1.
      noise (recieve_act2 suite s1) >>= λ reply. ok (
        true,
        record (write_socket reply.0 k1) {
          noise_state = reply.1;
          handshake_state = awaiting_initiator_reply;
        },
      ))

  unfoldable pub process_initiator_reply : NoiseSocket → Step
  unfolding read_socket
  process_initiator_reply k = read_socket 66 k (λ m k1.
      noise (receive_act3 suite m k1.noise_state) >>= λ s1. ok (
        true,
        record k1 { noise_state = s1; handshake_state = ready; rpk = s1.rpk; connected = true },
      ))

  unfoldable pub process_responder_reply : NoiseSocket → Step
  unfolding read_socket
  process_responder_reply k = read_socket 50 k (λ m k1.
      noise (initiator_act2 suite m k1.noise_state) >>= λ s1.
      noise (initiator_act3 suite s1) >>= λ reply. ok (
        true,
        record (write_socket reply.0 k1) {
          noise_state = reply.1;
          handshake_state = ready;
          connected = true;
        },
      ))

  -- `_processPacketLength`, from the bytes on.
  unfoldable pub use_length : List ℕ → NoiseSocket → Step
  use_length lc k = noise (decrypt_length suite lc k.noise_state) >>= λ len.
      ok (true, record k { noise_state = len.1; l = some len.0; read_state = ready_for_body })

  unfoldable pub process_packet_length : NoiseSocket → Step
  unfolding read_socket use_length
  process_packet_length k = read_socket 18 k use_length

  -- `_write`
  unfoldable pub write : List ℕ → NoiseSocket → Result SocketError NoiseSocket
  write data_bytes k = noise (encrypt_message suite data_bytes k.noise_state) >>= λ c.
      ok (record (write_socket c.0 k) { noise_state = c.1 })

module _ (suite : Suite) (push_ok : ℕ → Bool) where
  -- `_processPacketBody`, from the bytes on.
  unfoldable pub use_body : List ℕ → NoiseSocket → Step
  use_body c k = noise (decrypt_message suite c k.noise_state) >>= λ m.
      let k' = record k {
        noise_state = m.1;
        l = none;
        messages_received = k.messages_received + 1;
        pushed = k.pushed ++ m.0 ∷ [];
      } in
      if push_ok k'.messages_received
      then ok (true, record k' { read_state = ready_for_len })
      else ok (false, record k' { read_state = blocked })

  unfoldable pub process_packet_body : NoiseSocket → Step
  unfolding read_socket use_body
  process_packet_body k =
      let len : ℕ = elim k.l [ none ↦ 0 | some len ↦ len ] in read_socket (len + 16) k use_body

  -- The body of the loop of `_onData`, on its two states.
  unfoldable pub dispatch : HandshakeState → ReadState → NoiseSocket → Step
  unfolding process_initiator process_initiator_reply process_responder_reply process_packet_length
      process_packet_body
  dispatch initiator_initiating state k = err pending_state_invalid
  dispatch awaiting_initiator state k = process_initiator suite k
  dispatch awaiting_initiator_reply state k = process_initiator_reply suite k
  dispatch awaiting_responder_reply state k = process_responder_reply suite k
  dispatch ready ready_for_len k = process_packet_length suite k
  dispatch ready ready_for_body k = process_packet_body k
  dispatch ready blocked k = ok (false, k)

  unfoldable pub process : NoiseSocket → Step
  unfolding dispatch
  process k = dispatch k.handshake_state k.read_state k

  -- The loop of `_onData`, with the rounds left.
  unfoldable pub on_data_loop : ℕ → NoiseSocket → NoiseSocket
  unfolding process
  on_data_loop zero k = k
  on_data_loop (suc left) k = go_on (process k) (on_data_loop left) k

  -- Each round but the last one takes bytes that have arrived, at least 16.
  unfoldable pub on_data : NoiseSocket → NoiseSocket
  unfolding on_data_loop
  on_data k = on_data_loop (suc (length k.incoming)) k

  -- `_read`, with the `_onData` that it schedules.
  unfoldable pub read : NoiseSocket → NoiseSocket
  unfolding on_data
  read k = elim k.handshake_state [
    | initiator_initiating ↦ k
    | awaiting_initiator ↦ k
    | awaiting_initiator_reply ↦ k
    | awaiting_responder_reply ↦ k
    | ready ↦ elim k.read_state [
      | ready_for_len ↦ on_data k
      | ready_for_body ↦ on_data k
      | blocked ↦ on_data (record k { read_state = ready_for_len })
    ]
  ]
