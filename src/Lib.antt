-- ===== src/Lib.antt =====
-- node-lightning: a Lightning Network node in TypeScript. Code of its packages, translated into
-- functions that can be run, and theorems about them.
--
-- packages/bufio/lib: Bufio/Reader.antt is BufferReader.ts and Bufio/Writer.antt is
-- BufferWriter.ts, one function for each method. A Buffer is the list of its bytes, and what is
-- thrown is an `err`. Bufio/VarInt.antt is encodeVarInt.ts and varIntBytes.ts.
-- packages/bitcoin/lib: Bitcoin/Sequence.antt is Sequence.ts, Bitcoin/LockTime.antt is
-- LockTime.ts, Bitcoin/Value.antt is Value.ts, Bitcoin/Stack.antt is Stack.ts, Bitcoin/Script.antt
-- is Script.ts with its standard scripts in Bitcoin/Script/Locks.antt, and
-- Bitcoin/Transaction.antt is what TxBuilder.ts and the parts of a transaction do for the
-- channels.
-- packages/lightning/lib/channels: Channels/Commitment/Number.antt is CommitmentNumber.ts, which
-- puts an obscured number in a sequence and a lock time; Channels/Commitment/Secret.antt is
-- CommitmentSecret.ts, and Channels/Commitment/Store.antt is CommitmentSecretStore.ts, which
-- derives old secrets by it. Channels/Scripts.antt is ScriptFactory.ts;
-- Channels/Transactions.antt, with Build.antt and Htlcs.antt below it, is TxFactory.ts;
-- Channels/Keys.antt is ChannelKeys.ts; Channels/Channel.antt and Channels/Side.antt are
-- Channel.ts and ChannelSide.ts with domain/ChannelId.ts; Channels/Opening.antt and the files
-- below it are Helpers.ts, which checks the messages of an opening and makes the channel and its
-- commitment transactions out of the parts above. Channels/Machine.antt and the files below it are
-- StateMachine.ts, StateMachineFactory.ts, TransitionFactory.ts and what ChannelManager.ts does
-- with an event: a run of events is a relation (`Reach`) on a channel with its state, and what the
-- channel's logic does is a record (`Logic`).
-- packages/crypto/lib: Crypto.antt is hkdf.ts and chachapoly.ts over what Node's crypto module and
-- the secp256k1 package compute, which are parameters (`Suite`) with the laws that their
-- documentation gives. SHA-256 is a parameter of the commitment modules too; the scripts and
-- channels take their hashes and key tests by `Primitives`, and the curve's sums and products by
-- `Curve`.
-- packages/noise/lib: Noise/State.antt is noise-state.ts, the handshake and the encryption, and
-- Noise/Socket.antt is noise-socket.ts, the state machine that runs them on the bytes of a socket.
-- packages/lightning/lib: Peer/PingPong.antt is PingPongState.ts, Peer/BitField.antt is
-- BitField.ts, Domain/ShortChannelId.antt is domain/ShortChannelId.ts and
-- domain/ShortChannelIdUtils.ts, Gossip/SyncWatcher.antt is gossip/GossipSyncWatcher.ts.
-- Common.antt and its children hold the shared notation and the lemmas on lists, bytes, bits and
-- results; Examples.antt and its children apply the theorems to concrete inputs.
--
-- Numbers are natural numbers; where the source has a machine width, the wrap-around or the check
-- is written out. Loops are recursion on the rounds left: `calc_index` has 48, as the source's
-- loop; `uint_bytes` and `ceil_log2` have 53, as many as a number that JavaScript holds exactly
-- has bits; the loop of `on_data` has one round more than bytes have arrived, and each round but
-- the last takes bytes; `num_bytes` has as many as the number itself, `read_cmds_loop` as many as
-- bytes, `find_loop` as many as there are states; `flags_loop` and `msb_loop` have as many as the
-- value's number, of which 2 to the power is larger.
--
-- Promises are their values, and an object that is changed is a record that is returned.
--
-- Not modelled: sockets, files, RPC clients, logging and databases, which only hand data to the
-- code that is modelled. Timers are the times at which they fire.
pub mod Bitcoin
pub mod Bufio
pub mod Channels
pub mod Common
pub mod Crypto
pub mod Domain
pub mod Examples
pub mod Gossip
pub mod Noise
pub mod Peer
