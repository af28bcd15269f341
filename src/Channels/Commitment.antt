-- ===== src/Channels/Commitment.antt =====
-- packages/lightning/lib/channels: CommitmentNumber.ts, CommitmentSecret.ts, CommitmentSecretStore.ts.
pub mod Number
pub mod Secret
pub mod Store
