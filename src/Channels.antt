-- ===== src/Channels.antt =====
-- packages/lightning/lib/channels: per-commitment secrets, and the scripts and transactions of a
-- channel.
pub mod Commitment
pub mod Scripts
pub mod Transactions
pub mod Side
pub mod Channel
pub mod Keys
pub mod Opening
pub mod Machine
