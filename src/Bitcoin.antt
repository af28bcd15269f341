-- ===== src/Bitcoin.antt =====
-- packages/bitcoin: values, scripts, and the time locks that a transaction's inputs and the
-- transaction carry.
pub mod Value
pub mod LockTime
pub mod Sequence
pub mod OpCodes
pub mod Stack
pub mod Script
pub mod Transaction
