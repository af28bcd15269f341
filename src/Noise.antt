-- ===== src/Noise.antt =====
-- packages/noise/lib: the encrypted transport of BOLT 8.
pub mod State
pub mod Handshake
pub mod Transport
pub mod Socket
