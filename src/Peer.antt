-- ===== src/Peer.antt =====
-- packages/lightning/lib: what a connection to a peer keeps besides its socket.
pub mod BitField
pub mod PingPong
