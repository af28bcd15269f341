-- ===== src/Gossip.antt =====
-- packages/lightning/lib/gossip: the exchange of routing gossip.
pub mod SyncWatcher
