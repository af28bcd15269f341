-- ===== src/Examples.antt =====
-- Runs of the modelled code on concrete inputs, and the theorems applied to them.
mod Bitcoin
mod Bufio
mod Commitment
mod Noise
mod Peer
mod Domain
mod Gossip
mod Primitives
mod Scripts
mod Transactions
mod Opening
mod Machine
