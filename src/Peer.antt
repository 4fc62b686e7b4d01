-- ===== src/Peer.antt =====
-- internal/peer: the registry of peers, and the DIDs that name them.
pub mod Registry
pub mod Base58
pub mod Did
