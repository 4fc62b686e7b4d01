-- ===== src/Federation.antt =====
-- internal/federation: messages between peers, the router and the handler of a peer.
pub mod Message
pub mod Handler
pub mod Router
