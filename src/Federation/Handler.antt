-- ===== src/Federation/Handler.antt =====
-- internal/federation/handler.go. `Base` has the handler's state and replies, the other children a
-- group of operations each.
pub mod Base
pub mod EntityOps
pub mod RelationOps
pub mod TypeOps
pub mod SearchOps
pub mod Dispatch
pub mod Laws
pub mod Log
pub mod Panics
pub mod Stored
pub mod Created
pub mod Accepted
pub mod Mirror
pub mod Isolation
