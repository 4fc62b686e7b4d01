-- ===== src/Mcp.antt =====
-- internal/mcp: what stands between a client and the federation router.
pub mod Authorize
pub mod Tools
pub mod Session
pub mod Projection
