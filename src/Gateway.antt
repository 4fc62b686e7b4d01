-- ===== src/Gateway.antt =====
-- cmd/coggo-oauth-gateway: the OAuth gateway in front of the MCP server.
pub mod Validator
pub mod RateLimit
pub mod Serve
pub mod Config
pub mod Upstream
