-- ===== src/Auth.antt =====
-- internal/auth: bearer tokens.
pub mod Tokens
