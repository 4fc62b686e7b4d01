-- ===== src/Schema.antt =====
-- internal/schema: the registry of type definitions, and the validation of a write against one.
pub mod Resolver
pub mod Validate
pub mod Seed
