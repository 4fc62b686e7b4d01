-- ===== src/Store.antt =====
-- internal/store/sqlite.go, a file for each group of its methods. `Rows` has the tables.
pub mod Stamp
pub mod Rows
pub mod Events
pub mod Entities
pub mod Relations
pub mod Embeddings
pub mod Search
pub mod TimeTravel
pub mod WellFormed
