-- ===== src/Cli.antt =====
-- internal/cli: how the command line opens the other packages and calls them.
pub mod Runtime
pub mod Calls
pub mod Prompts
pub mod Commands
pub mod Backup
pub mod Admin
pub mod Init
