-- ===== src/Cli.antt =====
-- internal/cli: the command line, its exit codes, and the watch mode's callback.
pub mod Setup
pub mod Command
pub mod Policy
