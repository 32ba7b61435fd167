-- ===== src/Cli.antt =====
-- packages/cli: the command line tool.
pub mod Diff
pub mod File
pub mod Sync
