-- ===== src/Cli.antt =====
-- packages/cli: the command line client.
pub mod Watch
pub mod Exports
pub mod Ignore
