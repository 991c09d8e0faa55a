-- ===== src/Cli.antt =====
-- The command line client, packages/automated_actions_cli/automated_actions_cli.
pub mod Cache
pub mod Commands
pub mod Gssapi
pub mod Main
pub mod Run
pub mod Version
