-- ===== src/Cli.antt =====
-- The command line client, clawpot-cli/src/commands.
pub mod Logs
pub mod Vms
