-- ===== src/Cli.antt =====
-- internal/service/cli.go: the `service` subcommand. Its arguments, the account that the service
-- runs as, and the re-launch with more rights.
pub mod Options
pub mod Args
pub mod Flags
pub mod Account
pub mod Elevate
pub mod Install
pub mod Control
pub mod Report
pub mod Command
