-- ===== src/Windows/Handover/Clean.antt =====
-- No password is left on the disk after the handover, and nothing else if the prompt is declined.
use termcp_relay.Host.Disk.{Disk}
use termcp_relay.Cli.Options.{Options}
