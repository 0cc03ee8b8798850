-- ===== src/Tests/Installed.antt =====
-- An installation on a machine that has the configuration's file, and its daemon.
use termcp_relay.Prelude.{[], ◌∷◌, codes}
use termcp_relay.Strings.{ascii}
use termcp_relay.Host.Disk.{Disk}
use termcp_relay.Tests.Service.{no_files}

abbrev configured : Disk
configured = record no_files {
  files = (codes "/c", record { content = codes "addr"; mode = 0o600 }) ∷ [];
}
