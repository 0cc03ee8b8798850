-- ===== src/Tests/Main.antt =====
-- The daemon of an installed service.
use termcp_relay.Prelude.{◌≡◌, refl, true, false, [], codes, err}
use termcp_relay.Host.Paths.{rooted}
use termcp_relay.Cli.Options.{Options, validate_options}
use termcp_relay.Ssh.Session.{linux}
use termcp_relay.Main.{no_system_detected, run_daemon}

abbrev options : Options
options = record {
  name = codes "relay";
  config_path = codes "/etc/relay.toml";
  log_level = codes "debug";
  log_file = [];
  work_dir = codes "/srv";
  system = false;
  user_name = codes "bob";
  password = [];
  needs_credential = false;
}

-- A machine without a service system, on which the daemon runs on the terminal and fails.
run_daemon_run : run_daemon (λ o definition. err no_system_detected) rooted linux options true ≡ 1
unfolding run_daemon validate_options
run_daemon_run = refl
