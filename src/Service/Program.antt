-- ===== src/Service/Program.antt =====
-- `Program`: the daemon's start and stop. The mutex makes each call one step. What the platform's
-- calls answer is an argument.
pub mod Laws
pub mod Life
use termcp_relay.Prelude.{
  ℕ, Bool, true, false, not, ◌&&◌, Option, none, some, [], if◌then◌else◌, Text, Result, ok, err,
  is_some,
}
use termcp_relay.Strings.{Unicode, is_blank, trim_space}
use termcp_relay.Host.Paths.{Paths}
use termcp_relay.Host.Disk.{Disk, FileError, stat_ok}
use termcp_relay.Config.Settings.{Config}
use termcp_relay.Config.Validate.{ConfigError}
use termcp_relay.Config.Load.{Decoder, load}
use termcp_relay.Ssh.Auth.{Auth, LoadError, load_authorized_keys}
use termcp_relay.Ssh.Server.{Server, NewError, StartError, new, start, stop}
use termcp_relay.Ssh.Server as Ssh
use termcp_relay.Cli.Options.{Options}
use termcp_relay.Service.Log.{Handler, new_log_handler}
use termcp_relay.Service.WorkDir.{Homes, resolve_work_dir}

-- The field `logCloser` is only ever nil or not.
pub record Program (Signer : Type 0) : Type 0 where
  pub opts : Options
  pub srv : Option (Server Signer)
  pub log_open : Bool

pub data ProgramError : Type 0 where
  service_already_started log_failed : ProgramError
  load_failed : ConfigError → ProgramError
  keys_failed : LoadError → ProgramError
  build_failed : NewError → ProgramError
  start_failed : StartError → ProgramError

-- The answers to one call of `Start`: of `SetOption`, of the maker of keys and of `net.Listen`.
pub record Answers : Type 0 where
  pub set_option : Bool
  pub random : Option Text
  pub bound : Option Text

-- The authentication settings before the keys are read.
unfoldable pub configured_auth : Config → Auth
configured_auth cfg = record {
  no_auth = cfg.auth.no_auth;
  username = cfg.auth.username;
  password = cfg.auth.password;
  authorized_keys = [];
}

unfoldable pub server_options : Config → Text → Auth → Ssh.Options
server_options cfg work_dir auth = record {
  addr = cfg.server.addr;
  host_key_path = cfg.server.host_key;
  auth = some auth;
  shell_override = cfg.server.shell;
  work_dir = work_dir;
  banner = cfg.server.banner;
  allow_local_fwd = cfg.server.allow_local_fwd;
  allow_remote_fwd = cfg.server.allow_remote_fwd;
}

-- `--log-level` wins over the configuration.
unfoldable pub effective_level : Options → Config → Text
effective_level opts cfg =
    if not (is_blank opts.log_level) then trim_space opts.log_level else cfg.server.log_level

module _ {Signer : Type 0} ⦃u : Unicode⦄ (paths : Paths) (decode : Decoder) (m : Homes)
    (parse_authorized_key : Text → Option (Text × Text))
    (parse_private_key : Text → Option Signer) where
  -- The error, the program and the disk after a call.
  abbrev Ended : Type 0
  Ended = Option ProgramError × Program Signer × Disk

  -- After `srv.Start()`.
  unfoldable pub after_start : Program Signer → (Option StartError × Server Signer) × Disk → Ended
  after_start p ((some e, s), d) = (some (start_failed e), p, d)
  after_start p ((none, s), d) = (none, record p { srv = some s }, d)

  -- After `sshserver.New`.
  unfoldable pub after_new :
      Answers → Program Signer → Disk → Result NewError (Server Signer) → Ended
  after_new a p d (err e) = (some (build_failed e), p, d)
  after_new a p d (ok s) = after_start p (start paths parse_private_key s d a.random a.bound)

  -- After `auth.LoadAuthorizedKeys`.
  unfoldable pub after_keys :
      Answers → Program Signer → Disk → Config → Option LoadError × Auth → Ended
  after_keys a p d cfg (some e, auth) = (some (keys_failed e), p, d)
  after_keys a p d cfg (none, auth) =
      let opts = server_options cfg (resolve_work_dir m paths p.opts cfg) auth in
      after_new a p d (new opts a.set_option)

  -- After `newLogHandler`.
  unfoldable pub after_log :
      Answers → Program Signer → Config → Result FileError Handler × Disk → Ended
  after_log a p cfg (err e, d) = (some log_failed, p, d)
  after_log a p cfg (ok h, d) =
      after_keys a (record p { log_open = is_some h.file }) d cfg
        (load_authorized_keys parse_authorized_key d (configured_auth cfg) cfg.auth.authorized_keys)

  -- After `config.Load`.
  unfoldable pub after_load : Answers → Program Signer → Disk → Result ConfigError Config → Ended
  after_load a p d (err e) = (some (load_failed e), p, d)
  after_load a p d (ok cfg) =
      after_log a p cfg (new_log_handler d (effective_level p.opts cfg) p.opts.log_file)

  -- `Start`
  unfoldable pub start_program : Answers → Program Signer → Disk → Ended
  start_program a p d =
      if is_some p.srv
      then (some service_already_started, p, d)
      else after_load a p d (load paths (stat_ok d) decode p.opts.config_path)

-- `Stop`: whether an error other than `net.ErrClosed` is reported, and the program. `closed` is
-- whether the library's `Close` reports none but that.
unfoldable pub stop_program : {Signer : Type 0} → Program Signer → Bool → Bool × Program Signer
stop_program p closed =
    let fails : Bool = elim p.srv [ none ↦ false | some s ↦ (stop s closed).0 ] in
    (fails, record p { srv = none; log_open = false })
