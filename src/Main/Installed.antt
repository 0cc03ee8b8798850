-- ===== src/Main/Installed.antt =====
-- From `service install` to the daemon that the service manager starts: what `prepareInstall` accepts
-- is what the daemon is told, loads and serves by.
use termcp_relay.Ssh.Server as Ssh
use termcp_relay.Service.WorkDir.{Homes}
use termcp_relay.Prelude.{◌≡◌, ◌⊎◌, Bool, true, false, Option, none, some, Text, ok, is_nil}
use termcp_relay.Strings.{Unicode, is_blank}
use termcp_relay.Host.Paths.{Paths}
use termcp_relay.Host.Disk.{Disk, stat_ok}
use termcp_relay.Config.Settings.{Config}
use termcp_relay.Config.Load.{Decoder, load}
use termcp_relay.Config.Validate.Laws.{IsAcceptable}
use termcp_relay.Ssh.Auth.{Auth}
use termcp_relay.Ssh.Server.{addr_required, Server}
use termcp_relay.Ssh.Server.Admission.{Library}
use termcp_relay.Ssh.Session.{Os}
use termcp_relay.Cli.Options.{Options}
use termcp_relay.Service.Definition.{kservice_config}
use termcp_relay.Service.Program.{
  build_failed, Program, ProgramError, service_already_started, load_failed, Answers, start_program,
}
use termcp_relay.Service.Program.Laws.{IsServing, with_log, loaded_auth}
use termcp_relay.Main.{main_request, runs}
use termcp_relay.Main.Laws.{daemon_of}

-- Errors of the files and calls that a start needs once the configuration is loaded: the log, the file
-- of the keys, the library, the host key and the listener.
abbrev pub comes_later : ProgramError → Bool
comes_later service_already_started = false
comes_later (load_failed e) = false
comes_later (build_failed addr_required) = false
comes_later _ = true

abbrev Later : Option ProgramError → Type 0
Later none = Unit
Later (some e) = comes_later e ≡ true

module _ {Signer : Type 0} ⦃u : Unicode⦄ (library : Library) (paths : Paths) (decode : Decoder)
    (homes : Homes) (parse_authorized_key : Text → Option (Text × Text))
    (parse_private_key : Text → Option Signer) where
  -- The program of a daemon that is not started yet.
  abbrev pub daemon : Options → Program Signer
  daemon o = record { opts = o; srv = none; log_open = false }

  -- The program serves by the settings, with the keys as they are once the log is opened.
  abbrev pub Serving : Answers → Options → Disk → Program Signer → Config → Type 0
  Serving a o d p cfg =
      let logged =
        with_log library paths decode homes parse_authorized_key parse_private_key (daemon o) d
          cfg in
      let auth =
        loaded_auth library paths decode homes parse_authorized_key parse_private_key logged cfg in
      IsServing library paths decode homes parse_authorized_key parse_private_key a.bound auth p

  -- One start of the daemon, with these settings: it serves by them, or something that it needs is in its way.
  pub record Starts (a : Answers) (o : Options) (cfg : Config) (d : Disk) : Type 0 where
    pub outcome :
        let r =
          start_program paths decode homes parse_authorized_key parse_private_key a (daemon o) d in
        ((r.0 ≡ none) × Serving a o d r.1 cfg)
        ⊎ ((e : ProgramError) × (r.0 ≡ some e) × (comes_later e ≡ true))

  -- What the daemon of an installation is.
  pub record Runs (os : Os) (o : Options) (d : Disk) : Type 0 where
    pub told : main_request (kservice_config paths os o).arguments ≡ runs (daemon_of o)
    pub cfg : Config
    pub loads : load paths (stat_ok d) decode (daemon_of o).config_path ≡ ok cfg
    pub acceptable : IsAcceptable (stat_ok d) cfg
    pub log_absolute :
        (is_nil (daemon_of o).log_file ≡ true) ⊎ (paths.is_abs (daemon_of o).log_file ≡ true)
    pub dir_absolute :
        (is_blank (daemon_of o).work_dir ≡ true) ⊎ (paths.is_abs (daemon_of o).work_dir ≡ true)
    pub starts : (a : Answers) → Starts a (daemon_of o) cfg d
