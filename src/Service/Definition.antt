-- ===== src/Service/Definition.antt =====
-- `kserviceConfig`, with `applyPlatformOptions` of the files platform_*.go: what the service manager
-- is told of a service.
use termcp_relay.Prelude.{
  Bool, true, false, List, [], ◌∷◌, ◌++◌, if◌then◌else◌, Text, codes, is_nil, Result, err, map_err,
}
use termcp_relay.Host.Paths.{Paths}
use termcp_relay.Ssh.Session.{Os, windows, linux, darwin}
use termcp_relay.Cli.Args.{value_flag}
use termcp_relay.Cli.Options.{Options, service_name, validate_options}
use termcp_relay.Service.SystemdScript.{systemd_script}

-- The keys of `Option`. Those of the service library stand for its constants.
pub data OptionKey : Type 0 where
  password restart keep_alive run_at_load systemd_script_key : OptionKey
  on_failure on_failure_delay_duration : OptionKey

pub data OptionValue : Type 0 where
  text : Text → OptionValue
  flag : Bool → OptionValue
  on_failure_restart : OptionValue

-- The fields of `kservice.Config` that are set; the options in the order of the assignments, which
-- name no key twice.
pub record Definition : Type 0 where
  pub name : Text
  pub display_name : Text
  pub description : Text
  pub arguments : List Text
  pub working_directory : Text
  pub user_name : Text
  pub option : List (OptionKey × OptionValue)

abbrev pub display_name : Text
display_name = codes "termcp-relay SSH daemon"

abbrev pub description : Text
description = codes "Standalone SSH daemon: PTY shells, exec, SFTP and TCP port forwarding."

-- `cfg.Arguments`
unfoldable pub service_arguments : Options → List Text
service_arguments o =
    value_flag (codes "--config") o.config_path
    ++ (value_flag (codes "--log-file") o.log_file
        ++ (value_flag (codes "--work-dir") o.work_dir
            ++ value_flag (codes "--log-level") o.log_level))

-- `cfg.Option["Password"]`
unfoldable pub password_option : Os → Options → List (OptionKey × OptionValue)
password_option windows o = if is_nil o.user_name then [] else (password, text o.password) ∷ []
password_option _ o = []

-- The switch on the platform.
unfoldable pub restart_option : Os → List (OptionKey × OptionValue)
restart_option linux = (restart, text (codes "on-failure")) ∷ []
restart_option darwin = (keep_alive, flag true) ∷ (run_at_load, flag true) ∷ []
restart_option _ = []

-- `applyPlatformOptions`
unfoldable pub platform_option : Os → List (OptionKey × OptionValue)
platform_option linux = (systemd_script_key, text systemd_script) ∷ []
platform_option windows =
    (on_failure, on_failure_restart) ∷ (on_failure_delay_duration, text (codes "5s")) ∷ []
platform_option _ = []

-- `kserviceConfig`
unfoldable pub kservice_config : Paths → Os → Options → Definition
unfolding service_arguments
kservice_config paths os o = record {
  name = service_name o;
  display_name = display_name;
  description = description;
  arguments = service_arguments o;
  working_directory = if is_nil o.config_path then [] else paths.dir o.config_path;
  user_name = o.user_name;
  option = password_option os o ++ (restart_option os ++ platform_option os);
}

abbrev pub is_windows : Os → Bool
is_windows windows = true
is_windows _ = false

pub data NewServiceError (E : Type 0) : Type 0 where
  invalid_options : NewServiceError E
  refused_by_library : E → NewServiceError E

-- `New`; the argument is `kservice.New`, for the program with these options and the definition.
unfoldable pub new_service :
    {S : Type 0} {E : Type 0}
    → (Options → Definition → Result E S)
    → Paths
    → Os
    → Options
    → Result (NewServiceError E) S
unfolding kservice_config
new_service library paths os o =
    if validate_options (is_windows os) o
    then map_err refused_by_library (library o (kservice_config paths os o))
    else err invalid_options
