-- ===== src/Main.antt =====
-- main.go: what the program is asked to do, and the subcommand `init`.
pub mod Laws
pub mod Installed
pub mod Daemon
use termcp_relay.Prelude.{
  ℕ, Bool, true, false, List, [], ◌∷◌, Option, none, some, if◌then◌else◌, Text, codes, ◌=t=◌,
  Result, ok, err, ◌>>=◌,
}
use termcp_relay.Dict.{Dict, get_text, member}
use termcp_relay.Flags.{FlagSet, textual, parse_flags}
use termcp_relay.Host.Paths.{Paths}
use termcp_relay.Host.Disk.{Disk}
use termcp_relay.Config.Init.{write_template}
use termcp_relay.Cli.Options.{Options}
use termcp_relay.Ssh.Session.{Os}
use termcp_relay.Service.Definition.{
  Definition, NewServiceError, invalid_options, refused_by_library, new_service,
}
use termcp_relay.Cli.Command.{help_names}

-- What `main` does with its arguments.
pub data Request : Type 0 where
  shows_usage shows_version : Request
  initializes : List Text → Request
  services : List Text → Request
  runs : Options → Request
  exits : ℕ → Request

-- The flags of the daemon.
unfoldable pub daemon_flags : FlagSet
unfolding member
daemon_flags name =
    if member name (codes "config" ∷ codes "log-level" ∷ codes "log-file" ∷ codes "work-dir" ∷ [])
    then some textual
    else none

abbrev pub daemon_defaults : Dict Text
daemon_defaults =
    (codes "config", codes "config.toml")
    ∷ (codes "log-level", [])
    ∷ (codes "log-file", [])
    ∷ (codes "work-dir", [])
    ∷ []

-- The options of the daemon, from the values of the flags.
unfoldable pub daemon_options : Dict Text → Options
daemon_options values = record {
  name = [];
  config_path = get_text (codes "config") values;
  log_level = get_text (codes "log-level") values;
  log_file = get_text (codes "log-file") values;
  work_dir = get_text (codes "work-dir") values;
  system = false;
  user_name = [];
  password = [];
  needs_credential = false;
}

unfoldable pub requested : Result ℕ (Dict Text × List Text) → Request
unfolding daemon_options
requested (err code) = exits code
requested (ok (values, rest)) = runs (daemon_options values)

-- `main` without a subcommand, up to the making of the service.
unfoldable pub daemon_request : List Text → Request
unfolding parse_flags daemon_flags requested
daemon_request args = requested (parse_flags daemon_flags daemon_defaults args)

-- `main`, up to the calls that the request names.
unfoldable pub main_request : List Text → Request
unfolding daemon_request member ◌=t=◌
main_request [] = daemon_request []
main_request (a ∷ args) =
    if member a help_names
    then shows_usage
    else if member a (codes "version" ∷ codes "--version" ∷ [])
    then shows_version
    else if a =t= codes "init"
    then initializes args
    else if a =t= codes "service"
    then services args
    else daemon_request (a ∷ args)

-- What the service library answers to `New`, and to `Run`: whether it fails.
pub data Made : Type 0 where
  made : Bool → Made
  no_service_system other_error : Made

-- The exit code of the daemon; the flag is whether `RunForeground` fails.
unfoldable pub daemon_exit : Made → Bool → ℕ
daemon_exit (made fails) foreground_fails = if fails then 1 else 0
daemon_exit no_service_system foreground_fails = if foreground_fails then 1 else 0
daemon_exit other_error foreground_fails = 1

-- What the service library's `New` reports.
pub data LibraryError : Type 0 where
  no_system_detected other_library_error : LibraryError

-- The answer of `relayservice.New`; the flag of a service is whether its `Run` fails.
unfoldable pub made_of : Result (NewServiceError LibraryError) Bool → Made
made_of (ok fails) = made fails
made_of (err invalid_options) = other_error
made_of (err (refused_by_library no_system_detected)) = no_service_system
made_of (err (refused_by_library other_library_error)) = other_error

-- The end of `main`, for a daemon: its exit code.
unfoldable pub run_daemon :
    (Options → Definition → Result LibraryError Bool) → Paths → Os → Options → Bool → ℕ
unfolding daemon_exit made_of new_service
run_daemon library paths os o foreground_fails =
    daemon_exit (made_of (new_service library paths os o)) foreground_fails

unfoldable pub init_flags : FlagSet
unfolding ◌=t=◌
init_flags name = if name =t= codes "config" then some textual else none

abbrev pub init_defaults : Dict Text
init_defaults = (codes "config", codes "config.toml") ∷ []

-- The path that `runInit` writes to: an argument behind the flags wins.
unfoldable pub init_path : List Text → Result ℕ Text
unfolding parse_flags init_flags
init_path args = do
  (values, rest) ← parse_flags init_flags init_defaults args
  ok (elim rest [ [] ↦ get_text (codes "config") values | path ∷ _ ↦ path ])

-- The end of `runInit`.
unfoldable pub init_at : Paths → Disk → Option Text → Result ℕ Text → ℕ × Disk
init_at paths d cut_off (err code) = (code, d)
init_at paths d cut_off (ok path) =
    let written = write_template paths d cut_off path in
    (elim written.0 [ none ↦ 0 | some e ↦ 1 ], written.1)

-- `runInit`: the exit code, and the disk; `cut_off` is how the write of the template ends.
unfoldable pub run_init : Paths → Disk → Option Text → List Text → ℕ × Disk
unfolding init_path init_at
run_init paths d cut_off args = init_at paths d cut_off (init_path args)
