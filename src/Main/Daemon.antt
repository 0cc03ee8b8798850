-- ===== src/Main/Daemon.antt =====
-- The exit code of the daemon.
use termcp_relay.Prelude.{
  ◌≡◌, refl, ℕ, Bool, true, false, List, [], ◌∷◌, Text, codes, ◌=t=◌, Result, ok, err, map_err,
  arith, is_nil, if◌then◌else◌,
}
use termcp_relay.Dict.{Dict, member}
use termcp_relay.Host.Paths.{Paths}
use termcp_relay.Ssh.Session.{Os}
use termcp_relay.Cli.Options.{Options, validate_options}
use termcp_relay.Cli.Command.{help_names}
use termcp_relay.Flags.{parse_flags}
use termcp_relay.Service.Definition.{
  Definition, kservice_config, new_service, refused_by_library, is_windows,
}
use termcp_relay.Main.{
  Request, shows_usage, shows_version, initializes, services, runs, requested, daemon_flags,
  daemon_defaults, daemon_options, daemon_request, main_request, LibraryError, no_system_detected,
  other_library_error, made_of, daemon_exit, run_daemon,
}

-- The exit code by what the service library answers: whether it made a service, and whether this
-- runs without an error; without a service system it is the daemon on the terminal that counts.
abbrev pub exit_by : Result LibraryError Bool → Bool → ℕ
exit_by (ok fails) foreground_fails = if fails then 1 else 0
exit_by (err no_system_detected) foreground_fails = if foreground_fails then 1 else 0
exit_by (err other_library_error) foreground_fails = 1

requested-runs :
    (r : Result ℕ (Dict Text × List Text)) (o : Options)
    → requested r ≡ runs o
    → is_nil o.password ≡ true
unfolding requested daemon_options
requested-runs (err code) o h = cc
requested-runs (ok (values, rest)) o h = ground arith

daemon_request-runs :
    (args : List Text) (o : Options) → daemon_request args ≡ runs o → is_nil o.password ≡ true
unfolding daemon_request
daemon_request-runs args o h = requested-runs (parse_flags daemon_flags daemon_defaults args) o h

-- Behind the subcommands there is the daemon.
subcommands-runs :
    (usage version init service : Bool) (args : List Text) (r : Request) (o : Options)
    → (if usage
        then shows_usage
        else if version
        then shows_version
        else if init
        then initializes args
        else if service
        then services args
        else r)
      ≡ runs o
    → r ≡ runs o
subcommands-runs true version init service args r o h = cc
subcommands-runs false true init service args r o h = cc
subcommands-runs false false true service args r o h = cc
subcommands-runs false false false true args r o h = cc
subcommands-runs false false false false args r o h = h

main_request-runs :
    (args : List Text) (o : Options) → main_request args ≡ runs o → is_nil o.password ≡ true
unfolding main_request
main_request-runs [] o h = daemon_request-runs [] o h
main_request-runs (a ∷ args) o h = daemon_request-runs (a ∷ args) o (
    subcommands-runs (member a help_names) (member a (codes "version" ∷ codes "--version" ∷ []))
      (a =t= codes "init") (a =t= codes "service") args (daemon_request (a ∷ args)) o h)

daemon_exit-made_of :
    (answer : Result LibraryError Bool) (foreground_fails : Bool)
    → daemon_exit (made_of (map_err refused_by_library answer)) foreground_fails
      ≡ exit_by answer foreground_fails
unfolding daemon_exit made_of
daemon_exit-made_of (ok fails) foreground_fails = refl
daemon_exit-made_of (err no_system_detected) foreground_fails = refl
daemon_exit-made_of (err other_library_error) foreground_fails = refl

-- Whatever the arguments are, if they ask for the daemon, the check of the options is passed, the
-- service library is asked for a service with the definition for these options, and its answer
-- alone, or that of the daemon on the terminal where there is no service system, gives the exit code.
pub run_daemon_lem :
    (library : Options → Definition → Result LibraryError Bool) (paths : Paths) (os : Os)
    (args : List Text) (o : Options) (foreground_fails : Bool)
    → main_request args ≡ runs o
    → run_daemon library paths os o foreground_fails
      ≡ exit_by (library o (kservice_config paths os o)) foreground_fails
unfolding run_daemon new_service validate_options
run_daemon_lem library paths os args o foreground_fails h =
    let plain = main_request-runs args o h in
    let passes : validate_options (is_windows os) o ≡ true = ground (arith, plain) in
    rw passes (daemon_exit-made_of (library o (kservice_config paths os o)) foreground_fails)
