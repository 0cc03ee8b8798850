-- ===== src/Main/Laws.antt =====
-- The arguments that the service manager is told are read back by the daemon, and `init` keeps what
-- there is.
use mathlib.Core.List.{append-nil}
use termcp_relay.Prelude.{
  inr, inl, Option, Bool-cases, ℕ, ◌≡◌, refl, ap, sym, subst, ◌∙◌, false, List, [], ◌∷◌, ◌++◌, none,
  some, if◌then◌else◌, Text, codes, ◌=t=◌, is_nil, Result, ok, err, arith, text_iff,
}
use termcp_relay.Dict.{Dict, lookup}
use termcp_relay.Host.Paths.{Paths}
use termcp_relay.Host.Disk.{Disk, File}
use termcp_relay.Config.Init.{write_template_lem}
use termcp_relay.Ssh.Session.{Os}
use termcp_relay.Flags.{token, parse_from, parse_flags}
use termcp_relay.Flags.Laws.{
  given, parse_from-value_flag, get_text-given, get_text-insert, unless_nil,
}
use termcp_relay.Cli.Args.{value_flag}
use termcp_relay.Cli.Options.{Options}
use termcp_relay.Service.Definition.{service_arguments, kservice_config}
use termcp_relay.Main.{
  runs, daemon_flags, daemon_defaults, daemon_options, requested, daemon_request, main_request,
  init_path, init_at, run_init,
}

abbrev daemon_values : Options → Dict Text
daemon_values o = given (codes "log-level") o.log_level (
    given (codes "work-dir") o.work_dir
      (given (codes "log-file") o.log_file (given (codes "config") o.config_path daemon_defaults)))

parse_from-service_arguments :
    (o : Options)
    → parse_from daemon_flags daemon_defaults none (service_arguments o) ≡ ok (daemon_values o, [])
unfolding service_arguments token daemon_flags parse_from
parse_from-service_arguments o =
    parse_from-value_flag daemon_flags daemon_defaults (codes "config") _ refl refl o.config_path
    ∙ parse_from-value_flag daemon_flags _ (codes "log-file") _ refl refl o.log_file
    ∙ parse_from-value_flag daemon_flags _ (codes "work-dir") _ refl refl o.work_dir
    ∙ ap (parse_from daemon_flags _ none)
        (sym (append-nil (value_flag (codes "--log-level") o.log_level)))
    ∙ parse_from-value_flag daemon_flags _ (codes "log-level") [] refl refl o.log_level

-- The options with which the service manager runs the daemon.
abbrev pub daemon_of : Options → Options
daemon_of o = record {
  name = [];
  config_path = if is_nil o.config_path then codes "config.toml" else o.config_path;
  log_level = o.log_level;
  log_file = o.log_file;
  work_dir = o.work_dir;
  system = false;
  user_name = [];
  password = [];
  needs_credential = false;
}

ruleset reads = (get_text-given, get_text-insert, unless_nil)

daemon_options-daemon_values : (o : Options) → daemon_options (daemon_values o) ≡ daemon_of o
unfolding daemon_options ◌=t=◌ lookup
daemon_options-daemon_values o = simp reads

-- The arguments name no subcommand.
abbrev IsDaemon : List Text → Type 0
IsDaemon args = main_request args ≡ daemon_request args

value_flag-IsDaemon :
    (flag value : Text) (rest : List Text)
    → ((args : List Text) → IsDaemon (flag ∷ args))
    → IsDaemon rest
    → IsDaemon (value_flag flag value ++ rest)
value_flag-IsDaemon flag [] rest h k = k
value_flag-IsDaemon flag (c ∷ value) rest h k = h ((c ∷ value) ∷ rest)

service_arguments-IsDaemon : (o : Options) → IsDaemon (service_arguments o)
unfolding service_arguments main_request
service_arguments-IsDaemon o =
    value_flag-IsDaemon (codes "--config") o.config_path _ (λ args. refl)
      (value_flag-IsDaemon (codes "--log-file") o.log_file _ (λ args. refl)
        (value_flag-IsDaemon (codes "--work-dir") o.work_dir _ (λ args. refl)
          (subst IsDaemon (append-nil (value_flag (codes "--log-level") o.log_level))
            (value_flag-IsDaemon (codes "--log-level") o.log_level [] (λ args. refl) refl))))

-- On every platform, the daemon reads from the arguments with which the service manager is told to
-- run it the paths and the log level of the options that were installed; a configuration that is not
-- named is the default one.
pub main_request-kservice_config :
    (paths : Paths) (os : Os) (o : Options)
    → main_request (kservice_config paths os o).arguments ≡ runs (daemon_of o)
unfolding kservice_config daemon_request parse_flags requested
main_request-kservice_config paths os o =
    service_arguments-IsDaemon o
    ∙ ap requested (parse_from-service_arguments o)
    ∙ ap runs (daemon_options-daemon_values o)

init_at_keeps :
    (paths : Paths) (d : Disk) (cut_off : Option Text) (r : Result ℕ Text) (other : Text) (f : File)
    → lookup other d.files ≡ some f
    → lookup other (init_at paths d cut_off r).1.files ≡ some f
unfolding init_at
init_at_keeps paths d cut_off (err code) other f h = h
init_at_keeps paths d cut_off (ok path) other f h =
    let wrote = write_template_lem paths d cut_off path in
    elim (Bool-cases (path =t= other)) [
      | inl same ↦
          let e = (text_iff path other).0 same in
          ap (λ (d : Disk). lookup other d.files) (wrote.1 f (ap (λ p. lookup p d.files) e ∙ h)).1
          ∙ h
      | inr apart ↦ wrote.0 other (λ e. ground (arith, text_iff path other, e)) ∙ h
    ]

-- Whatever its arguments are, `init` leaves every file that there is as it is.
pub run_init_keeps :
    (paths : Paths) (d : Disk) (cut_off : Option Text) (args : List Text) (other : Text) (f : File)
    → lookup other d.files ≡ some f
    → lookup other (run_init paths d cut_off args).1.files ≡ some f
unfolding run_init
run_init_keeps paths d cut_off args other f h =
    init_at_keeps paths d cut_off (init_path args) other f h
