-- ===== src/Tests/Cli.antt =====
-- The subcommand on a Windows machine, where `bob` has a password.
use termcp_relay.Prelude.{
  ◌⊎◌, is_nil, ◌≡◌, ◌≢◌, refl, ℕ, Bool, true, false, List, [], ◌∷◌, Option, none, some, ok, arith,
  Text, codes, ◌=t=◌, ◌==◌, if◌then◌else◌, All,
}
use termcp_relay.Strings.{ascii, trim_space, to_upper, equal_fold, is_blank}
use termcp_relay.Dict.{member, lookup}
use termcp_relay.Cli.Options.{Options, service_name, name_flag, validate_options}
use termcp_relay.Cli.Args.{elevated_output_flag, has_flag, child_flags}
use termcp_relay.Cli.Account.{
  Accounts, AccountError, prompt_loop, prompt_verified_password, builtin_service_account,
  with_password, choose_account, resolve_account,
}
use termcp_relay.Cli.Account.Laws.{IsSettled, FromFile, resolve_account_lem}
use termcp_relay.Cli.Control.{
  grantee, Manager, grant_right, start_service, grant_logon_right_and_retry, uninstall_service,
  stop_service, control, uninstall, query,
}
use termcp_relay.Cli.Control.Laws.{IsAllowed, control-IsAllowed}
use termcp_relay.Cli.Elevate.{maybe_elevate}
use termcp_relay.Cli.Report.{
  install_lines, grant_lines, account_display, installed, uses_config, logs_to, runs_as, starts_in,
  shell_warning, start_with, status_with, Host, manual_check_hint, state_lines, right_lines,
  hint_lines, account_lines, more_lines, status_lines, queried_lines, printed,
}
use termcp_relay.Ssh.Session.{windows}
use termcp_relay.Cli.Report.Laws.{warnings, warned_granted}
use termcp_relay.Cli.Command.{Steps, launched, installs, run_install, run_action, command, run}
use termcp_relay.Cli.Flags.{options_of, parse_service, read_flags}
use termcp_relay.Flags.{parse_flags, parse_from, token, split_name, move, set_flag, parse_bool}
use termcp_relay.Cli.Command.Laws.{command_launches_none}
use termcp_relay.Config.Load.{Decoder, KeepsDir}

abbrev typed : ℕ → Option Text
typed i = some (if i == 1 then codes "wrong" else codes "pw")

abbrev pub accounts : Accounts
accounts = record {
  on_windows = true;
  current_user_token = none;
  prompt_password = λ user i. typed i;
  verify_logon = λ user pw. pw =t= codes "pw";
  read_credential_file = λ path. none;
}

abbrev pub options : Options
options = record {
  name = codes "termcp-relay";
  config_path = codes "/c";
  log_level = [];
  log_file = [];
  work_dir = [];
  system = false;
  user_name = codes "bob";
  password = [];
  needs_credential = false;
}

abbrev resolved : Options
resolved = record options { password = codes "pw"; needs_credential = true }

resolve_account_lem_example :
    ((is_nil (codes "") ≡ true) × IsSettled accounts resolved)
    ⊎ ((is_nil (codes "") ≡ false) × FromFile accounts (codes "") options resolved)
unfolding resolve_account choose_account with_password trim_space builtin_service_account member
    to_upper equal_fold prompt_verified_password prompt_loop
resolve_account_lem_example = resolve_account_lem accounts options resolved (codes "") refl refl

abbrev pub there : Text → Bool
there path = true

abbrev pub decode_local : Decoder
decode_local path c = some (record c { server = record c.server { addr = codes "127.0.0.1:22" } })

pub decode_local-KeepsDir : KeepsDir decode_local
decode_local-KeepsDir path c c' e = ground arith

abbrev pub prepared : Options
prepared = record resolved { log_file = codes "//termcp-relay.log"; work_dir = codes "/home" }

abbrev manager : Manager
manager = record {
  on_windows = true;
  created = true;
  query_service =
      λ name. ok (record { name = name; installed = true; running = true; detail = [] });
  is_running = some true;
  install_error = none;
  start_error = none;
  start_again_error = none;
  stop_error = none;
  uninstall_error = none;
  restart_error = none;
  service_account_name = λ name. none;
  logon_right_held = λ account. none;
  grant_logon_right = λ account. true;
}

control_run :
    control manager (codes "uninstall") options ≡ (stop_service ∷ uninstall_service ∷ [], 0)
unfolding control ◌=t=◌ validate_options query uninstall
control_run = refl

control-IsAllowed_example : All (IsAllowed manager) (control manager (codes "uninstall") options).0
control-IsAllowed_example = control-IsAllowed manager (codes "uninstall") options

abbrev steps : Steps AccountError
steps = record {
  prepare = λ o path. ok (record o { password = path });
  elevation = record {
    elevated = false;
    installed = λ name. some true;
    write_credential_file = λ pw. some (codes "/tmp/pw");
    relaunch_elevated = λ args. some 0;
  };
}

abbrev install_args : List Text
install_args = codes "install" ∷ codes "--config=/c" ∷ codes "--user" ∷ codes "bob" ∷ []

sent_args :
    codes "install" ∷ child_flags options
    ≡ codes "install" ∷ codes "--config" ∷ codes "/c" ∷ codes "--user" ∷ codes "bob" ∷ []
unfolding child_flags ◌=t=◌
sent_args = refl

-- With the rights at hand, the service is installed at once; the steps put the path of the
-- credential file where its password would be.
command_run :
    run steps true install_args (codes "/tmp/pw")
    ≡ installs (record options { password = codes "/tmp/pw" })
unfolding run member run_action run_install maybe_elevate options_of parse_service read_flags
    parse_flags parse_from token split_name move set_flag parse_bool ◌=t=◌ lookup
command_run = refl

command_launches_none_example :
    command steps (codes "start" ∷ elevated_output_flag ∷ codes "/tmp/out" ∷ [])
    ≢ launched 0 none none
unfolding has_flag
command_launches_none_example =
    command_launches_none steps (codes "start" ∷ elevated_output_flag ∷ codes "/tmp/out" ∷ []) 0
      none none refl

abbrev machine : Host
machine = record { system = windows; has_systemctl = false; has_init_dir = false }

-- The service runs as `bob`, who lacks the right.
abbrev lacking : Manager
lacking = record manager {
  service_account_name = λ name. some (codes ".\\bob");
  logon_right_held = λ account. some false;
}

warned_granted_example :
    (grant_logon_right_and_retry lacking (service_name options)).0
    ≡ grant_right (codes ".\\bob") ∷ start_service ∷ []
unfolding printed queried_lines query status_lines more_lines state_lines account_lines right_lines
    hint_lines warnings builtin_service_account member to_upper trim_space manual_check_hint
    is_blank service_name
warned_granted_example = warned_granted lacking machine options (codes ".\\bob") [] refl

install_lines_run :
    install_lines lacking prepared
    ≡ installed (codes "termcp-relay")
      ∷ uses_config (codes "/c")
      ∷ logs_to (codes "//termcp-relay.log")
      ∷ runs_as (codes "bob")
      ∷ starts_in (codes "/home")
      ∷ shell_warning (codes "bob")
      ∷ start_with []
      ∷ status_with []
      ∷ []
unfolding install_lines grant_lines grantee account_display service_name name_flag member to_upper
    trim_space is_blank builtin_service_account ◌=t=◌
install_lines_run = refl
