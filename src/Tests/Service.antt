-- ===== src/Tests/Service.antt =====
-- A daemon on an empty disk, with a password in its configuration.
use termcp_relay.Service.Foreground.{run_foreground}
use termcp_relay.Service.Foreground.Laws.{Ends, run_foreground-Ends}
use termcp_relay.Prelude.{◌≡◌, refl, ◌∷◌, true, false, [], Option, none, some, Text, codes}
use termcp_relay.Strings.{ascii, to_lower, contains, is_blank}
use termcp_relay.Dict.{member}
use termcp_relay.Host.Paths.{rooted}
use termcp_relay.Host.Disk.{Disk, read_file, write_file, mkdir_all}
use termcp_relay.Config.Settings.{Config}
use termcp_relay.Config.Load.{Decoder, load, load_abs}
use termcp_relay.Config.Validate.{validate}
use termcp_relay.Config.Normalize.{normalize}
use termcp_relay.Config.Init.{make_parent}
use termcp_relay.Ssh.Auth.{load_authorized_keys}
use termcp_relay.Ssh.HostKey.{load_or_create_host_key, create_host_key, generate_host_key_pem}
use termcp_relay.Ssh.Server.{new, start}
use termcp_relay.Ssh.Server.Admission.{plain_library}
use termcp_relay.Cli.Options.{Options}
use termcp_relay.Service.WorkDir.{
  Homes, abs_or_self, resolve_work_dir, is_service_profile, usable_home,
}
use termcp_relay.Service.Program.{
  server_options, Program, Answers, ProgramError, start_program, after_load, after_log, after_keys,
  after_new, after_start,
}
use termcp_relay.Service.Program.Life.{HoldsRunning, here, next, starts, Reach-HoldsRunning}
use termcp_relay.Service.Log.{new_log_handler}
use termcp_relay.Service.Hints.{Interface, ip, listenable_ipv4_hints}
use termcp_relay.Service.State.{state, query_service}
use termcp_relay.Cli.Control.{Manager, other_failure}
use termcp_relay.Service.Program.Laws.{HasStarted, start_program-HasStarted}

abbrev pub homes : Homes
homes = record {
  user_home_dir = some (codes "C:\\Windows\\System32\\config\\systemprofile");
  is_dir = λ path. true;
  to_slash = λ path. codes "C:/Windows/System32/config/systemprofile";
}

abbrev options : Options
options = record {
  name = [];
  config_path = codes "/c";
  log_level = [];
  log_file = [];
  work_dir = [];
  system = false;
  user_name = [];
  password = [];
  needs_credential = false;
}

abbrev decode_password : Decoder
decode_password path c = some (record c { auth = record c.auth { password = codes "pw" } })

abbrev idle_program : Program Text
idle_program = record { opts = options; srv = none; log_open = false }

abbrev pub no_files : Disk
no_files = record {
  files = [];
  refuses_read = λ path. false;
  refuses_write = λ path. false;
  refuses_mkdir = λ path. false;
}

abbrev answers : Answers
answers = record { set_option = true; random = some (codes "k"); bound = some (codes "[::]:2222") }

abbrev pub no_key : Text → Option (Text × Text)
no_key s = none

abbrev pub as_key : Text → Option Text
as_key s = some s

abbrev ended : Option ProgramError × Program Text × Disk
ended = start_program rooted decode_password homes no_key as_key answers idle_program no_files

start_program-HasStarted_example :
    HasStarted plain_library rooted decode_password homes no_key as_key answers idle_program ended.1
      no_files
unfolding start_program load load_abs validate normalize is_blank member after_load after_log
    after_keys after_new after_start load_authorized_keys new start load_or_create_host_key
    read_file create_host_key generate_host_key_pem make_parent mkdir_all write_file server_options
    new_log_handler
start_program-HasStarted_example =
    start_program-HasStarted plain_library rooted decode_password homes no_key as_key answers
      idle_program ended.1 no_files ended.2 refl

Reach-HoldsRunning_example :
    HoldsRunning {Signer = Text} rooted decode_password homes no_key as_key ended.1
Reach-HoldsRunning_example =
    Reach-HoldsRunning rooted decode_password homes no_key as_key refl
      (next here (starts answers idle_program no_files))

-- The profile of a service is no home, so that sessions start beside the configuration.
resolve_work_dir_run :
    (c : Config)
    → is_blank c.server.work_dir ≡ true
    → resolve_work_dir homes rooted options c ≡ codes "/"
unfolding resolve_work_dir is_blank usable_home is_service_profile to_lower contains abs_or_self
resolve_work_dir_run c h = rw h refl

run_foreground-Ends_example :
    Ends rooted decode_password homes no_key as_key plain_library answers idle_program no_files true
      (run_foreground rooted decode_password homes no_key as_key answers idle_program no_files true)
run_foreground-Ends_example =
    run_foreground-Ends rooted decode_password homes no_key as_key plain_library answers
      idle_program no_files true

abbrev quiet_manager : Manager
quiet_manager = record {
  on_windows = false;
  created = true;
  query_service = λ name. query_service none (λ n. state false) name;
  is_running = some false;
  install_error = none;
  start_error = some other_failure;
  start_again_error = none;
  stop_error = none;
  uninstall_error = none;
  restart_error = none;
  service_account_name = λ name. none;
  logon_right_held = λ account. none;
  grant_logon_right = λ account. true;
}

-- A machine with an address of its own, which is listed twice.
abbrev card : Interface
card = record {
  up = true;
  loopback = false;
  addrs =
      some
        (ip (192 ∷ 168 ∷ 0 ∷ 7 ∷ []) ∷ ip (192 ∷ 168 ∷ 0 ∷ 7 ∷ []) ∷ ip (10 ∷ 0 ∷ 0 ∷ 2 ∷ []) ∷ []);
}

listenable_ipv4_hints_run :
    listenable_ipv4_hints (codes "[::]:2222") (some (card ∷ []))
    ≡ codes "10.0.0.2" ∷ codes "192.168.0.7" ∷ []
unfolding listenable_ipv4_hints
listenable_ipv4_hints_run = refl
