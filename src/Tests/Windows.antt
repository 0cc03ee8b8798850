-- ===== src/Tests/Windows.antt =====
-- A Windows machine with the account `bob`, whose password is `pw`.
use termcp_relay.Prelude.{
  ◌≡◌, refl, Bool, true, false, ◌&&◌, [], ◌∷◌, List, Option, none, some, ok, Text, codes, ◌=t=◌,
  text_refl,
}
use termcp_relay.Strings.{ascii, trim_space, cut_last}
use termcp_relay.Dict.{member}
use termcp_relay.Host.Disk.{Disk}
use termcp_relay.Cli.Options.{Options}
use termcp_relay.Cli.Command.{Steps}
use termcp_relay.Cli.Control.{Status}
use termcp_relay.Cli.Account.{AccountError}
use termcp_relay.Windows.Credential.{Handoff, write_credential_file}
use termcp_relay.Windows.Rights.{
  Policy, query_name, split_account, split_at_last, has_nul, lookup_account_sid, sized_lookup,
  grant_service_logon_right, grant_to, add_right, open_local_policy, service_logon_right_held,
}
use termcp_relay.Windows.Rights.Laws.{service_logon_right_held_grant}
use termcp_relay.Windows.State.{ServiceStatus, Scm, opened, stopped, last_start_failed}
use termcp_relay.Windows.CommandLine.{join_args, argv}
use termcp_relay.Windows.CommandLine.Laws.{argv-join_args}
use termcp_relay.Windows.Elevate.{Shell, exited}
use termcp_relay.Windows.Account.{Console}

abbrev pub no_files : Disk
no_files = record {
  files = [];
  refuses_read = λ path. false;
  refuses_write = λ path. false;
  refuses_mkdir = λ path. false;
}

abbrev pub handoff_answers : Handoff
handoff_answers = record {
  temp = some (codes "t");
  chmod_ok = true;
  write_ok = true;
  remove_ok = true;
  left = [];
}

abbrev pub written : Disk
written = (write_credential_file no_files handoff_answers (codes "pw")).1

-- One account with a list of rights.
added : (right : Text) (s : List Text) → member right (right ∷ s) ≡ true
unfolding member
added right s = rw (text_refl right) refl

abbrev policy : Policy
policy = record {
  Store = List Text;
  Sid = Unit;
  computer_name = codes "PC";
  sid_size = λ name. some 28;
  lookup_account = λ name. some tt;
  open_policy = λ access. 0;
  add_rights = λ s sid right. (0, right ∷ s);
  enumerate_rights = λ s sid. (0, s);
  enumerate_rights-add_rights = λ s sid right e. (refl, added right s);
}

service_logon_right_held_grant_example :
    service_logon_right_held policy
      (grant_service_logon_right policy [] (codes "bob")).1
      (codes "bob")
    ≡ ok true
unfolding grant_service_logon_right grant_to add_right lookup_account_sid query_name split_account
    split_at_last cut_last trim_space has_nul sized_lookup open_local_policy
service_logon_right_held_grant_example =
    service_logon_right_held_grant policy [] (codes "bob") refl refl

abbrev pub logon_user : Option Text → Text → Text → Bool
logon_user domain account password = account =t= codes "bob" && password =t= codes "pw"

abbrev failing : ServiceStatus
failing = record { current_state = stopped; win32_exit_code = 1069 }

abbrev scm : Scm
scm = record {
  manager_opens = true;
  open_to_query = λ name. opened;
  query_status = λ name. some failing;
  open_to_read = λ name. opened;
  config_size = λ name. 100;
  service_start_name = λ name. some (codes ".\\bob");
}

abbrev failed_status : Status
failed_status = record {
  name = codes "r";
  installed = true;
  running = false;
  detail = last_start_failed 1069;
}

abbrev tricky_args : List Text
tricky_args = codes "a b" ∷ [] ∷ codes "c\\" ∷ codes "d e\\" ∷ codes "q\"x\\\"y z\\\\" ∷ []

argv-join_args_example : argv (join_args tricky_args) ≡ tricky_args
argv-join_args_example = argv-join_args tricky_args

abbrev pub shell : Shell
shell = record {
  executable = some (codes "x.exe");
  report = some (codes "r");
  execute = λ verb file params d. (exited 3, d);
}

abbrev pub options : Options
options = record {
  name = [];
  config_path = codes "c";
  log_level = [];
  log_file = [];
  work_dir = [];
  system = false;
  user_name = [];
  password = [];
  needs_credential = false;
}

abbrev pub steps : Steps AccountError
steps = record {
  prepare = λ o path. ok o;
  elevation = record {
    elevated = false;
    installed = λ name. some true;
    write_credential_file = λ pw. some (codes "t");
    relaunch_elevated = λ args. some 3;
  };
}

abbrev pub console : Console
console = record {
  is_redirected = true;
  stdin = record { text = codes "pw\r\n"; breaks = false };
  conin_opens = false;
  conin_is_terminal = false;
  stdin_is_terminal = false;
  read_from_conin = none;
  read_from_stdin = none;
}

abbrev named_bob : Options
named_bob = record options { user_name = codes "bob" }

abbrev with_pw : Options
with_pw = record named_bob { password = codes "pw"; needs_credential = true }
