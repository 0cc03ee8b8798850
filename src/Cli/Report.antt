-- ===== src/Cli/Report.antt =====
-- What `printStatus` and `install` print: the state of the service, and what to do about it.
pub mod Laws
use termcp_relay.Prelude.{
  ℕ, Bool, true, false, not, ◌&&◌, ◌||◌, List, [], ◌∷◌, ◌++◌, Option, none, some, if◌then◌else◌,
  Text, codes, is_nil, Result, ok, err,
}
use termcp_relay.Strings.{Unicode}
use termcp_relay.Ssh.Session.{Os, windows, linux, darwin, other_unix}
use termcp_relay.Cli.Options.{Options, service_name, name_flag}
use termcp_relay.Cli.Account.{builtin_service_account}
use termcp_relay.Cli.Control.{
  Status, QueryError, no_service_system, query_failed, Manager, grantee, query,
}

-- The machine, with what `hasOsctl` and `dirExists` find.
pub record Host : Type 0 where
  pub system : Os
  pub has_systemctl : Bool
  pub has_init_dir : Bool

-- `manualCheckHint`
unfoldable pub hint_on : Os → Host → Text → Text
hint_on windows h name = codes "sc query " ++ name
hint_on darwin h name = codes "launchctl list | grep " ++ name
hint_on linux h name =
    if h.has_systemctl
    then codes "systemctl status " ++ name
    else if h.has_init_dir
    then codes "/etc/init.d/" ++ name ++ codes " status"
    else []
hint_on other_unix h name = []

unfoldable pub manual_check_hint : Host → Text → Text
unfolding hint_on
manual_check_hint h name = hint_on h.system h name

-- The lines that are printed, with what each names.
pub data Line : Type 0 where
  unknown_state run_in_foreground : Text → Line
  not_installed install_with : Text → Line
  is_running is_stopped : Text → Line
  not_running : Text → Text → Line
  configured_account lacks_right check_with : Text → Line

-- The switch on the status.
unfoldable pub state_lines : Options → Status → List Line
state_lines o st =
    if not st.installed
    then not_installed st.name ∷ install_with o.config_path ∷ []
    else if st.running
    then is_running st.name ∷ []
    else if not (is_nil st.detail)
    then not_running st.name st.detail ∷ []
    else is_stopped st.name ∷ []

-- The warning that an account lacks the right, unless that cannot be told.
unfoldable pub right_lines : Text → Option Bool → List Line
right_lines account (some false) = lacks_right account ∷ []
right_lines account (some true) = []
right_lines account none = []

unfoldable pub hint_lines : Text → List Line
hint_lines hint = if is_nil hint then [] else check_with hint ∷ []

module _ ⦃u : Unicode⦄ where
  unfoldable pub account_lines : Manager → Option Text → List Line
  unfolding right_lines
  account_lines m none = []
  account_lines m (some account) =
      let warning = right_lines account (m.logon_right_held account) in
      if is_nil account
      then []
      else configured_account account ∷ (if builtin_service_account account then [] else warning)

  -- The lines behind the state, of a service that is installed.
  unfoldable pub more_lines : Manager → Host → Options → Status → List Line
  unfolding account_lines hint_lines manual_check_hint
  more_lines m h o st =
      if st.installed
      then account_lines m (m.service_account_name (service_name o))
        ++ hint_lines (manual_check_hint h st.name)
      else []

  -- What is printed of a status.
  unfoldable pub status_lines : Manager → Host → Options → Status → List Line
  unfolding state_lines more_lines
  status_lines m h o st = state_lines o st ++ more_lines m h o st

  unfoldable pub queried_lines : Manager → Host → Options → Result QueryError Status → List Line
  unfolding status_lines
  queried_lines m h o (err no_service_system) =
      unknown_state (service_name o) ∷ run_in_foreground o.config_path ∷ []
  queried_lines m h o (err query_failed) = []
  queried_lines m h o (ok st) = status_lines m h o st

  -- `printStatus`, without its exit code.
  unfoldable pub printed : Manager → Host → Options → List Line
  unfolding queried_lines query
  printed m h o = queried_lines m h o (query m (service_name o))

-- `accountDisplay`
unfoldable pub account_display : Bool → Options → Text
account_display on_windows o =
    if not (is_nil o.user_name)
    then o.user_name
    else if on_windows
    then codes "LocalSystem (SYSTEM)"
    else codes "root"

-- The lines that `install` prints, with what each names.
pub data InstallLine : Type 0 where
  grant_failed installed uses_config logs_to runs_as starts_in : Text → InstallLine
  shell_warning start_with status_with : Text → InstallLine

abbrev unless_empty : (Text → InstallLine) → Text → List InstallLine
unless_empty line text = if is_nil text then [] else line text ∷ []

-- The warning that the right is not granted.
unfoldable pub grant_lines : Manager → Option Text → List InstallLine
grant_lines m none = []
grant_lines m (some account) = if m.grant_logon_right account then [] else grant_failed account ∷ []

module _ ⦃u : Unicode⦄ where
  -- What `install` prints once the service is registered.
  unfoldable pub install_lines : Manager → Options → List InstallLine
  unfolding account_display grant_lines
  install_lines m o =
      grant_lines m (grantee (some o.user_name))
      ++ (installed (service_name o)
          ∷ uses_config o.config_path
          ∷ (unless_empty logs_to o.log_file
              ++ (runs_as (account_display m.on_windows o)
                  ∷ (unless_empty starts_in o.work_dir
                      ++ (shell_warning (account_display m.on_windows o)
                          ∷ start_with (name_flag o)
                          ∷ status_with (name_flag o)
                          ∷ [])))))
