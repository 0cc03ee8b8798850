-- ===== src/Cli/Control.antt =====
-- `control`, `grantLogonRightAndRetry`, `install` and `printStatus`: what the service manager is
-- asked to do, in turn, and the exit code.
pub mod Laws
use termcp_relay.Prelude.{
  ℕ, Bool, true, false, not, ◌&&◌, ◌||◌, List, [], ◌∷◌, Option, none, some, if◌then◌else◌, Text,
  codes, ◌=t=◌, is_nil, ◌==◌, Result, ok, err,
}
use termcp_relay.Strings.{Unicode, is_blank, trim_space}
use termcp_relay.Cli.Options.{Options, default_name, service_name, validate_options}
use termcp_relay.Cli.Account.{builtin_service_account}

-- The type `Status` of internal/service/service.go.
pub record Status : Type 0 where
  pub name : Text
  pub installed : Bool
  pub running : Bool
  pub detail : Text

-- An error that `logonFailure` knows, or another.
pub data Failure : Type 0 where
  logon_failure other_failure : Failure

pub data QueryError : Type 0 where
  no_service_system query_failed : QueryError

-- What the platform answers; `start_again` is the answer to a start after the first, and `is_running`
-- is `none` where `Status` of the service reports an error.
pub record Manager : Type 0 where
  pub on_windows : Bool
  pub created : Bool
  pub query_service : Text → Result QueryError Status
  pub is_running : Option Bool
  pub install_error : Option Failure
  pub start_error : Option Failure
  pub start_again_error : Option Failure
  pub stop_error : Option Failure
  pub uninstall_error : Option Failure
  pub restart_error : Option Failure
  pub service_account_name : Text → Option Text
  pub logon_right_held : Text → Option Bool
  pub grant_logon_right : Text → Bool

-- What the service manager, or the store of rights, is asked to do.
pub data Call : Type 0 where
  install_service start_service stop_service uninstall_service restart_service : Call
  grant_right : Text → Call

abbrev pub Run : Type 0
Run = List Call × ℕ

-- `if err != nil { return fail(err) }`, and 0 at the end.
abbrev pub exit_code : Option Failure → ℕ
exit_code none = 0
exit_code (some e) = 1

-- `Query`
unfoldable pub query : Manager → Text → Result QueryError Status
query m name = m.query_service (trim_space (if is_blank name then default_name else name))

-- `err == nil && !st.Installed`
abbrev pub is_missing : Result QueryError Status → Bool
is_missing (ok st) = not st.installed
is_missing (err e) = false

-- `err == nil && held`, and `err == nil && st == kservice.StatusRunning`
abbrev pub is_held : Option Bool → Bool
is_held none = false
is_held (some held) = held

-- The case "uninstall" of `control`.
unfoldable pub uninstall : Manager → Run
uninstall m =
    if not (is_held m.is_running)
    then (uninstall_service ∷ [], exit_code m.uninstall_error)
    else elim m.stop_error [
      | some e ↦ (stop_service ∷ [], 1)
      | none ↦ (stop_service ∷ uninstall_service ∷ [], exit_code m.uninstall_error)
    ]

module _ ⦃u : Unicode⦄ where
  -- The account to which `grantLogonRightAndRetry` and `install` grant the right.
  unfoldable pub grantee : Option Text → Option Text
  grantee none = none
  grantee (some account) =
      if is_nil account || builtin_service_account account then none else some account

  -- `grantLogonRightAndRetry`, for the account to which the right may be granted: what it does, and
  -- whether it returns no error.
  unfoldable pub retry_as : Manager → Option Text → List Call × Bool
  retry_as m none = ([], false)
  retry_as m (some account) =
      if is_held (m.logon_right_held account)
      then ([], false)
      else if not (m.grant_logon_right account)
      then (grant_right account ∷ [], false)
      else (grant_right account ∷ start_service ∷ [], exit_code m.start_again_error == 0)

  unfoldable pub grant_logon_right_and_retry : Manager → Text → List Call × Bool
  grant_logon_right_and_retry m name = retry_as m (grantee (m.service_account_name name))

  -- The case "start" of `control`, from the answer to the first start on.
  unfoldable pub start_from : Option Failure → List Call × Bool → Run
  start_from none retry = (start_service ∷ [], 0)
  start_from (some logon_failure) retry = (start_service ∷ retry.0, if retry.1 then 0 else 1)
  start_from (some other_failure) retry = (start_service ∷ [], 1)

  unfoldable pub start : Manager → Text → Run
  start m name = start_from m.start_error (grant_logon_right_and_retry m name)

  -- `install`: the right is granted after the service is registered, and its failure is a warning.
  unfoldable pub install : Manager → Options → Run
  install m o =
      if not (validate_options m.on_windows o) || not m.created
      then ([], 1)
      else elim m.install_error [
        | some e ↦ (install_service ∷ [], 1)
        | none ↦ (
          install_service ∷ elim (grantee (some o.user_name)) [
            | none ↦ []
            | some account ↦ grant_right account ∷ []
          ],
          0,
        )
      ]

  -- The exit code of `printStatus`.
  unfoldable pub print_status : Manager → Options → ℕ
  print_status m o = elim (query m (service_name o)) [
    | err no_service_system ↦ 0
    | err query_failed ↦ 1
    | ok st ↦ 0
  ]

  -- `control`
  unfoldable pub control : Manager → Text → Options → Run
  control m action o =
      let name = service_name o in
      if action =t= codes "status"
      then ([], print_status m o)
      else if not (validate_options m.on_windows o) || not m.created
      then ([], 1)
      else if is_missing (query m name)
      then ([], 0)
      else if action =t= codes "uninstall"
      then uninstall m
      else if action =t= codes "start"
      then start m name
      else if action =t= codes "stop"
      then (stop_service ∷ [], exit_code m.stop_error)
      else if action =t= codes "restart"
      then (restart_service ∷ [], exit_code m.restart_error)
      else ([], 0)
