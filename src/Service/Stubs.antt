-- ===== src/Service/Stubs.antt =====
-- internal/service/stubs_other.go: the platform's answers where it is not Windows, and `logonFailure`
-- of both platforms.
pub mod Laws
use termcp_relay.Prelude.{
  ℕ, Bool, true, false, List, [], ◌∷◌, Option, none, some, if◌then◌else◌, Text, any, ◌==◌, ◌||◌,
  Result, err,
}
use termcp_relay.Cli.Account.{Accounts}
use termcp_relay.Cli.Elevate.{Elevation}
use termcp_relay.Cli.Control.{Manager, Failure, logon_failure, other_failure}

-- Accounts off Windows.
unfoldable pub other_accounts : Accounts
other_accounts = record {
  on_windows = false;
  current_user_token = some [];
  prompt_password = λ user i. some [];
  verify_logon = λ user password. true;
  read_credential_file = λ path. some [];
}

-- `elevated` and `relaunchElevated` off Windows, and what `Query` finds.
unfoldable pub other_elevation : (Text → Option Bool) → Elevation
other_elevation installed = record {
  elevated = true;
  installed = installed;
  write_credential_file = λ password. some [];
  relaunch_elevated = λ args. none;
}

-- The rights of accounts off Windows, beside what the service manager answers.
unfoldable pub other_manager : Manager → Manager
other_manager m = record m {
  on_windows = false;
  service_account_name = λ name. some [];
  logon_right_held = λ account. some true;
  grant_logon_right = λ account. true;
}

-- ERROR_LOGON_FAILURE, ERROR_SERVICE_LOGON_FAILED, ERROR_INVALID_PASSWORD, ERROR_ACCOUNT_EXPIRED and
-- ERROR_PASSWORD_EXPIRED.
abbrev pub logon_errors : List ℕ
logon_errors = 1326 ∷ 1069 ∷ 86 ∷ 1793 ∷ 1330 ∷ []

-- `logonFailure` on Windows, of an error with the system's codes in its chain.
unfoldable pub logon_failure_windows : List ℕ → Failure
logon_failure_windows chain =
    if any (λ code. any (λ known. code == known) logon_errors) chain
    then logon_failure
    else other_failure

-- `logonFailure` off Windows.
unfoldable pub logon_failure_other : List ℕ → Failure
logon_failure_other chain = other_failure
