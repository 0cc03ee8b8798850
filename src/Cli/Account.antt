-- ===== src/Cli/Account.antt =====
-- `resolveAccount`: the account of a Windows service, and its password. The console, the check of a
-- password and the file of a password are what other parts of the package answer.
pub mod Laws
use termcp_relay.Prelude.{
  ℕ, zero, suc, ◌+◌, Bool, true, false, not, ◌&&◌, ◌||◌, List, [], ◌∷◌, Option, none, some,
  if◌then◌else◌, Text, codes, is_nil, Result, ok, err, ◌>>=◌, of_option,
}
use termcp_relay.Strings.{Unicode, to_upper, equal_fold, trim_space}
use termcp_relay.Dict.{member}
use termcp_relay.Cli.Options.{Options}

-- What the package asks of the machine: the account that runs the command, the password that is
-- entered at a prompt, by the number of the attempt, whether an account can log on with a password,
-- and the password that a file holds.
pub record Accounts : Type 0 where
  pub on_windows : Bool
  pub current_user_token : Option Text
  pub prompt_password : Text → ℕ → Option Text
  pub verify_logon : Text → Text → Bool
  pub read_credential_file : Text → Option Text

pub data AccountError : Type 0 where
  credential_file current_account : AccountError
  no_valid_password : Text → AccountError

abbrev attempts : ℕ
attempts = 3

-- The loop of `promptVerifiedPassword`, with the attempts left and the number of the next.
unfoldable pub prompt_loop : Accounts → Text → ℕ → ℕ → Option Text
prompt_loop m user zero i = none
prompt_loop m user (suc left) i =
    let again = prompt_loop m user left (suc i) in
    elim (m.prompt_password user i) [
      | none ↦ none
      | some pw ↦ if m.verify_logon user pw then some pw else again
    ]

-- `promptVerifiedPassword`
unfoldable pub prompt_verified_password : Accounts → Text → Option Text
prompt_verified_password m user = prompt_loop m user attempts 1

abbrev pub builtin_names : List Text
builtin_names =
    codes "LOCALSYSTEM"
    ∷ codes "NT AUTHORITY\\SYSTEM"
    ∷ codes "SYSTEM"
    ∷ codes "LOCALSERVICE"
    ∷ codes "NT AUTHORITY\\LOCALSERVICE"
    ∷ codes "NETWORKSERVICE"
    ∷ codes "NT AUTHORITY\\NETWORKSERVICE"
    ∷ []

module _ ⦃u : Unicode⦄ where
  -- `builtinServiceAccount`
  unfoldable pub builtin_service_account : Text → Bool
  builtin_service_account name = member (to_upper (trim_space name)) builtin_names

  -- The names of LocalSystem in the second test of `resolveAccount`.
  unfoldable pub is_local_system : Text → Bool
  is_local_system user =
      equal_fold user (codes "system")
      || equal_fold user (codes "NT AUTHORITY\\SYSTEM")
      || equal_fold user (codes "LocalSystem")

  -- The end of `resolveAccount`, for an account that has a password.
  unfoldable pub with_password : Accounts → Text → Options → Result AccountError Options
  with_password m user o = do
    pw ← of_option (no_valid_password user) (prompt_verified_password m user)
    ok (record o { password = pw; needs_credential = true })

  -- The branch of `--user current`.
  unfoldable pub by_token : Accounts → Options → Result AccountError Options
  by_token m o = do
    token ← of_option current_account m.current_user_token
    with_password m token (record o { user_name = token })

  -- The part of `resolveAccount` after the credential file, with `user` the name without blanks.
  unfoldable pub choose_account : Accounts → Text → Options → Result AccountError Options
  choose_account m user o =
      if is_nil user || o.system || builtin_service_account user
      then if builtin_service_account user && not (is_local_system user)
        then ok (record o { password = [] })
        else ok (record o { user_name = []; password = [] })
      else if equal_fold user (codes "current")
      then by_token m o
      else with_password m user o

  -- The branch of the elevated process, which has the password in a file.
  unfoldable pub from_file : Accounts → Text → Options → Result AccountError Options
  from_file m cred_path o = do
    pw ← of_option credential_file (m.read_credential_file cred_path)
    ok (record o { password = pw; needs_credential = false })

  -- `resolveAccount`
  unfoldable pub resolve_account : Accounts → Options → Text → Result AccountError Options
  resolve_account m o cred_path =
      if not m.on_windows
      then ok o
      else if not (is_nil cred_path)
      then from_file m cred_path o
      else choose_account m (trim_space o.user_name) o
