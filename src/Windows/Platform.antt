-- ===== src/Windows/Platform.antt =====
-- The accounts and the service manager of the subcommand, as the files for Windows answer for them.
pub mod Laws
use termcp_relay.Prelude.{ℕ, Bool, true, false, Option, none, some, Text, Result, ok, err}
use termcp_relay.Host.Disk.{Disk}
use termcp_relay.Cli.Account.{Accounts}
use termcp_relay.Windows.Credential.{read_credential_file}
use termcp_relay.Windows.Account.{Console, prompt_password, current_user_token}
use termcp_relay.Windows.Rights.{LogonError, verify_logon}

-- `err == nil`
abbrev pub succeeds : Option LogonError → Bool
succeeds none = true
succeeds (some e) = false

-- The accounts, given the token of the process, the console at each attempt, the answers of
-- LogonUserW and the disk.
unfoldable pub windows_accounts :
    Option (Text × Text) → (ℕ → Console) → (Option Text → Text → Text → Bool) → Disk → Accounts
unfolding prompt_password current_user_token verify_logon read_credential_file
windows_accounts token console logon_user d = record {
  on_windows = true;
  current_user_token = current_user_token token;
  prompt_password = λ user attempt. prompt_password (console attempt);
  verify_logon = λ user password. succeeds (verify_logon logon_user user password);
  read_credential_file = λ path. (read_credential_file d path).0;
}
