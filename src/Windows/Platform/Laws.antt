-- ===== src/Windows/Platform/Laws.antt =====
-- A service is registered with a password that Windows accepts.
use termcp_relay.Prelude.{
  ◌≡◌, refl, ℕ, Bool, true, false, Option, none, some, Text, is_nil, ok, if◌then◌else◌,
}
use termcp_relay.Strings.{Unicode}
use termcp_relay.Host.Disk.{Disk}
use termcp_relay.Cli.Options.{Options}
use termcp_relay.Cli.Account.{resolve_account, from_file}
use termcp_relay.Dict.{lookup}
use termcp_relay.Windows.Account.{Console}
use termcp_relay.Windows.Credential.{Handoff, write_credential_file, read_credential_file}
use termcp_relay.Windows.Credential.Laws.{SameFiles, read_credential_file-write_credential_file}
use termcp_relay.Windows.Rights.{split_account}
use termcp_relay.Windows.Platform.{windows_accounts}

-- LogonUserW accepts the password for this account, which has a name.
pub record IsAccepted (logon_user : Option Text → Text → Text → Bool) (user password : Text)
    : Type 0 where
  pub has_name : is_nil (split_account user).1 ≡ false
  pub logs_on :
      let domain = (split_account user).0 in
      logon_user (if is_nil domain then none else some domain) (split_account user).1 password
      ≡ true

-- The password that one process writes to a new file, which has a name and can be read, is the one
-- with which the elevated process goes on, whatever its options say of a password, and all files are
-- then as they were before.
pub resolve_account-write_credential_file :
    ⦃u : Unicode⦄ (token : Option (Text × Text)) (console : ℕ → Console)
    (logon_user : Option Text → Text → Text → Bool) (d d' : Disk) (h : Handoff) (o : Options)
    (password path : Text)
    → write_credential_file d h password ≡ (some path, d')
    → lookup path d.files ≡ none
    → d.refuses_read path ≡ false
    → is_nil path ≡ false
    → (resolve_account (windows_accounts token console logon_user d') o path
        ≡ ok (record o { password = password; needs_credential = false }))
      × SameFiles d (read_credential_file d' path).1
unfolding windows_accounts resolve_account from_file
resolve_account-write_credential_file token console logon_user d d' h o password path e fresh
      readable has_name =
    let handed = read_credential_file-write_credential_file d d' h password path e fresh readable in
    (rw (has_name, handed.0) refl, handed.1)
