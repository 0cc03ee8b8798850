-- ===== src/Windows/Handover/Resumes.antt =====
-- The process that the handover launches goes on as the one that asked for it, and finds the password.
use termcp_relay.Prelude.{
  is_nil, Option, ◌≡◌, ◌≢◌, ◌⊎◌, refl, sym, ap, ◌∙◌, inl, inr, ℕ, Bool, true, false, not, ◌&&◌,
  List, [], ◌∷◌, ◌++◌, some, Text, Result, ok, err, arith, text_iff,
}
use termcp_relay.Strings.{Unicode, is_blank}
use termcp_relay.Cli.Account.{resolve_account, from_file}
use termcp_relay.Windows.Account.{Console}
use termcp_relay.Windows.Platform.{windows_accounts}
use termcp_relay.Dict.{member, lookup-insert}
use termcp_relay.Host.Disk.{Disk, File, read_file}
use termcp_relay.Cli.Options.{Options}
use termcp_relay.Cli.Args.{child_args, child_flags, credential_flag, elevated_output_flag}
use termcp_relay.Cli.Args.Hidden.{Avoids}
use termcp_relay.Cli.Command.{Steps, help_names}
use termcp_relay.Cli.Command.Laws.{IsPlain}
use termcp_relay.Windows.Credential.{
  create_temp, write_credential_file, password_read, read_credential_file,
}
use termcp_relay.Windows.Credential.Laws.{created}
use termcp_relay.Windows.Elevate.{ElevateError, relaunch_elevated}
use termcp_relay.Windows.Elevate.Laws.{Resumed, relaunch_elevated_resumes}
use termcp_relay.Windows.Handover.Laws.{remove_after_stop}
use termcp_relay.Windows.Handover.{
  Machine, code_of, handover_of, relaunch_with_file, relaunch_on, maybe_elevate_on,
}

code_of-cases :
    (r : Result ElevateError ℕ) (code : ℕ) → code_of r ≡ code → (code ≡ 1) ⊎ (r ≡ ok code)
unfolding code_of
code_of-cases (ok c) code e = inr (ap ok e)
code_of-cases (err error) code e = inl (sym e)

-- A file is read as it was written, also once another file is made.
read-create_temps :
    (d : Disk) (path text other : Text)
    → d.refuses_read path ≡ false
    → other ≢ path
    → (read_credential_file (create_temp (create_temp d path text) other []) path).0 ≡ some text
unfolding read_credential_file password_read read_file create_temp
read-create_temps d path text other readable differ =
    let file : File = record { content = text; mode = 0o600 } in
    let report : File = record { content = []; mode = 0o600 } in
    ground (
      arith,
      lookup-insert path path file d.files,
      lookup-insert other path report (create_temp d path text).files,
      text_iff path path,
      text_iff other path,
    )

-- The process that was launched: the subcommand it was asked for, and the account it settles on.
pub record Handed {E : Type 0} (m : Machine) (d' : Disk) (steps : Steps E) (action : Text)
    (o : Options) (file : Text) (code : ℕ) : Type 0 where
  pub resumed : Resumed m.shell d' steps action o (some file) code
  pub settles :
      ⦃u : Unicode⦄ (token : Option (Text × Text)) (console : ℕ → Console)
      (logon_user : Option Text → Text → Text → Bool) (told : Options)
      → let launched = create_temp d' resumed.path [] in
        resolve_account (windows_accounts token console logon_user launched) told file
        ≡ ok (record told { password = o.password; needs_credential = false })

relaunch_on_code :
    (m : Machine) (d d' : Disk) (child : List Text) (o : Options) (file : Text)
    → write_credential_file d m.handoff o.password ≡ (some file, d')
    → o.needs_credential ≡ true
    → (relaunch_on m d child o).stop
      ≡ some
          (code_of (relaunch_elevated m.shell d' (child ++ (credential_flag ∷ file ∷ []))).result)
unfolding relaunch_on relaunch_with_file handover_of
relaunch_on_code m d d' child o file w needs = rw (needs, w) (remove_after_stop m file _)

stopped_with :
    (m : Machine) (d d' : Disk) (action : Text) (o : Options) (told : Bool) (file : Text) (code : ℕ)
    → write_credential_file d m.handoff o.password ≡ (some file, d')
    → o.needs_credential ≡ true
    → (maybe_elevate_on m d action o told).stop ≡ some code
    → code_of
        (relaunch_elevated m.shell d' (child_args action o ++ (credential_flag ∷ file ∷ []))).result
      ≡ code
unfolding maybe_elevate_on
stopped_with m d d' action o told file code w needs e =
    ground (arith, relaunch_on_code m d d' (child_args action o) o file w needs)

-- The launched process finds the password.
read-launched :
    (m : Machine) (d d' : Disk) (password file report : Text)
    → write_credential_file d m.handoff password ≡ (some file, d')
    → d.refuses_read file ≡ false
    → report ≢ file
    → (read_credential_file (create_temp d' report []) file).0 ≡ some password
read-launched m d d' password file report w readable differ =
    rw (created d d' m.handoff password file w)
      (read-create_temps d file password report readable differ)

settled :
    ⦃u : Unicode⦄ (token : Option (Text × Text)) (console : ℕ → Console)
    (logon_user : Option Text → Text → Text → Bool) (d : Disk) (told : Options)
    (file password : Text)
    → is_nil file ≡ false
    → (read_credential_file d file).0 ≡ some password
    → resolve_account (windows_accounts token console logon_user d) told file
      ≡ ok (record told { password = password; needs_credential = false })
unfolding windows_accounts resolve_account from_file
settled token console logon_user d told file password has_name reads = rw (has_name, reads) refl

-- If a handover with a password stops the caller with a code, then either the code is 1, that of
-- an error, or the process that was launched ended with it, or there was no handle of that process
-- and the code is 0; and this process takes the same action
-- with the options that the caller had, and settles on the caller's password, which it reads from
-- the file that it is told, whatever its own options say of a password. No option and no file is
-- spelled like a hidden flag, the file has a name and can be read, the report is another file, the
-- action is no call for help, and there is no account beside `--system`.
pub maybe_elevate_on_resumes :
    {E : Type 0} (m : Machine) (d d' : Disk) (steps : Steps E) (action : Text) (o : Options)
    (told : Bool) (file : Text) (code : ℕ)
    → write_credential_file d m.handoff o.password ≡ (some file, d')
    → o.needs_credential ≡ true
    → Avoids credential_flag (action ∷ child_flags o)
    → Avoids elevated_output_flag (action ∷ child_flags o)
    → IsPlain (some file)
    → is_nil file ≡ false
    → m.shell.report ≢ some file
    → d.refuses_read file ≡ false
    → member action help_names ≡ false
    → (o.system && not (is_blank o.user_name)) ≡ false
    → (maybe_elevate_on m d action o told).stop ≡ some code
    → (code ≡ 1) ⊎ Handed m d' steps action o file code
maybe_elevate_on_resumes m d d' steps action o told file code w needs no_credential no_output plain
      has_name apart readable known exclusive e =
    elim (code_of-cases _ code (stopped_with m d d' action o told file code w needs e)) [
      | inl failed ↦ inl failed
      | inr ran ↦
          let resumed =
            relaunch_elevated_resumes m.shell d' steps action o (some file) code no_credential
              no_output plain known exclusive ran in
          let reads =
            read-launched m d d' o.password file resumed.path w readable
              (λ same. apart (resumed.reported ∙ ap some same)) in
          inr (record {
            resumed = resumed;
            settles = λ token console logon_user asked.
                settled token console logon_user _ asked file o.password has_name reads;
          })
    ]
