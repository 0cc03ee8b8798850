-- ===== src/Tests/Handover.antt =====
-- The handover of a password to the process that is launched with more rights.
use termcp_relay.Prelude.{
  ◌≡◌, refl, ◌⊎◌, ℕ, true, false, Option, none, some, Text, codes, arith, ◌=t=◌, subst,
}
use termcp_relay.Dict.{member, lookup, insert}
use termcp_relay.Cli.Options.{Options}
use termcp_relay.Cli.Elevate.{requires_admin}
use termcp_relay.Windows.Credential.{fill, write_credential_file}
use termcp_relay.Windows.Credential.Laws.{SameFiles}
use termcp_relay.Windows.Elevate.{
  cancelled, exit_of, params_of, shell_execute_ex, elevate_result, relaunch_with, relaunch_found,
  relaunch_elevated,
}
use termcp_relay.Windows.Rights.{has_nul}
use termcp_relay.Windows.CommandLine.{join_args}
use termcp_relay.Strings.{ascii, is_blank, trim_space, to_upper, equal_fold}
use termcp_relay.Cli.Args.{child_args, child_flags}
use termcp_relay.Windows.Handover.{
  Machine, Handover, maybe_elevate_on, relaunch_on, relaunch_with_file, remove_after, handover_of,
  code_of,
}
use termcp_relay.Windows.Handover.Declined.{maybe_elevate_on_declined}
use termcp_relay.Windows.Handover.Resumes.{Handed, maybe_elevate_on_resumes}
use termcp_relay.Host.Paths.{rooted}
use termcp_relay.Windows.Handover.Secret.{observing, maybe_elevate_on_blind}
use termcp_relay.Windows.Handover.Installs.{Registers, install-Registers}
use termcp_relay.Config.Load.{load, load_abs}
use termcp_relay.Config.Validate.{validate}
use termcp_relay.Config.Normalize.{normalize}
use termcp_relay.Config.Address.{is_loopback, split_host_port}
use termcp_relay.Cli.Account.{
  prompt_loop, prompt_verified_password, builtin_service_account, with_password, choose_account,
  resolve_account,
}
use termcp_relay.Cli.Install.{resolve_config_path, resolve_log, resolve_dir, prepare_install}
use termcp_relay.Tests.Cli.{accounts, prepared, there, decode_local}
use termcp_relay.Tests.Cli as OnCli
use termcp_relay.Tests.Windows.{
  console, logon_user, no_files, handoff_answers, shell, options, steps, written,
}

abbrev machine : Machine
machine = record {
  elevated = false;
  installed = λ name. some false;
  handoff = handoff_answers;
  shell = shell;
}

abbrev with_pw : Options
with_pw = record options { password = codes "pw"; needs_credential = true }

-- The process is launched, ends with 3, and its exit code is that of the caller.
abbrev handed_over : Handover
handed_over = maybe_elevate_on machine no_files (codes "install") with_pw false

abbrev declining : Machine
declining = record machine {
  shell = record shell { execute = λ verb file params d. (cancelled, d) };
}

none_there : (path : Text) → shell.report ≡ some path → lookup path written.files ≡ none
unfolding write_credential_file fill lookup insert ◌=t=◌
none_there path e =
    let same : codes "r" ≡ path = ground arith in
    subst (λ p. lookup p written.files ≡ none) same refl

maybe_elevate_on_declined_example :
    SameFiles no_files (maybe_elevate_on declining no_files (codes "install") with_pw false).disk
unfolding lookup
maybe_elevate_on_declined_example =
    maybe_elevate_on_declined declining no_files (codes "install") with_pw false
      (record { declined = λ verb file args d. refl })
      (record { credential = λ path e. refl; report = none_there }) refl

maybe_elevate_on_resumes_example :
    (◌≡◌ {A = ℕ} 3 1) ⊎ Handed machine written steps (codes "install") with_pw (codes "t") 3
unfolding ◌=t=◌ child_flags child_args member is_blank write_credential_file fill maybe_elevate_on
    relaunch_on relaunch_with_file remove_after handover_of code_of relaunch_elevated relaunch_found
    relaunch_with shell_execute_ex params_of exit_of elevate_result has_nul join_args requires_admin
maybe_elevate_on_resumes_example =
    maybe_elevate_on_resumes machine no_files written steps (codes "install") with_pw false
      (codes "t") 3 refl refl (refl, (refl, (refl, tt))) (refl, (refl, (refl, tt))) refl refl
      (λ e. ground arith) refl refl refl refl

-- `bob` installs the service with a password, through the prompt.
install-Registers_example :
    (◌≡◌ {A = ℕ} 3 1)
    ⊎ Registers rooted there decode_local
        (some (codes "/home"))
        none
        (λ attempt. console)
        logon_user
        machine
        written
        steps.elevation
        prepared
        (codes "r")
        3
unfolding ◌=t=◌ child_flags child_args member is_blank write_credential_file fill maybe_elevate_on
    relaunch_on relaunch_with_file remove_after handover_of code_of relaunch_elevated relaunch_found
    relaunch_with shell_execute_ex params_of exit_of elevate_result has_nul join_args requires_admin
    prepare_install resolve_config_path load load_abs validate normalize is_loopback split_host_port
    resolve_log resolve_dir resolve_account choose_account with_password trim_space
    builtin_service_account to_upper equal_fold prompt_verified_password prompt_loop
install-Registers_example =
    install-Registers rooted there decode_local (some (codes "/home")) none (λ attempt. console)
      logon_user accounts machine no_files written steps.elevation OnCli.options prepared
      (codes "t") (codes "r") 3 refl refl refl refl refl
      (refl, (refl, (refl, (refl, (refl, (refl, (refl, (refl, (refl, tt)))))))))
      (refl, (refl, (refl, (refl, (refl, (refl, (refl, (refl, (refl, tt))))))))) refl refl refl
      (λ e. ground arith) refl refl

-- An observer of the command lines that tells them apart by whether there are arguments.
abbrev observer : Text → Text → Option Text → ℕ
observer verb file none = 0
observer verb file (some params) = 3

maybe_elevate_on_blind_example :
    (maybe_elevate_on (observing observer machine) no_files (codes "install") with_pw false).stop
    ≡ (maybe_elevate_on
        (observing observer machine)
        no_files
        (codes "install")
        (record with_pw { password = codes "other" })
        false).stop
maybe_elevate_on_blind_example =
    maybe_elevate_on_blind observer machine no_files (codes "install") with_pw false (codes "other")
