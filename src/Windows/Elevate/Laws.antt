-- ===== src/Windows/Elevate/Laws.antt =====
-- The process that is launched with more rights reads the arguments that it was meant to, and goes
-- on as the one that launched it.
use termcp_relay.Prelude.{
  ◌≡◌, refl, sym, ap, ◌∙◌, ℕ, true, false, not, ◌&&◌, ◌||◌, List, [], ◌∷◌, ◌++◌, Option, none, some,
  codes, Text, ◌=t=◌, Result, ok, err, ok_injective, ◌⊎◌, arith, Bool-cases, inl, inr, text_refl,
}
use termcp_relay.Dict.{lookup, lookup-remove, member}
use termcp_relay.Strings.{is_blank}
use termcp_relay.Host.Disk.{Disk, read_file, remove_file}
use termcp_relay.Main.{services, main_request}
use termcp_relay.Cli.Options.{Options}
use termcp_relay.Cli.Args.{elevated_output_flag, credential_flag, child_flags, child_args}
use termcp_relay.Cli.Args.Hidden.{Avoids}
use termcp_relay.Cli.Flags.{options_of}
use termcp_relay.Cli.Flags.Laws.{flags_of}
use termcp_relay.Cli.Command.{Steps, command, run_action, help_names}
use termcp_relay.Cli.Command.Laws.{handoff, handed, IsPlain, command-child_flags}
use termcp_relay.Windows.Rights.{has_nul}
use termcp_relay.Windows.Credential.{create_temp}
use termcp_relay.Windows.CommandLine.{join_args, argv}
use termcp_relay.Windows.CommandLine.Laws.{argv-join_args}
use termcp_relay.Windows.Elevate.{
  Launch, cancelled, not_started, no_handle, wait_failed, exited, Shell, ShellError, nul_in_text,
  was_cancelled, other_error, has_nul_opt, exit_of, params_of, shell_execute_ex, elevate_result,
  replayed, Relaunch, child_command, relaunch_with, relaunch_found, relaunch_elevated,
}

-- What a launch was: the command line that the program was started with, which reads as these
-- arguments; the process ended with the code, and its report was replayed and removed.
pub record Launched (m : Shell) (d : Disk) (args : List Text) (code : ℕ) (r : Relaunch)
    : Type 0 where
  pub exe : Text
  pub path : Text
  pub line : Text
  pub reported : m.report ≡ some path
  pub reads : argv line ≡ child_command args path
  pub exited :
      let answer = m.execute (codes "runas") exe (some line) (create_temp d path []) in
      (exit_of answer.0 ≡ ok code) × (r.output ≡ replayed (read_file answer.1 path))
  pub removed : lookup path r.disk.files ≡ none

params_of-child_command :
    (args : List Text) (path : Text)
    → params_of (child_command args path) ≡ some (join_args (child_command args path))
unfolding params_of
params_of-child_command [] path = refl
params_of-child_command (a ∷ args) path = refl

ran :
    (m : Shell) (d : Disk) (verb file : Text) (args : List Text) (code : ℕ)
    → (shell_execute_ex m d verb file args).0 ≡ ok code
    → let answer = m.execute verb file (params_of args) d in
      shell_execute_ex m d verb file args ≡ (exit_of answer.0, answer.1)
unfolding shell_execute_ex
ran m d verb file args code e =
    elim (Bool-cases (has_nul verb || has_nul file || has_nul_opt (params_of args))) [
      | inl bad ↦ absurd (ground arith)
      | inr good ↦ rw good refl
    ]

elevate_result-eq-ok :
    (r : Result ShellError ℕ) (code : ℕ) → elevate_result r ≡ ok code → r ≡ ok code
unfolding elevate_result
elevate_result-eq-ok (ok c) code e = ground arith
elevate_result-eq-ok (err nul_in_text) code e = absurd (ground arith)
elevate_result-eq-ok (err was_cancelled) code e = absurd (ground arith)
elevate_result-eq-ok (err other_error) code e = absurd (ground arith)

pub remove_file_removes : (d : Disk) (path : Text) → lookup path (remove_file d path).files ≡ none
unfolding remove_file
remove_file_removes d path = lookup-remove path path d.files ∙ rw (text_refl path) refl

relaunch_with-Launched :
    (m : Shell) (d : Disk) (args : List Text) (exe path : Text) (code : ℕ)
    → m.report ≡ some path
    → (relaunch_with m d args exe path).result ≡ ok code
    → Launched m d args code (relaunch_with m d args exe path)
unfolding relaunch_with
relaunch_with-Launched m d args exe path code found e =
    let command_line = child_command args path in
    let line = join_args command_line in
    let started = create_temp d path [] in
    let exits = elevate_result-eq-ok _ code e in
    let did = ran m started (codes "runas") exe command_line code exits in
    let same =
      did
      ∙ ap
          (λ (o : Option Text).
            let answer = m.execute (codes "runas") exe o started in (exit_of answer.0, answer.1))
          (params_of-child_command args path) in
    record {
      exe = exe;
      path = path;
      line = line;
      reported = found;
      reads = argv-join_args command_line;
      exited = (ap (λ p. p.0) (sym same) ∙ exits, ap (λ p. replayed (read_file p.1 path)) same);
      removed =
          remove_file_removes (shell_execute_ex m started (codes "runas") exe command_line).1 path;
    }

relaunch_found-Launched :
    (m : Shell) (d : Disk) (args : List Text) (exe report : Option Text) (code : ℕ)
    → m.report ≡ report
    → (relaunch_found m d args exe report).result ≡ ok code
    → Launched m d args code (relaunch_found m d args exe report)
unfolding relaunch_found
relaunch_found-Launched m d args none report code found e = absurd (ground arith)
relaunch_found-Launched m d args (some exe) none code found e = absurd (ground arith)
relaunch_found-Launched m d args (some exe) (some path) code found e =
    relaunch_with-Launched m d args exe path code found e

-- If `relaunchElevated` returns a code, this program was started once more with the prompt for more
-- rights, it read the arguments followed by the name of the report, and ended with this code; the
-- report was replayed and is gone.
pub relaunch_elevated-Launched :
    (m : Shell) (d : Disk) (args : List Text) (code : ℕ)
    → (relaunch_elevated m d args).result ≡ ok code
    → Launched m d args code (relaunch_elevated m d args)
unfolding relaunch_elevated
relaunch_elevated-Launched m d args code e =
    relaunch_found-Launched m d args m.executable m.report code refl e

-- What is known of the process when the launch comes to this code: it ended with the code, or the
-- shell gave no handle of it, so that nobody waited for it, and the code is 0.
abbrev pub EndedWith : Launch → ℕ → Type 0
EndedWith answer code = (answer ≡ exited code) ⊎ ((answer ≡ no_handle) × (code ≡ 0))

exit_of-EndedWith : (answer : Launch) (code : ℕ) → exit_of answer ≡ ok code → EndedWith answer code
unfolding exit_of
exit_of-EndedWith cancelled code e = absurd (ground arith)
exit_of-EndedWith not_started code e = absurd (ground arith)
exit_of-EndedWith wait_failed code e = absurd (ground arith)
exit_of-EndedWith no_handle code e = inr (refl, ground arith)
exit_of-EndedWith (exited c) code e = inl (ap exited (ok_injective _ _ e))

-- What the process that was launched is asked to do, by its command line.
pub record Resumed {E : Type 0} (m : Shell) (d : Disk) (steps : Steps E) (action : Text)
    (o : Options) (credential : Option Text) (code : ℕ) : Type 0 where
  pub exe : Text
  pub path : Text
  pub line : Text
  pub args : List Text
  pub reported : m.report ≡ some path
  pub ended : EndedWith (m.execute (codes "runas") exe (some line) (create_temp d path [])).0 code
  pub requested : main_request (argv line) ≡ services args
  pub resumed :
      command steps args
      ≡ run_action steps true action (options_of (flags_of o)) (handed credential)

-- The arguments of `main` behind `service` are those of `Command`.
main_request-service : (args : List Text) → main_request (codes "service" ∷ args) ≡ services args
unfolding main_request member ◌=t=◌
main_request-service args = refl

-- The process that is launched for an action, the options, and the file of the password, if there is
-- one, is a call of the subcommand that takes the same action with the options that the parent had;
-- the password is that of the file. No option and no file is spelled like a hidden flag, the action
-- is no call for help, and there is no account beside `--system`.
pub relaunch_elevated_resumes :
    {E : Type 0} (m : Shell) (d : Disk) (steps : Steps E) (action : Text) (o : Options)
    (credential : Option Text) (code : ℕ)
    → Avoids credential_flag (action ∷ child_flags o)
    → Avoids elevated_output_flag (action ∷ child_flags o)
    → IsPlain credential
    → member action help_names ≡ false
    → (o.system && not (is_blank o.user_name)) ≡ false
    → (relaunch_elevated m d (child_args action o ++ handoff credential)).result ≡ ok code
    → Resumed m d steps action o credential code
unfolding child_args
relaunch_elevated_resumes m d steps action o credential code no_credential no_output plain known
      exclusive e =
    let l = relaunch_elevated-Launched m d (child_args action o ++ handoff credential) code e in
    let args =
      ((action ∷ child_flags o) ++ handoff credential) ++ (elevated_output_flag ∷ l.path ∷ []) in
    record {
      exe = l.exe;
      path = l.path;
      line = l.line;
      reported = l.reported;
      ended = exit_of-EndedWith _ code l.exited.0;
      args = args;
      requested = ap main_request l.reads ∙ main_request-service args;
      resumed =
          command-child_flags steps action o credential l.path no_credential no_output plain known
            exclusive;
    }
