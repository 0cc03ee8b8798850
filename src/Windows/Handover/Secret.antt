-- ===== src/Windows/Handover/Secret.antt =====
-- The password of an account is in no command line.
use termcp_relay.Prelude.{
  ◌≡◌, refl, sym, ap, ◌∙◌, inl, inr, ℕ, Bool, List, [], ◌∷◌, ◌++◌, Option, none, some, Text, codes,
  arith, Bool-cases,
}
use termcp_relay.Host.Disk.{Disk}
use termcp_relay.Cli.Options.{Options, service_name}
use termcp_relay.Cli.Args.{child_args, child_flags, credential_flag}
use termcp_relay.Windows.Credential.{Handoff, fill, write_credential_file}
use termcp_relay.Windows.Elevate.{
  Shell, exited, elevate_result, child_command, shell_execute_ex, relaunch_with, relaunch_found,
  relaunch_elevated,
}
use termcp_relay.Windows.Handover.Laws.{remove_after_stop}
use termcp_relay.Windows.Handover.{
  Machine, code_of, handover_of, relaunch_with_file, relaunch_on, maybe_elevate_on,
}

-- A shell that sees what is launched, the verb, the program and the command line, but no file, and
-- answers with a code.
abbrev pub observing : (Text → Text → Option Text → ℕ) → Machine → Machine
observing observe m = record m {
  shell = record m.shell { execute = λ verb file params d. (exited (observe verb file params), d) };
}

module _ (observe : Text → Text → Option Text → ℕ) (m : Machine) where
  abbrev seeing : Shell
  seeing = (observing observe m).shell

  shell_execute_ex_blind :
      (d d' : Disk) (verb file : Text) (args : List Text)
      → (shell_execute_ex seeing d verb file args).0 ≡ (shell_execute_ex seeing d' verb file args).0
  unfolding shell_execute_ex
  shell_execute_ex_blind d d' verb file args = ground arith

  relaunch_found_blind :
      (d d' : Disk) (args : List Text) (exe report : Option Text)
      → (relaunch_found seeing d args exe report).result
        ≡ (relaunch_found seeing d' args exe report).result
  unfolding relaunch_found relaunch_with
  relaunch_found_blind d d' args none report = refl
  relaunch_found_blind d d' args (some exe) none = refl
  relaunch_found_blind d d' args (some exe) (some path) =
      ap elevate_result (shell_execute_ex_blind _ _ (codes "runas") exe (child_command args path))

  relaunch_elevated_blind :
      (d d' : Disk) (args : List Text)
      → (relaunch_elevated seeing d args).result ≡ (relaunch_elevated seeing d' args).result
  unfolding relaunch_elevated
  relaunch_elevated_blind d d' args =
      relaunch_found_blind d d' args m.shell.executable m.shell.report

  -- Where the password goes does not depend on it.
  write_credential_file_blind :
      (d : Disk) (h : Handoff) (password other : Text)
      → (write_credential_file d h password).0 ≡ (write_credential_file d h other).0
  unfolding write_credential_file fill
  write_credential_file_blind d h password other = ground arith

  relaunch_with_file_blind :
      (child : List Text) (w w' : Option Text × Disk)
      → w.0 ≡ w'.0
      → (relaunch_with_file (observing observe m) child w).stop
        ≡ (relaunch_with_file (observing observe m) child w').stop
  unfolding relaunch_with_file handover_of
  relaunch_with_file_blind child (none, d) (none, d') h = refl
  relaunch_with_file_blind child (none, d) (some path, d') h = cc
  relaunch_with_file_blind child (some path, d) (none, d') h = cc
  relaunch_with_file_blind child (some path, d) (some path', d') h =
      let same : path ≡ path' = ground arith in
      remove_after_stop (observing observe m) path _
      ∙ ap (λ r. some (code_of r))
          (relaunch_elevated_blind d d' (child ++ (credential_flag ∷ path ∷ []))
            ∙ ap (λ p. (relaunch_elevated seeing d' (child ++ (credential_flag ∷ p ∷ []))).result)
                same)
      ∙ sym (remove_after_stop (observing observe m) path' _)

  relaunch_on_blind :
      (d : Disk) (child : List Text) (o : Options) (other : Text)
      → (relaunch_on (observing observe m) d child o).stop
        ≡ (relaunch_on (observing observe m) d child (record o { password = other })).stop
  unfolding relaunch_on
  relaunch_on_blind d child o other = elim (Bool-cases o.needs_credential) [
    | inl needs ↦ rw needs (
        relaunch_with_file_blind child (write_credential_file d m.handoff o.password)
          (write_credential_file d m.handoff other)
          (write_credential_file_blind d m.handoff o.password other))
    | inr plain ↦ rw plain refl
  ]

  -- The password never touches a command line: whoever sees every verb, program and command line
  -- that is launched, but no file, sees the same whatever the password is. What is seen decides
  -- the exit code of the process that is launched, and so the one with which the caller stops.
  pub maybe_elevate_on_blind :
      (d : Disk) (action : Text) (o : Options) (told : Bool) (other : Text)
      → (maybe_elevate_on (observing observe m) d action o told).stop
        ≡ (maybe_elevate_on
            (observing observe m)
            d
            action
            (record o { password = other })
            told).stop
  unfolding maybe_elevate_on child_args child_flags service_name
  maybe_elevate_on_blind d action o told other =
      ground (arith, relaunch_on_blind d (child_args action o) o other)
