-- ===== src/Cli/Command/Laws.antt =====
-- The process that `maybeElevate` launches is told by its hidden flags that it has the rights, and
-- where the password is.
use termcp_relay.Prelude.{
  Bool, ◌||◌, none, some, ◌&&◌, not, ◌≡◌, refl, ◌∙◌, ◌≢◌, ℕ, true, false, List, [], ◌∷◌, ◌++◌,
  Option, Text, codes, ◌=t=◌, text_refl, arith, Result-cases, inl, inr,
}
use mathlib.Core.List.{append-nil}
use termcp_relay.Cli.Options.{Options}
use termcp_relay.Cli.Args.{
  elevated_output_flag, credential_flag, has_flag, take_credential_arg, redirect_elevated_output,
  child_flags,
}
use termcp_relay.Cli.Args.Hidden.{
  Avoids, take_credential_lem, take_credential-append, redirect-append,
}
use termcp_relay.Cli.Elevate.{Elevation, maybe_elevate, goes_on}
use termcp_relay.Strings.{is_blank}
use termcp_relay.Dict.{member}
use termcp_relay.Cli.Flags.{options_of, parse_service}
use termcp_relay.Cli.Flags.Laws.{flags_of, parse_service-child_flags}
use termcp_relay.Cli.Command.{Steps, launched, run_install, run_action, run, command, help_names}

has_flag-append :
    (flag file : Text) (args : List Text) → has_flag (args ++ (flag ∷ file ∷ [])) flag ≡ true
unfolding has_flag
has_flag-append flag file [] = rw (text_refl flag) refl
has_flag-append flag file (a ∷ args) = ground (arith, has_flag-append flag file args)

Avoids-append :
    (flag other file : Text) (args : List Text)
    → Avoids flag args
    → other =t= flag ≡ false
    → file =t= flag ≡ false
    → Avoids flag (args ++ (other ∷ file ∷ []))
Avoids-append flag other file [] h o f = (o, (f, tt))
Avoids-append flag other file (a ∷ args) h o f = (h.0, Avoids-append flag other file args h.1 o f)

-- The arguments that `maybeElevate` and `relaunchElevated` make, of arguments without hidden flags,
-- the file of a password and the file of a report, are run as those of a process that has the
-- rights, with the password of that file.
pub command_of_child :
    {E : Type 0} (m : Steps E) (args : List Text) (file report : Text)
    → Avoids credential_flag args
    → Avoids elevated_output_flag args
    → file =t= elevated_output_flag ≡ false
    → command m ((args ++ (credential_flag ∷ file ∷ [])) ++ (elevated_output_flag ∷ report ∷ []))
      ≡ run m true args file
unfolding command ◌=t=◌
command_of_child m args file report no_credential no_output h =
    let sent = args ++ (credential_flag ∷ file ∷ []) in
    let kept : redirect_elevated_output (sent ++ (elevated_output_flag ∷ report ∷ []))
        ≡ (sent, report ∷ []) =
      redirect-append report sent
        (Avoids-append elevated_output_flag credential_flag file args no_output refl h) in
    rw
      (
        has_flag-append elevated_output_flag report sent,
        kept,
        take_credential-append [] file args no_credential,
      )
      refl

pub maybe_elevate_goes_on :
    (m : Elevation) (action : Text) (o : Options) (told : Bool)
    → (told || m.elevated) ≡ true
    → maybe_elevate m action o told ≡ goes_on
unfolding maybe_elevate
maybe_elevate_goes_on m action o told may = ground arith

run_action_launches_none :
    {E : Type 0} (m : Steps E) (told : Bool) (action : Text) (o : Options) (path : Text) (code : ℕ)
    (child : Option (List Text)) (file : Option Text)
    → (told || m.elevation.elevated) ≡ true
    → run_action m told action o path ≢ launched code child file
unfolding run_action run_install
run_action_launches_none m told action o path code child file may e =
    elim (Result-cases (m.prepare o path)) [
      | inl (found, h) ↦ ground (
        arith,
        h,
        maybe_elevate_goes_on m.elevation (codes "install") found told may,
        maybe_elevate_goes_on m.elevation action o told may,
      )
      | inr (e', h) ↦ ground (arith, h, maybe_elevate_goes_on m.elevation action o told may)
    ]

run_launches_none :
    {E : Type 0} (m : Steps E) (told : Bool) (args : List Text) (path : Text) (code : ℕ)
    (child : Option (List Text)) (file : Option Text)
    → (told || m.elevation.elevated) ≡ true
    → run m told args path ≢ launched code child file
unfolding run
run_launches_none m told [] path code child file may e = ground (arith, e)
run_launches_none m told (action ∷ args) path code child file may e =
    elim (Result-cases (parse_service args)) [
      | inl (f, h) ↦
          ground (
            arith,
            h,
            run_action_launches_none m told action (options_of f) path code child file may,
          )
      | inr (c, h) ↦ ground (arith, h)
    ]

-- A process that is told that it has the rights, or that has them, launches no other.
pub command_launches_none :
    {E : Type 0} (m : Steps E) (args : List Text) (code : ℕ) (child : Option (List Text))
    (file : Option Text)
    → (has_flag args elevated_output_flag || m.elevation.elevated) ≡ true
    → command m args ≢ launched code child file
unfolding command
command_launches_none m args code child file may e =
    run_launches_none m (has_flag args elevated_output_flag)
      (take_credential_arg (redirect_elevated_output args).0).0
      (take_credential_arg (redirect_elevated_output args).0).1 code child file may e

-- The arguments that hand the password's file over, if there is one.
abbrev pub handoff : Option Text → List Text
handoff none = []
handoff (some file) = credential_flag ∷ file ∷ []

abbrev pub handed : Option Text → Text
handed none = []
handed (some file) = file

-- A file that the parent makes is not called like the flag.
abbrev pub IsPlain : Option Text → Type 0
IsPlain none = Unit
IsPlain (some file) = file =t= elevated_output_flag ≡ false

command_of_handoff :
    {E : Type 0} (m : Steps E) (args : List Text) (credential : Option Text) (report : Text)
    → Avoids credential_flag args
    → Avoids elevated_output_flag args
    → IsPlain credential
    → command m ((args ++ handoff credential) ++ (elevated_output_flag ∷ report ∷ []))
      ≡ run m true args (handed credential)
unfolding command
command_of_handoff m args (some file) report no_credential no_output h =
    command_of_child m args file report no_credential no_output h
command_of_handoff m args none report no_credential no_output h = rw (append-nil args) (
    rw
      (
        has_flag-append elevated_output_flag report args,
        redirect-append report args no_output,
        take_credential_lem [] args no_credential,
      )
      refl)

run-child_flags :
    {E : Type 0} (m : Steps E) (action : Text) (o : Options) (path : Text)
    → member action help_names ≡ false
    → (o.system && not (is_blank o.user_name)) ≡ false
    → run m true (action ∷ child_flags o) path
      ≡ run_action m true action (options_of (flags_of o)) path
unfolding run
run-child_flags m action o path known exclusive =
    rw (known, parse_service-child_flags o, exclusive) refl

-- The process that is launched with more rights, whose arguments are those of `childArgs`, the file
-- of the password, if there is one, and the file of a report, takes the action that was asked for,
-- with the options that the parent had, but for the password, which is in that file. The conditions
-- are that no option and no file is spelled like a hidden flag, that the action is no call for help,
-- and that there is no account beside `--system`.
pub command-child_flags :
    {E : Type 0} (m : Steps E) (action : Text) (o : Options) (credential : Option Text)
    (report : Text)
    → Avoids credential_flag (action ∷ child_flags o)
    → Avoids elevated_output_flag (action ∷ child_flags o)
    → IsPlain credential
    → member action help_names ≡ false
    → (o.system && not (is_blank o.user_name)) ≡ false
    → command m
        (((action ∷ child_flags o) ++ handoff credential) ++ (elevated_output_flag ∷ report ∷ []))
      ≡ run_action m true action (options_of (flags_of o)) (handed credential)
command-child_flags m action o credential report no_credential no_output plain known exclusive =
    command_of_handoff m (action ∷ child_flags o) credential report no_credential no_output plain
    ∙ run-child_flags m action o (handed credential) known exclusive
