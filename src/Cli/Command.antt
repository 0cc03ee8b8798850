-- ===== src/Cli/Command.antt =====
-- `Command`: the subcommand that the arguments ask for.
pub mod Laws
use termcp_relay.Prelude.{
  ℕ, Bool, true, false, not, ◌&&◌, ◌||◌, List, [], ◌∷◌, Option, none, some, if◌then◌else◌, Text,
  codes, ◌=t=◌, is_nil, Result, ok, err,
}
use termcp_relay.Strings.{is_blank}
use termcp_relay.Dict.{member}
use termcp_relay.Cli.Options.{Options}
use termcp_relay.Cli.Flags.{options_of, parse_service}
use termcp_relay.Cli.Args.{
  elevated_output_flag, has_flag, take_credential_arg, redirect_elevated_output,
}
use termcp_relay.Cli.Elevate.{Elevation, Outcome, goes_on, stops, maybe_elevate}

-- `prepareInstall`, and what `maybeElevate` asks.
pub record Steps (E : Type 0) : Type 0 where
  pub prepare : Options → Text → Result E Options
  pub elevation : Elevation

-- What `Command` does in the end.
pub data Decision : Type 0 where
  exits : ℕ → Decision
  launched : ℕ → Option (List Text) → Option Text → Decision
  installs : Options → Decision
  controls : Text → Options → Decision

-- `if code, done := maybeElevate(...); done { return code }`
abbrev pub unless_elevated : Outcome → Decision → Decision
unless_elevated goes_on d = d
unless_elevated (stops code child file) d = launched code child file

abbrev pub help_names : List Text
help_names = codes "help" ∷ codes "-h" ∷ codes "--help" ∷ []

abbrev pub control_names : List Text
control_names =
    codes "uninstall" ∷ codes "start" ∷ codes "stop" ∷ codes "restart" ∷ codes "status" ∷ []

module _ {E : Type 0} (m : Steps E) (is_elevated_child : Bool) where
  unfoldable pub run_install : Options → Text → Decision
  run_install o cred_path = elim (m.prepare o cred_path) [
    | err e ↦ exits 1
    | ok found ↦
        unless_elevated (maybe_elevate m.elevation (codes "install") found is_elevated_child)
          (installs found)
  ]

  -- The switch on the action.
  unfoldable pub run_action : Text → Options → Text → Decision
  run_action action o cred_path =
      if action =t= codes "install"
      then run_install o cred_path
      else if member action control_names
      then unless_elevated (maybe_elevate m.elevation action o is_elevated_child)
          (controls action o)
      else exits 2

  -- `Command`, once the hidden flags are taken off.
  unfoldable pub run : List Text → Text → Decision
  run [] cred_path = exits 2
  run (action ∷ args) cred_path =
      if member action help_names then exits 0 else elim (parse_service args) [
        | err code ↦ exits code
        | ok f ↦
            if f.system && not (is_blank f.user)
            then exits 2
            else run_action action (options_of f) cred_path
      ]

-- `Command`
unfoldable pub command : {E : Type 0} → Steps E → List Text → Decision
command m args =
    let taken = take_credential_arg (redirect_elevated_output args).0 in
    run m (has_flag args elevated_output_flag) taken.0 taken.1
