-- ===== src/Cli/Elevate.antt =====
-- `requiresAdmin` and `maybeElevate`: the re-launch of the command through the prompt of Windows.
use termcp_relay.Prelude.{
  ℕ, Bool, false, not, ◌&&◌, ◌||◌, List, [], ◌∷◌, ◌++◌, Option, none, some, if◌then◌else◌, Text,
  codes, ◌=t=◌,
}
use termcp_relay.Dict.{member}
use termcp_relay.Cli.Options.{Options, service_name}
use termcp_relay.Cli.Args.{credential_flag, child_args}

-- `requiresAdmin`
unfoldable pub requires_admin : Text → Bool
requires_admin action =
    member action
      (codes "install" ∷ codes "uninstall" ∷ codes "start" ∷ codes "stop" ∷ codes "restart" ∷ [])

-- What the platform answers: whether the process is elevated, whether `Query` knows a service (if
-- it succeeds), the file that a password is written to, and the exit code of the process that is
-- launched.
pub record Elevation : Type 0 where
  pub elevated : Bool
  pub installed : Text → Option Bool
  pub write_credential_file : Text → Option Text
  pub relaunch_elevated : List Text → Option ℕ

-- The caller goes on, or it stops with an exit code, after a process was launched, if it was, and
-- a credential file removed, if there was one.
pub data Outcome : Type 0 where
  goes_on : Outcome
  stops : ℕ → Option (List Text) → Option Text → Outcome

-- The end of `maybeElevate`.
unfoldable pub relaunch : Elevation → List Text → Option Text → Outcome
relaunch m child file = elim (m.relaunch_elevated child) [
  | none ↦ stops 1 (some child) file
  | some code ↦ stops code (some child) file
]

unfoldable pub relaunch_with_password : Elevation → List Text → Text → Outcome
unfolding relaunch
relaunch_with_password m child password = elim (m.write_credential_file password) [
  | none ↦ stops 1 none none
  | some file ↦ relaunch m (child ++ (credential_flag ∷ file ∷ [])) (some file)
]

-- `!st.Installed`, where the query succeeds.
abbrev pub is_absent : Option Bool → Bool
is_absent none = false
is_absent (some installed) = not installed

-- `maybeElevate`
unfoldable pub maybe_elevate : Elevation → Text → Options → Bool → Outcome
unfolding ◌=t=◌
maybe_elevate m action o is_elevated_child =
    let child = child_args action o in
    if is_elevated_child || not (requires_admin action) || m.elevated
    then goes_on
    else if not (action =t= codes "install") && is_absent (m.installed (service_name o))
    then goes_on
    else if o.needs_credential
    then relaunch_with_password m child o.password
    else relaunch m child none
