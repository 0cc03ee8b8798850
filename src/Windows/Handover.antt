-- ===== src/Windows/Handover.antt =====
-- `maybeElevate` of internal/service/cli.go on Windows, with the disk: the password's file is made, the
-- process launched, and the file removed when `maybeElevate` returns.
pub mod Laws
pub mod Clean
pub mod Declined
pub mod Resumes
pub mod Installs
pub mod Secret
use termcp_relay.Prelude.{
  ℕ, Bool, true, false, not, ◌&&◌, ◌||◌, List, [], ◌∷◌, ◌++◌, Option, none, some, if◌then◌else◌,
  Text, codes, ◌=t=◌, Result, ok, err,
}
use termcp_relay.Host.Disk.{Disk, remove_file}
use termcp_relay.Cli.Options.{Options, service_name}
use termcp_relay.Cli.Args.{credential_flag, child_args}
use termcp_relay.Cli.Elevate.{requires_admin, is_absent}
use termcp_relay.Windows.Credential.{Handoff, write_credential_file}
use termcp_relay.Windows.Elevate.{Shell, ElevateError, Relaunch, relaunch_elevated}

-- The answers of the system to one call.
pub record Machine : Type 0 where
  pub elevated : Bool
  pub installed : Text → Option Bool
  pub handoff : Handoff
  pub shell : Shell

-- The exit code if the caller stops, what was replayed, and the disk.
pub record Handover : Type 0 where
  pub stop : Option ℕ
  pub output : Text
  pub disk : Disk

unfoldable pub code_of : Result ElevateError ℕ → ℕ
code_of (ok code) = code
code_of (err e) = 1

unfoldable pub handover_of : Relaunch → Handover
unfolding code_of
handover_of r = record { stop = some (code_of r.result); output = r.output; disk = r.disk }

-- `defer os.Remove(credFile)`, which may fail, with the answer of `os.Remove`; a run asks for it once,
-- here or in `writeCredentialFile`.
unfoldable pub remove_after : Machine → Text → Handover → Handover
unfolding remove_file
remove_after m path h =
    if m.handoff.remove_ok then record h { disk = remove_file h.disk path } else h

-- The part after `writeCredentialFile`.
unfoldable pub relaunch_with_file : Machine → List Text → Option Text × Disk → Handover
unfolding handover_of remove_after relaunch_elevated
relaunch_with_file m child (none, d) = record { stop = some 1; output = []; disk = d }
relaunch_with_file m child (some path, d) =
    remove_after m path
      (handover_of (relaunch_elevated m.shell d (child ++ (credential_flag ∷ path ∷ []))))

unfoldable pub relaunch_on : Machine → Disk → List Text → Options → Handover
unfolding relaunch_with_file write_credential_file
relaunch_on m d child o =
    if o.needs_credential
    then relaunch_with_file m child (write_credential_file d m.handoff o.password)
    else handover_of (relaunch_elevated m.shell d child)

-- `maybeElevate`
unfoldable pub maybe_elevate_on : Machine → Disk → Text → Options → Bool → Handover
unfolding relaunch_on requires_admin ◌=t=◌
maybe_elevate_on m d action o is_elevated_child =
    let stays : Handover = record { stop = none; output = []; disk = d } in
    if is_elevated_child || not (requires_admin action) || m.elevated
    then stays
    else if not (action =t= codes "install") && is_absent (m.installed (service_name o))
    then stays
    else relaunch_on m d (child_args action o) o
