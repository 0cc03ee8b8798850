-- ===== src/Windows/Handover/Laws.antt =====
-- The handover with the disk does what `maybeElevate` is asked to do without it, and leaves no password
-- behind.
use termcp_relay.Prelude.{
  ◌≡◌, refl, ap, ◌∙◌, inl, inr, ℕ, Bool, List, [], ◌∷◌, ◌++◌, Option, none, some, Text, Result, ok,
  err, arith, Bool-cases, Result-cases, if◌then◌else◌,
}
use termcp_relay.Host.Disk.{Disk}
use termcp_relay.Cli.Options.{Options}
use termcp_relay.Cli.Args.{child_args, credential_flag}
use termcp_relay.Cli.Elevate.{
  Elevation, Outcome, goes_on, stops, relaunch, relaunch_with_password, maybe_elevate,
}
use termcp_relay.Windows.Credential.{write_credential_file}
use termcp_relay.Windows.Elevate.{ElevateError, Relaunch, relaunch_elevated}
use termcp_relay.Windows.Handover.{
  Machine, Handover, code_of, handover_of, remove_after, relaunch_with_file, relaunch_on,
  maybe_elevate_on,
}

abbrev to_option : Result ElevateError ℕ → Option ℕ
to_option (ok code) = some code
to_option (err e) = none

-- The disk that the launched process finds.
abbrev pub launch_disk : Machine → Disk → Options → Disk
launch_disk m d o =
    if o.needs_credential then (write_credential_file d m.handoff o.password).1 else d

-- What the platform answers to `maybeElevate`, by the files for Windows.
abbrev pub windows_elevation : Machine → Disk → Options → Elevation
windows_elevation m d o = record {
  elevated = m.elevated;
  installed = m.installed;
  write_credential_file = λ password. (write_credential_file d m.handoff password).0;
  relaunch_elevated = λ args. to_option (relaunch_elevated m.shell (launch_disk m d o) args).result;
}

-- The exit code with which the caller stops.
abbrev pub stop_of : Outcome → Option ℕ
stop_of goes_on = none
stop_of (stops code child file) = some code

handover_of-relaunch :
    (m : Elevation) (child : List Text) (file : Option Text) (r : Relaunch)
    → m.relaunch_elevated child ≡ to_option r.result
    → (handover_of r).stop ≡ stop_of (relaunch m child file)
unfolding handover_of relaunch code_of
handover_of-relaunch m child file r h = elim (Result-cases r.result) [
  | inl (code, e) ↦ ground (arith, h, e)
  | inr (error, e) ↦ ground (arith, h, e)
]

-- What `os.Remove` answers does not show in the exit code.
pub remove_after_stop :
    (m : Machine) (path : Text) (h : Handover) → (remove_after m path h).stop ≡ h.stop
unfolding remove_after
remove_after_stop m path h = ground arith

relaunch_with_file_stop :
    (m : Machine) (e : Elevation) (child : List Text) (password : Text) (w : Option Text × Disk)
    → e.write_credential_file password ≡ w.0
    → ((args : List Text)
        → e.relaunch_elevated args ≡ to_option (relaunch_elevated m.shell w.1 args).result)
    → (relaunch_with_file m child w).stop ≡ stop_of (relaunch_with_password e child password)
unfolding relaunch_with_file relaunch_with_password
relaunch_with_file_stop m e child password (none, d) written runs = ground (arith, written)
relaunch_with_file_stop m e child password (some path, d) written runs =
    let handed = child ++ (credential_flag ∷ path ∷ []) in
    remove_after_stop m path _
    ∙ ground (arith, written, handover_of-relaunch e handed (some path) _ (runs handed))

module _ (m : Machine) (d : Disk) (child : List Text) (o : Options) (e : Elevation)
    (same : e ≡ windows_elevation m d o) where
  runs_on :
      (args : List Text)
      → e.relaunch_elevated args
        ≡ to_option (relaunch_elevated m.shell (launch_disk m d o) args).result
  runs_on args = ap (λ e. e.relaunch_elevated args) same

  relaunch_on_stop :
      (relaunch_on m d child o).stop
      ≡ stop_of (
          if o.needs_credential
          then relaunch_with_password e child o.password
          else relaunch e child none)
  unfolding relaunch_on
  relaunch_on_stop = elim (Bool-cases o.needs_credential) [
    | inl needs ↦ rw needs (
        relaunch_with_file_stop m e child o.password (write_credential_file d m.handoff o.password)
          (ap (λ e. e.write_credential_file o.password) same)
          (λ args. runs_on args ∙ rw needs refl))
    | inr plain ↦ rw plain (
        handover_of-relaunch e child none (relaunch_elevated m.shell d child) (
          runs_on child
          ∙ ap (λ d. to_option (relaunch_elevated m.shell d child).result) (rw plain refl)))
  ]

-- With the answers that the files for Windows give, `maybeElevate` stops exactly when the handover
-- with the disk does, and with the same exit code.
pub maybe_elevate_on_stop :
    (m : Machine) (d : Disk) (action : Text) (o : Options) (told : Bool)
    → (maybe_elevate_on m d action o told).stop
      ≡ stop_of (maybe_elevate (windows_elevation m d o) action o told)
unfolding maybe_elevate_on maybe_elevate
maybe_elevate_on_stop m d action o told =
    ground (arith, relaunch_on_stop m d (child_args action o) o (windows_elevation m d o) refl)
