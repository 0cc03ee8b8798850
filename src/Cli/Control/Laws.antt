-- ===== src/Cli/Control/Laws.antt =====
-- What the service manager is never asked.
use termcp_relay.Prelude.{
  ◌≡◌, refl, ◌⊎◌, inl, inr, Bool, true, false, not, ◌||◌, List, Option, none, some, if◌then◌else◌,
  Text, codes, ◌=t=◌, is_nil, All, Option-cases, arith,
}
use termcp_relay.Strings.{Unicode}
use termcp_relay.Cli.Options.{Options, service_name, validate_options}
use termcp_relay.Cli.Account.{builtin_service_account}
use termcp_relay.Cli.Control.{
  Manager, Call, uninstall_service, grant_right, logon_failure, other_failure, is_missing, is_held,
  query, uninstall, grantee, retry_as, start_from, grant_logon_right_and_retry, start, control,
  Failure,
}

module _ ⦃u : Unicode⦄ (m : Manager) where
  -- A service is removed only when it is not reported as running, which is also so when its state
  -- cannot be asked for, or has been stopped, and a right is granted only to an account that has a
  -- name and is not built in.
  abbrev pub IsAllowed : Call → Type 0
  IsAllowed uninstall_service =
      (m.is_running ≡ some false) ⊎ (m.is_running ≡ none) ⊎ (m.stop_error ≡ none)
  IsAllowed (grant_right account) =
      (is_nil account ≡ false) × (builtin_service_account account ≡ false)
  IsAllowed _ = Unit {0}

  -- A test decides between two sequences of calls.
  if-IsAllowed {ℓ} :
      {A : Type ℓ} (b : Bool) (x y : List Call × A)
      → All IsAllowed x.0
      → All IsAllowed y.0
      → All IsAllowed (if b then x else y).0
  if-IsAllowed true x y p q = p
  if-IsAllowed false x y p q = q

  uninstall-IsAllowed : All IsAllowed (uninstall m).0
  unfolding uninstall
  uninstall-IsAllowed = elim (Option-cases m.is_running) [
    | inl unknown ↦ rw unknown (inr (inl refl), tt)
    | inr (false, stopped) ↦ rw stopped (inl refl, tt)
    | inr (true, running) ↦ elim (Option-cases m.stop_error) [
      | inl ended ↦ rw (running, ended) (tt, (inr (inr refl), tt))
      | inr (e, failed) ↦ rw (running, failed) (tt, tt)
    ]
  ]

  grantee_lem :
      (o : Option Text) (account : Text)
      → grantee o ≡ some account
      → IsAllowed (grant_right account)
  unfolding grantee
  grantee_lem none account h = cc
  grantee_lem (some a) account h = ground arith

  retry_as-IsAllowed :
      (account : Option Text)
      → ((a : Text) → account ≡ some a → IsAllowed (grant_right a))
      → All IsAllowed (retry_as m account).0
  unfolding retry_as
  retry_as-IsAllowed none h = tt
  retry_as-IsAllowed (some a) h =
      if-IsAllowed (is_held (m.logon_right_held a)) _ _ tt
        (if-IsAllowed (not (m.grant_logon_right a)) _ _ (h a refl, tt) (h a refl, (tt, tt)))

  start_from-IsAllowed :
      (first : Option Failure) (retry : List Call × Bool)
      → All IsAllowed retry.0
      → All IsAllowed (start_from first retry).0
  unfolding start_from
  start_from-IsAllowed none retry h = (tt, tt)
  start_from-IsAllowed (some logon_failure) retry h = (tt, h)
  start_from-IsAllowed (some other_failure) retry h = (tt, tt)

  start-IsAllowed : (name : Text) → All IsAllowed (start m name).0
  unfolding start grant_logon_right_and_retry
  start-IsAllowed name =
      let account = m.service_account_name name in
      start_from-IsAllowed m.start_error _
        (retry_as-IsAllowed (grantee account) (grantee_lem account))

  -- Whatever `control` is asked for, a service is removed only when its state is reported as other
  -- than running, or cannot be asked for, or its stop succeeds, and the right to log on is granted only to an account that has a name and is not
  -- built in.
  pub control-IsAllowed : (action : Text) (o : Options) → All IsAllowed (control m action o).0
  unfolding control
  control-IsAllowed action o = if-IsAllowed (action =t= codes "status") _ _ tt (
      if-IsAllowed (not (validate_options m.on_windows o) || not m.created) _ _ tt (
        if-IsAllowed (is_missing (query m (service_name o))) _ _ tt (
          if-IsAllowed (action =t= codes "uninstall") _ _ uninstall-IsAllowed (
            if-IsAllowed (action =t= codes "start") _ _ (start-IsAllowed (service_name o)) (
              if-IsAllowed (action =t= codes "stop") _ _ (tt, tt)
                (if-IsAllowed (action =t= codes "restart") _ _ (tt, tt) tt))))))
