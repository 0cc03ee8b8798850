-- ===== src/Cli/Report/Laws.antt =====
-- What the warning of `service status` promises of `service start`.
use termcp_relay.Prelude.{
  ◌≡◌, refl, sym, ◌∙◌, subst, inl, inr, Bool, true, false, List, [], ◌∷◌, ◌++◌, Option, none, some,
  Text, is_nil, Result, ok, err, arith, Bool-cases, if◌then◌else◌,
}
use termcp_relay.Strings.{Unicode}
use termcp_relay.Cli.Options.{Options, service_name}
use termcp_relay.Cli.Account.{builtin_service_account}
use termcp_relay.Cli.Control.{
  Status, QueryError, no_service_system, query_failed, Manager, grant_right, start_service, grantee,
  retry_as, grant_logon_right_and_retry, query,
}
use termcp_relay.Cli.Report.{
  Host, Line, lacks_right, unknown_state, run_in_foreground, not_installed, install_with,
  is_running, is_stopped, not_running, configured_account, check_with, state_lines, right_lines,
  hint_lines, account_lines, more_lines, status_lines, queried_lines, printed, manual_check_hint,
}

-- The accounts that the lines warn of.
unfoldable pub warnings : List Line → List Text
warnings [] = []
warnings (lacks_right account ∷ ls) = account ∷ warnings ls
warnings (unknown_state name ∷ ls) = warnings ls
warnings (run_in_foreground path ∷ ls) = warnings ls
warnings (not_installed name ∷ ls) = warnings ls
warnings (install_with path ∷ ls) = warnings ls
warnings (is_running name ∷ ls) = warnings ls
warnings (is_stopped name ∷ ls) = warnings ls
warnings (not_running name detail ∷ ls) = warnings ls
warnings (configured_account account ∷ ls) = warnings ls
warnings (check_with hint ∷ ls) = warnings ls

state_warnings :
    (o : Options) (st : Status) (ls : List Line) → warnings (state_lines o st ++ ls) ≡ warnings ls
unfolding state_lines warnings
state_warnings o st ls = ground arith

hint_warnings : (hint : Text) → warnings (hint_lines hint) ≡ []
unfolding hint_lines warnings
hint_warnings hint = ground arith

right_warnings :
    (a account hint : Text) (held : Option Bool) (ws : List Text)
    → warnings (right_lines a held ++ hint_lines hint) ≡ account ∷ ws
    → (held ≡ some false) × (a ≡ account)
unfolding right_lines warnings
right_warnings a account hint none ws e = absurd (ground (arith, hint_warnings hint))
right_warnings a account hint (some true) ws e = absurd (ground (arith, hint_warnings hint))
right_warnings a account hint (some false) ws e = (refl, ground (arith, hint_warnings hint))

module _ ⦃u : Unicode⦄ (m : Manager) where
  -- What the first warning takes: an account that is not built in, which is known to lack the right.
  record Lacking (found : Option Text) (account : Text) : Type 0 where
    configured : found ≡ some account
    not_empty : is_nil account ≡ false
    not_builtin : builtin_service_account account ≡ false
    lacks : m.logon_right_held account ≡ some false

  account_warnings :
      (found : Option Text) (account hint : Text) (ws : List Text)
      → warnings (account_lines m found ++ hint_lines hint) ≡ account ∷ ws
      → Lacking found account
  unfolding account_lines warnings
  account_warnings none account hint ws e = absurd (ground (arith, hint_warnings hint))
  account_warnings (some a) account hint ws e = elim (Bool-cases (is_nil a)) [
    | inl empty ↦ absurd (ground (arith, hint_warnings hint))
    | inr named ↦ elim (Bool-cases (builtin_service_account a)) [
      | inl builtin ↦ absurd (ground (arith, hint_warnings hint))
      | inr own ↦
          let found =
            right_warnings a account hint (m.logon_right_held a) ws (rw (named, own) at e) in
          subst (Lacking (some a)) found.1
            (record { configured = refl; not_empty = named; not_builtin = own; lacks = found.0 })
    ]
  ]

  Lacking-granted :
      (found : Option Text) (account : Text)
      → Lacking found account
      → (retry_as m (grantee found)).0
        ≡ grant_right account ∷ (if m.grant_logon_right account then start_service ∷ [] else [])
  unfolding retry_as grantee
  Lacking-granted found account l =
      rw (l.configured, l.not_empty, l.not_builtin, l.lacks) (ground arith)

  more_warnings :
      (h : Host) (o : Options) (st : Status) (account : Text) (ws : List Text)
      → warnings (more_lines m h o st) ≡ account ∷ ws
      → Lacking (m.service_account_name (service_name o)) account
  unfolding more_lines warnings
  more_warnings h o st account ws e = elim (Bool-cases st.installed) [
    | inl there ↦ account_warnings _ account (manual_check_hint h st.name) ws (rw there at e)
    | inr missing ↦ absurd (ground arith)
  ]

  status_warnings :
      (h : Host) (o : Options) (st : Status) (account : Text) (ws : List Text)
      → warnings (status_lines m h o st) ≡ account ∷ ws
      → Lacking (m.service_account_name (service_name o)) account
  unfolding status_lines
  status_warnings h o st account ws e =
      more_warnings h o st account ws (sym (state_warnings o st (more_lines m h o st)) ∙ e)

  queried_warnings :
      (h : Host) (o : Options) (answer : Result QueryError Status) (account : Text) (ws : List Text)
      → warnings (queried_lines m h o answer) ≡ account ∷ ws
      → Lacking (m.service_account_name (service_name o)) account
  unfolding queried_lines warnings
  queried_warnings h o (err no_service_system) account ws e = absurd (ground arith)
  queried_warnings h o (err query_failed) account ws e = absurd (ground arith)
  queried_warnings h o (ok st) account ws e = status_warnings h o st account ws e

  -- An account of which `service status` warns that it lacks the right is the one to which
  -- `service start` grants the right when the service manager refuses its logon; then the start is
  -- tried again.
  pub warned_granted :
      (h : Host) (o : Options) (account : Text) (ws : List Text)
      → warnings (printed m h o) ≡ account ∷ ws
      → (grant_logon_right_and_retry m (service_name o)).0
        ≡ grant_right account ∷ (if m.grant_logon_right account then start_service ∷ [] else [])
  unfolding grant_logon_right_and_retry printed
  warned_granted h o account ws e =
      Lacking-granted _ account (queried_warnings h o (query m (service_name o)) account ws e)
