-- ===== src/Windows/State/Laws.antt =====
-- What `queryService` reports of a Windows service.
use Prim.Native.Nat.{◌^◌}
use termcp_relay.Prelude.{
  ◌≡◌, ◌≢◌, ◌<◌, ℕ, refl, subst, sym, ap, ◌∙◌, ok_injective, arith, Bool, true, false, not, ◌||◌,
  [], Option, none, some, Text, ok, Bool-cases, inl, inr,
}
use termcp_relay.Strings.{decimal, value_from, value-decimal}
use termcp_relay.Cli.Control.{Status}
use termcp_relay.Service.State.Laws.{IsCoherent, IsCoherentResult}
use termcp_relay.Windows.Rights.{has_nul}
use termcp_relay.Windows.State.{
  ServiceState, running, start_pending, continue_pending, stopped, stop_pending, pause_pending,
  paused, unknown, ServiceStatus, OpenAnswer, opened, does_not_exist, refused, Scm, never_started,
  last_start_failed, in_state, read_status, opened_status, query_service,
}

quiet-IsCoherent :
    (name : Text) (runs : Bool)
    → IsCoherent name (record { name = name; installed = true; running = runs; detail = [] })
quiet-IsCoherent name runs = record {
  named = refl;
  running_installed = λ e. refl;
  detailed = λ e. absurd (ground arith);
}

in_state-IsCoherent :
    (name : Text) (code : ℕ) (s : ServiceState) → IsCoherent name (in_state name code s)
unfolding in_state
in_state-IsCoherent name code running = quiet-IsCoherent name true
in_state-IsCoherent name code start_pending = quiet-IsCoherent name true
in_state-IsCoherent name code continue_pending = quiet-IsCoherent name true
in_state-IsCoherent name code stop_pending = quiet-IsCoherent name false
in_state-IsCoherent name code pause_pending = quiet-IsCoherent name false
in_state-IsCoherent name code paused = quiet-IsCoherent name false
in_state-IsCoherent name code unknown = quiet-IsCoherent name false
in_state-IsCoherent name code stopped = record {
  named = refl;
  running_installed = λ e. refl;
  detailed = λ e. (refl, refl);
}

opened_status-IsCoherent :
    (name : Text) (answer : OpenAnswer) (status : Option ServiceStatus)
    → IsCoherentResult name (opened_status name answer status)
unfolding opened_status read_status
opened_status-IsCoherent name does_not_exist status = record {
  named = refl;
  running_installed = λ e. ground arith;
  detailed = λ e. absurd (ground arith);
}
opened_status-IsCoherent name refused status = tt
opened_status-IsCoherent name opened none = tt
opened_status-IsCoherent name opened (some status) =
    in_state-IsCoherent name status.win32_exit_code status.current_state

-- What `queryService` reports of a Windows service is a coherent status of the service asked for.
pub query_scm-IsCoherent :
    (m : Scm) (name : Text) (st : Status) → query_service m name ≡ ok st → IsCoherent name st
unfolding query_service
query_scm-IsCoherent m name st e = elim (Bool-cases (not m.manager_opens || has_nul name)) [
  | inl closed ↦ absurd (ground arith)
  | inr reached ↦
      subst (IsCoherentResult name) (rw reached at e)
        (opened_status-IsCoherent name (m.open_to_query name) (m.query_status name))
]

stopped_detail :
    (name : Text) (code : ℕ)
    → code ≢ 0
    → code ≢ never_started
    → (in_state name code stopped).detail ≡ last_start_failed code
unfolding in_state
stopped_detail name code failed tried = ground arith

queried :
    (m : Scm) (name : Text) (st : Status) (status : ServiceStatus)
    → query_service m name ≡ ok st
    → m.open_to_query name ≡ opened
    → m.query_status name ≡ some status
    → in_state name status.win32_exit_code status.current_state ≡ st
unfolding query_service opened_status read_status
queried m name st status e found known = elim (Bool-cases (not m.manager_opens || has_nul name)) [
  | inl closed ↦ absurd (ground arith)
  | inr reached ↦ ok_injective _ st (rw (reached, found, known) at e)
]

-- The detail of a stopped service whose last start failed, for whatever code of 32 bits but that of
-- a service that was never started, prints this code, and nothing is lost or cut off in print.
pub failed_start_detail :
    (m : Scm) (name : Text) (st : Status) (code : ℕ)
    → query_service m name ≡ ok st
    → m.open_to_query name ≡ opened
    → m.query_status name ≡ some (record { current_state = stopped; win32_exit_code = code })
    → code < 2 ^ 32
    → code ≢ 0
    → code ≢ never_started
    → (st.detail ≡ last_start_failed code) × (value_from 0 (decimal code) ≡ code)
failed_start_detail m name st code e found status fits failed tried =
    let known = queried m name st _ e found status in
    (
      ap (λ (s : Status). s.detail) (sym known) ∙ stopped_detail name code failed tried,
      value-decimal code fits,
    )
