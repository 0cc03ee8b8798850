-- ===== src/Service/State/Laws.antt =====
-- What `queryService` reports makes sense.
use termcp_relay.Prelude.{
  ◌≡◌, refl, subst, arith, true, false, Option, none, some, Text, codes, is_nil, Result, ok, err,
  Bool-cases, inl, inr,
}
use termcp_relay.Strings.{contains}
use termcp_relay.Cli.Control.{Status, QueryError}
use termcp_relay.Service.State.{
  Answer, state, not_installed, no_system, error, read_answer, query_service,
}

-- A status of the service that was asked for: a service that runs is installed, and there is a
-- detail only of one that is installed and does not run.
pub record IsCoherent (name : Text) (st : Status) : Type 0 where
  pub named : st.name ≡ name
  pub running_installed : st.running ≡ true → st.installed ≡ true
  pub detailed : is_nil st.detail ≡ false → (st.installed ≡ true) × (st.running ≡ false)

abbrev pub IsCoherentResult : Text → Result QueryError Status → Type 0
IsCoherentResult name (err e) = Unit
IsCoherentResult name (ok st) = IsCoherent name st

read_answer-IsCoherent :
    (name : Text) (answer : Answer) → IsCoherentResult name (read_answer name answer)
unfolding read_answer
read_answer-IsCoherent name (state running) = record {
  named = refl;
  running_installed = λ e. refl;
  detailed = λ e. absurd (ground arith);
}
read_answer-IsCoherent name not_installed = record {
  named = refl;
  running_installed = λ e. ground arith;
  detailed = λ e. absurd (ground arith);
}
read_answer-IsCoherent name no_system = tt
read_answer-IsCoherent name (error text) =
    elim (Bool-cases (contains text (codes "failed state"))) [
      | inl failed ↦
          rw failed
            (record { named = refl; running_installed = λ e. refl; detailed = λ e. (refl, refl) })
      | inr other ↦ rw other tt
    ]

-- Off Windows, what `queryService` reports is a coherent status of the service asked for.
pub query_service-IsCoherent :
    (opened : Option QueryError) (status : Text → Answer) (name : Text) (st : Status)
    → query_service opened status name ≡ ok st
    → IsCoherent name st
unfolding query_service
query_service-IsCoherent none status name st e =
    subst (IsCoherentResult name) e (read_answer-IsCoherent name (status name))
query_service-IsCoherent (some x) status name st e = absurd (ground arith)
