-- ===== src/Service/State.antt =====
-- internal/service/status_other.go: what a service manager that is not Windows' reports.
pub mod Laws
use termcp_relay.Prelude.{
  ℕ, Bool, true, false, [], ◌++◌, Option, none, some, if◌then◌else◌, Text, codes, Result, ok, err,
}
use termcp_relay.Strings.{contains}
use termcp_relay.Cli.Control.{Status, QueryError, query_failed, no_service_system}

-- What the service library answers to `Status`: a state, that the service is not installed, that
-- there is no service system, or an error with its text.
pub data Answer : Type 0 where
  state : Bool → Answer
  not_installed no_system : Answer
  error : Text → Answer

unfoldable pub read_answer : Text → Answer → Result QueryError Status
unfolding contains
read_answer name not_installed =
    ok (record { name = name; installed = false; running = false; detail = [] })
read_answer name no_system = err no_service_system
read_answer name (error text) =
    if contains text (codes "failed state")
    then ok (record {
      name = name;
      installed = true;
      running = false;
      detail = codes "unit is in a failed state; inspect with: systemctl status " ++ name;
    })
    else err query_failed
read_answer name (state running) =
    ok (record { name = name; installed = true; running = running; detail = [] })

-- `queryService`, with the error of `kservice.New`, if there is one, and the answer of `Status`.
unfoldable pub query_service : Option QueryError → (Text → Answer) → Text → Result QueryError Status
unfolding read_answer
query_service (some e) status name = err e
query_service none status name = read_answer name (status name)
