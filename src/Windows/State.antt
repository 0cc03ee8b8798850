-- ===== src/Windows/State.antt =====
-- internal/service/status_windows.go: what the service control manager (SCM) reports of a service.
pub mod Laws
use Prim.Native.Nat.{◌%◌, ◌^◌}
use termcp_relay.Prelude.{
  ℕ, Bool, true, false, not, ◌&&◌, ◌||◌, [], ◌++◌, Option, none, some, if◌then◌else◌, Text, codes,
  ◌==◌, is_nil, Result, ok, err, ◌>>=◌, of_option,
}
use termcp_relay.Strings.{decimal}
use termcp_relay.Cli.Control.{Status, QueryError, query_failed}
use termcp_relay.Windows.Rights.{has_nul}

-- `dwCurrentState`; a number that the SCM does not use is `unknown`.
pub data ServiceState : Type 0 where
  stopped start_pending stop_pending running continue_pending pause_pending paused : ServiceState
  unknown : ServiceState

-- What the program reads of SERVICE_STATUS. The code is a number of 32 bits.
pub record ServiceStatus : Type 0 where
  pub current_state : ServiceState
  pub win32_exit_code : ℕ

pub data OpenAnswer : Type 0 where
  opened does_not_exist refused : OpenAnswer

-- The answers of the SCM: whether it can be reached, to the opening of a service with the right to
-- query its state or its configuration, and of the service. `config_size` is the size of the buffer
-- that the first call of QueryServiceConfig asks for.
pub record Scm : Type 0 where
  pub manager_opens : Bool
  pub open_to_query : Text → OpenAnswer
  pub query_status : Text → Option ServiceStatus
  pub open_to_read : Text → OpenAnswer
  pub config_size : Text → ℕ
  pub service_start_name : Text → Option Text

-- ERROR_SERVICE_NEVER_STARTED
abbrev pub never_started : ℕ
never_started = 1077

unfoldable pub last_start_failed : ℕ → Text
unfolding decimal
last_start_failed code =
    codes "last start failed with Win32 error " ++ decimal code ++ codes "; check the Event Log"

-- The switch on the state, with the exit code.
unfoldable pub in_state : Text → ℕ → ServiceState → Status
unfolding last_start_failed
in_state name code running = record { name = name; installed = true; running = true; detail = [] }
in_state name code start_pending = record {
  name = name;
  installed = true;
  running = true;
  detail = [];
}
in_state name code continue_pending = record {
  name = name;
  installed = true;
  running = true;
  detail = [];
}
in_state name code stopped = record {
  name = name;
  installed = true;
  running = false;
  detail = if not (code == 0) && not (code == never_started) then last_start_failed code else [];
}
in_state name code _ = record { name = name; installed = true; running = false; detail = [] }

-- The part of `queryService` behind the opening of the service.
unfoldable pub read_status : Text → Option ServiceStatus → Result QueryError Status
unfolding in_state
read_status name none = err query_failed
read_status name (some status) = ok (in_state name status.win32_exit_code status.current_state)

unfoldable pub opened_status : Text → OpenAnswer → Option ServiceStatus → Result QueryError Status
unfolding read_status
opened_status name does_not_exist status =
    ok (record { name = name; installed = false; running = false; detail = [] })
opened_status name refused status = err query_failed
opened_status name opened status = read_status name status

-- `queryService`
unfoldable pub query_service : Scm → Text → Result QueryError Status
unfolding opened_status has_nul
query_service m name =
    if not m.manager_opens || has_nul name
    then err query_failed
    else opened_status name (m.open_to_query name) (m.query_status name)

-- `serviceAccountName`
unfoldable pub start_name : OpenAnswer → ℕ → Option Text → Option Text
start_name opened size name = if size == 0 then none else name
start_name _ size name = none

unfoldable pub service_account_name : Scm → Text → Option Text
unfolding start_name has_nul
service_account_name m name =
    if not m.manager_opens || has_nul name
    then none
    else start_name (m.open_to_read name) (m.config_size name) (m.service_start_name name)
