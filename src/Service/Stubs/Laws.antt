-- ===== src/Service/Stubs/Laws.antt =====
-- Off Windows nothing of the handling of accounts and rights takes place.
use termcp_relay.Prelude.{
  ◌≡◌, ◌≢◌, refl, ℕ, Bool, false, List, [], ◌∷◌, Option, none, some, Text, Result, ok, arith,
}
use termcp_relay.Strings.{Unicode}
use termcp_relay.Cli.Options.{Options}
use termcp_relay.Cli.Account.{AccountError, resolve_account}
use termcp_relay.Cli.Command.{command, launched}
use termcp_relay.Cli.Command.Laws.{command_launches_none}
use termcp_relay.Cli.Control.{
  Manager, Failure, start_service, logon_failure, other_failure, grantee, retry_as, start,
  start_from, grant_logon_right_and_retry, exit_code,
}
use termcp_relay.Service.Stubs.{other_accounts, other_elevation, other_manager}

start_once :
    ⦃u : Unicode⦄ (e : Option Failure)
    → start_from e ([], false) ≡ (start_service ∷ [], exit_code e)
unfolding start_from
start_once none = refl
start_once (some logon_failure) = refl
start_once (some other_failure) = refl

-- Off Windows the subcommand launches no process, whatever its arguments; the account is left as it
-- is given; and a start is tried once, whose error is reported.
pub others_act_plainly :
    ⦃u : Unicode⦄ (m : Manager) (installed : Text → Option Bool)
    (prepare : Options → Text → Result AccountError Options) (args : List Text) (code : ℕ)
    (child : Option (List Text)) (file : Option Text) (o : Options) (path name : Text)
    → (command (record { prepare = prepare; elevation = other_elevation installed }) args
        ≢ launched code child file)
      × (resolve_account other_accounts o path ≡ ok o)
      × (start (other_manager m) name ≡ (start_service ∷ [], exit_code m.start_error))
unfolding other_elevation other_accounts other_manager resolve_account start
    grant_logon_right_and_retry grantee retry_as
others_act_plainly m installed prepare args code child file o path name = (
  command_launches_none (record { prepare = prepare; elevation = other_elevation installed }) args
      code child file (ground arith),
  refl,
  start_once m.start_error,
)
