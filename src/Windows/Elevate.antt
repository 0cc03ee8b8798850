-- ===== src/Windows/Elevate.antt =====
-- `shellExecuteEx` and `relaunchElevated` of internal/service/elevate_windows.go.
pub mod Laws
use termcp_relay.Prelude.{
  ℕ, Bool, true, false, not, ◌&&◌, ◌||◌, List, [], ◌∷◌, ◌++◌, Option, none, some, if◌then◌else◌,
  Text, codes, is_nil, Result, ok, err,
}
use termcp_relay.Host.Disk.{Disk, FileResult, content, failed, read_file, remove_file}
use termcp_relay.Cli.Args.{elevated_output_flag}
use termcp_relay.Windows.Rights.{has_nul}
use termcp_relay.Windows.Credential.{create_temp}
use termcp_relay.Windows.CommandLine.{join_args}

-- What ShellExecuteEx and the calls after it answer: the process is not started, there is no handle
-- of it, the wait for its end or for its exit code fails, or it ends.
pub data Launch : Type 0 where
  cancelled not_started no_handle wait_failed : Launch
  exited : ℕ → Launch

-- A process that is started works on the disk until it ends. `report` is the name of the new file
-- that `os.CreateTemp` makes.
pub record Shell : Type 0 where
  pub executable : Option Text
  pub report : Option Text
  pub execute : Text → Text → Option Text → Disk → Launch × Disk

pub data ShellError : Type 0 where
  nul_in_text was_cancelled other_error : ShellError

unfoldable pub exit_of : Launch → Result ShellError ℕ
exit_of cancelled = err was_cancelled
exit_of not_started = err other_error
exit_of no_handle = ok 0
exit_of wait_failed = err other_error
exit_of (exited code) = ok code

-- The parameters, of which there are none without arguments.
unfoldable pub params_of : List Text → Option Text
unfolding join_args
params_of [] = none
params_of (a ∷ args) = some (join_args (a ∷ args))

abbrev pub has_nul_opt : Option Text → Bool
has_nul_opt none = false
has_nul_opt (some s) = has_nul s

-- `shellExecuteEx`
unfoldable pub shell_execute_ex :
    Shell → Disk → Text → Text → List Text → Result ShellError ℕ × Disk
unfolding exit_of params_of has_nul
shell_execute_ex m d verb file args =
    if has_nul verb || has_nul file || has_nul_opt (params_of args)
    then (err nul_in_text, d)
    else (let answer = m.execute verb file (params_of args) d in (exit_of answer.0, answer.1))

pub data ElevateError : Type 0 where
  no_executable no_report elevation_declined : ElevateError
  shell_failed : ShellError → ElevateError

unfoldable pub elevate_result : Result ShellError ℕ → Result ElevateError ℕ
elevate_result (ok code) = ok code
elevate_result (err was_cancelled) = err elevation_declined
elevate_result (err nul_in_text) = err (shell_failed nul_in_text)
elevate_result (err other_error) = err (shell_failed other_error)

-- What is replayed on the standard output.
unfoldable pub replayed : FileResult → Text
replayed (content text) = text
replayed (failed e) = []

-- What `relaunchElevated` comes to: its result, what it replays, and the disk.
pub record Relaunch : Type 0 where
  pub result : Result ElevateError ℕ
  pub output : Text
  pub disk : Disk

abbrev pub child_command : List Text → Text → List Text
child_command args path = args ++ (elevated_output_flag ∷ path ∷ [])

-- The part that has the program's file and that of the report, which is removed in the end; that
-- `os.Remove` succeeds there is taken for granted.
unfoldable pub relaunch_with : Shell → Disk → List Text → Text → Text → Relaunch
unfolding shell_execute_ex elevate_result replayed read_file remove_file create_temp
relaunch_with m d args exe path =
    let ran =
      shell_execute_ex m (create_temp d path []) (codes "runas") exe (child_command args path) in
    record {
      result = elevate_result ran.0;
      output = replayed (read_file ran.1 path);
      disk = remove_file ran.1 path;
    }

unfoldable pub relaunch_found : Shell → Disk → List Text → Option Text → Option Text → Relaunch
unfolding relaunch_with
relaunch_found m d args none report = record { result = err no_executable; output = []; disk = d }
relaunch_found m d args (some exe) none = record { result = err no_report; output = []; disk = d }
relaunch_found m d args (some exe) (some path) = relaunch_with m d args exe path

-- `relaunchElevated`
unfoldable pub relaunch_elevated : Shell → Disk → List Text → Relaunch
unfolding relaunch_found
relaunch_elevated m d args = relaunch_found m d args m.executable m.report
