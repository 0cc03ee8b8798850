-- ===== src/Ssh/Session.antt =====
-- internal/sshserver/session.go: the process that a session runs. The SSH library's session, the
-- look-up of programs and the outcome of starting them are arguments.
pub mod Laws
pub mod Finds
pub mod Run
use termcp_relay.Prelude.{
  ℕ, Bool, true, false, not, ◌&&◌, List, [], ◌∷◌, ◌++◌, Option, none, some, if◌then◌else◌, Text,
  codes, ◌=t=◌, is_nil, is_some,
}
use termcp_relay.Strings.{Unicode, is_blank, trim_space, fields}
use termcp_relay.Env.Replace.{replace_env}

pub data OsSignal : Type 0 where
  sigterm sigint sigkill sighup : OsSignal

-- `sshSignalToOSSig`
unfoldable pub ssh_signal_to_os : Text → Option OsSignal
unfolding ◌=t=◌
ssh_signal_to_os sig =
    if sig =t= codes "TERM"
    then some sigterm
    else if sig =t= codes "INT"
    then some sigint
    else if sig =t= codes "KILL"
    then some sigkill
    else if sig =t= codes "HUP"
    then some sighup
    else none

-- The goroutine that forwards signals: what reaches the process, from the signals that the client
-- sends, each with whether the process had been started by then.
unfoldable pub forward_signals : List (Text × Bool) → List OsSignal
unfolding ssh_signal_to_os
forward_signals [] = []
forward_signals ((sig, started) ∷ sigs) =
    let rest = forward_signals sigs in
    if not started then rest else elim (ssh_signal_to_os sig) [ none ↦ rest | some s ↦ s ∷ rest ]

-- `runtime.GOOS`
pub data Os : Type 0 where
  windows linux darwin other_unix : Os

-- What the program asks of the machine about shells.
pub record Shells : Type 0 where
  pub os : Os
  pub look_path : Text → Option Text
  pub shell_variable : Text
  pub stat_ok : Text → Bool

-- The first name that `exec.LookPath` finds, by the path found.
unfoldable pub first_found : (Text → Option Text) → List Text → Option Text
first_found look [] = none
first_found look (name ∷ names) =
    let rest = first_found look names in elim (look name) [ none ↦ rest | some path ↦ some path ]

-- The first path that `os.Stat` knows.
unfoldable pub first_present : (Text → Bool) → List Text → Option Text
first_present present [] = none
first_present present (path ∷ paths) =
    let rest = first_present present paths in if present path then some path else rest

abbrev or_one : Option Text → Text → List Text
or_one none path = path ∷ []
or_one (some found) path = found ∷ []

-- The platform's part of `defaultShellArgs`.
unfoldable pub detect_shell : Shells → Os → List Text
detect_shell m windows =
    or_one
      (first_found m.look_path (codes "pwsh.exe" ∷ codes "powershell.exe" ∷ codes "cmd.exe" ∷ []))
      (codes "cmd.exe")
detect_shell m _ =
    let sh = trim_space m.shell_variable in
    let known = codes "/bin/zsh" ∷ codes "/bin/bash" ∷ codes "/bin/sh" ∷ [] in
    if not (is_nil sh) && is_some (m.look_path sh)
    then fields sh
    else or_one (first_present m.stat_ok known) (codes "/bin/sh")

-- `defaultShellArgs`
unfoldable pub default_shell_args : Shells → Text → List Text
unfolding detect_shell
default_shell_args m shell_override =
    if not (is_blank shell_override) then fields shell_override else detect_shell m m.os

-- `ExitCode()`: -1 stands for a process that a signal ended.
pub data ExitCode : Type 0 where
  code : ℕ → ExitCode
  minus_one : ExitCode

-- The `exec.Cmd` that is started: the terminal's, or one on the session's streams.
pub record Command : Type 0 where
  pub args : List Text
  pub env : List Text
  pub dir : Option Text
  pub on_pty : Bool
  pub setsid : Bool

-- `setPtySysProcAttr` of pty_unix.go and pty_windows.go.
unfoldable pub set_pty_sys_proc_attr : Os → Command → Command
set_pty_sys_proc_attr windows cmd = cmd
set_pty_sys_proc_attr _ cmd = record cmd { setsid = true }

-- What is written to the session by the relay itself, and the status it exits with.
pub record Reply : Type 0 where
  pub output : Text
  pub exit : ExitCode

module _ ⦃u : Unicode⦄ where
  -- What `handleSession` sets for the terminal that the client asked for, and its type.
  unfoldable pub on_terminal : Os → Option Text → Command → Command
  unfolding set_pty_sys_proc_attr replace_env
  on_terminal os none cmd = cmd
  on_terminal os (some term) cmd =
      let detached = set_pty_sys_proc_attr os cmd in
      record detached { env = replace_env detached.env (codes "TERM") term; on_pty = true }

  -- The command of a session: the client's, or the default shell. `term` is the terminal's type if
  -- the client asked for a terminal, and `block` what `sessionEnv` returns.
  unfoldable pub session_command :
      Shells → Text → Text → List Text → List Text → Option Text → Command
  unfolding default_shell_args on_terminal
  session_command m shell_override work_dir command block term = on_terminal m.os term (record {
    args = if is_nil command then default_shell_args m shell_override else command;
    env = block;
    dir = if is_nil work_dir then none else some work_dir;
    on_pty = false;
    setsid = false;
  })

-- The end of `handleSession`. `start_error` is what starting the command reports, and `state` the
-- exit code of the process after the wait, if there is one.
unfoldable pub session_reply : Option Text → Option ExitCode → Reply
session_reply (some message) state = record { output = message ++ (b'\n' ∷ []); exit = code 1 }
session_reply none none = record { output = []; exit = code 127 }
session_reply none (some exit) = record { output = []; exit = exit }

-- `handleSftpSubsystem`: the directory that the library's server works in, and the exit status; the
-- flag is whether `sftp.NewServer` succeeds.
unfoldable pub sftp_reply : Text → Bool → Option Text × ExitCode
sftp_reply work_dir created =
    (if is_nil work_dir then none else some work_dir, if created then code 0 else code 1)
