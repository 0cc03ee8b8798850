-- ===== src/Lib.antt =====
-- termcp-relay: a standalone SSH daemon with shells, SFTP and port forwarding, which can run as a
-- service of the machine. This library models its own logic and states what makes it correct.
--
-- The parts and how they interact. The program reads a TOML file into a configuration, fills it in
-- and validates it (internal/config/config.go). From it the daemon makes its authentication
-- (internal/sshserver/auth.go) and its server (server.go), whose start reads or creates the host
-- key (hostkey.go). A session runs the client's command or a shell (session.go) in an environment
-- that is made anew from the machine's settings (env.go, env_windows.go, env_other.go). The
-- daemon's program (internal/service/service.go) puts these together. The subcommand `service`
-- (internal/service/cli.go) prepares and registers an installation, and re-launches itself with more
-- rights on Windows. The service manager starts the daemon with the arguments of its definition, which
-- main.go reads.
--
-- The files:
-- - Prelude and its children: shared names, lists, texts (a text is its list of code points) and
--   results that are a value or an error. Strings and its children: what the code uses of Go's
--   packages strings, unicode and fmt. Dict: maps as association lists. Flags: Go's package flag.
-- - Host/Paths, Host/Disk: path/filepath, and a disk as explicit state.
-- - Env/Path, Replace, Lookup, Expand, Layer, Compose: mergePath, replaceEnv, envLookup,
--   expandPercent, expandLayer and composeEnv of env.go. Env/Session: env_windows.go and
--   env_other.go.
-- - Config/Settings, Normalize, Address, Validate, Load, Init, Template: the types, normalize and
--   resolve, splitHostPort and isLoopback, Validate, Load, WriteTemplate and its text.
-- - Ssh/Auth, HostKey, Server, Session: the four files of internal/sshserver of these names, with
--   pty_unix.go and pty_windows.go. Ssh/Session/Run: handleSession of session.go while it runs.
-- - Cli/Options: the options of internal/service/service.go. Cli/Args: the arguments of the
--   elevated process. Cli/Flags: the flags of Command. Cli/Account: resolveAccount and
--   promptVerifiedPassword. Cli/Elevate: maybeElevate. Cli/Install: prepareInstall. Cli/Control:
--   control, install and the exit code of printStatus. Cli/Report: what printStatus and
--   install print. Cli/Command: Command.
-- - Service/WorkDir, Program, Definition, Foreground, Log, Hints: resolveWorkDir, Start and Stop of
--   Program, kserviceConfig, RunForeground, newLogHandler and listenableIPv4Hints of
--   internal/service/service.go. Service/SystemdScript: platform_linux.go. Service/State:
--   status_other.go. Service/Stubs: stubs_other.go and platform_windows.go.
-- - Windows/Credential, Account: account_windows.go. Windows/Rights: logon_windows.go and
--   lsaright_windows.go. Windows/State: status_windows.go. Windows/CommandLine, Elevate:
--   elevate_windows.go. Windows/Platform: the accounts of Cli/Account made of these.
--   Windows/Handover: maybeElevate of cli.go with the disk, made of these. All of them are in
--   internal/service.
-- - Main: main.go.
-- - The modules below these, such as Env/Path/Laws, hold the theorems. Tests: runs on inputs.
--
-- State and operations. Code that changes state takes the state and returns the new one: the disk,
-- the server, the table of variables. The mutex of the server makes Start and Stop single steps,
-- and Ssh/Server/Life lets them follow each other in any order with any outcome of the system's
-- calls. Go's pointers to a configuration or to options are values that are handed on; the settings
-- of the authentication are taken to stay as they are once the server is made.
--
-- The goroutines of a session are a step relation: the type Move of Ssh/Session/Run has a step for
-- each call that the handler and the forwarder of signals make, and for the start and the end of the
-- process, and Reach lets them follow each other and the client's signals in any order. The channel
-- between the client and the forwarder holds eight signals.
--
-- Fuel. The loop over authorized keys runs for one round more than the file has characters, which is
-- enough since the library consumes what it parses (Ssh/Auth/Laws). The loop of expandPercent has a
-- round for each character, and each round consumes one at least (Env/Expand/Laws). A number is
-- printed with ten digits at most, or eight in base 16, which is enough for 32 bits (Strings/Decimal,
-- Strings/Hexadecimal). All other loops follow their lists.
--
-- What is a parameter: the tables of package unicode, path/filepath, the TOML decoder, the SSH
-- library, the parsers and makers of keys, the registry, the console, the service managers, the
-- account database and the security policy of Windows, and the process that ShellExecuteEx starts.
-- The laws that are relied on stand beside the parameter. LookupAccountName is taken to count the
-- terminating null of a domain's name, so that the buffer for it is not empty.
--
-- What is not modelled: texts that are not valid UTF-8, most of what is printed and all that is
-- logged, the usage texts, the time that a constant-time comparison takes, what a session's streams
-- carry, which the library moves, the goroutine of a session that empties the channel of the
-- terminal's sizes and does nothing else, a process that is stopped from outside, a failure to
-- remove the report of the elevated process, and the C structures and procedure addresses of the calls of Windows.
pub mod Prelude
pub mod Strings
pub mod Dict
pub mod Env
pub mod Host
pub mod Config
pub mod Flags
pub mod Ssh
pub mod Cli
pub mod Windows
pub mod Service
pub mod Main
mod Tests
