-- ===== src/Service/Foreground.antt =====
-- `RunForeground`: the daemon on a terminal, until a signal comes.
pub mod Laws
use termcp_relay.Prelude.{Bool, true, Option, none, some, Text}
use termcp_relay.Strings.{Unicode}
use termcp_relay.Host.Paths.{Paths}
use termcp_relay.Host.Disk.{Disk}
use termcp_relay.Config.Load.{Decoder}
use termcp_relay.Service.WorkDir.{Homes}
use termcp_relay.Service.Program.{Program, ProgramError, Answers, start_program, stop_program}

-- The part after `Start`; `closed` is what `Stop` is told after the signal.
unfoldable pub until_signal :
    {Signer : Type 0}
    → Option ProgramError × Program Signer × Disk
    → Bool
    → Bool × Program Signer × Disk
unfolding stop_program
until_signal (some e, p, d) closed = (true, p, d)
until_signal (none, p, d) closed = let stopped = stop_program p closed in (stopped.0, stopped.1, d)

-- `RunForeground`: whether it reports an error, the program and the disk.
unfoldable pub run_foreground :
    {Signer : Type 0} ⦃u : Unicode⦄
    → Paths
    → Decoder
    → Homes
    → (Text → Option (Text × Text))
    → (Text → Option Signer)
    → Answers
    → Program Signer
    → Disk
    → Bool
    → Bool × Program Signer × Disk
unfolding until_signal
run_foreground paths decode m parse_authorized_key parse_private_key a p d closed =
    until_signal (start_program paths decode m parse_authorized_key parse_private_key a p d) closed
