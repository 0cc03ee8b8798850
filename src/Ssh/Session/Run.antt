-- ===== src/Ssh/Session/Run.antt =====
-- `handleSession` of internal/sshserver/session.go while it runs: its own goroutine, the one that
-- forwards signals, and the channel between the client and it, interleaved in any order. The library
-- sends to the channel, and starting the process and its end are the system's. The goroutine that
-- empties the channel of the terminal's sizes does nothing else and is left out.
pub mod Inv
pub mod Moves
pub mod Laws
pub mod Ends
use termcp_relay.Prelude.{
  ◌≡◌, ℕ, suc, ◌+◌, ◌*◌, ◌<◌, Bool, true, false, List, [], ◌∷◌, ◌++◌, Option, none, some, Text,
  length,
}
use termcp_relay.Ssh.Session.{OsSignal, ssh_signal_to_os, ExitCode, code}

-- `make(chan ssh.Signal, 8)`
abbrev pub capacity : ℕ
capacity = 8

-- Where the handler stands, with the local variables that are live there: before the command is
-- started, after it was refused, after that was written, in `Wait`, after `Wait` with the exit code
-- of `ProcessState`, and at its end, with the error of the start or the exit code.
pub data Handling : Type 0 where
  starting : Handling
  refused : Text → Handling
  written : Text → Handling
  waiting : Handling
  ended : Option ExitCode → Handling
  returned : Option Text → Option ExitCode → Handling

-- Where the goroutine stands that forwards signals: at the head of its loop, with a signal, and
-- behind the test that there is a process.
pub data Forwarder : Type 0 where
  ranging : Forwarder
  received : Text → Forwarder
  checked : Text → Forwarder

-- `process` is whether `cmd.Process` is set. What the session and the process were told is kept in
-- order: the signals that were sent to the channel, those that the forwarder has tested, each with
-- whether there was a process at that moment, the calls of `Process.Signal`, what the relay
-- itself wrote to the session, and the calls of `Exit`.
pub record Running : Type 0 where
  pub handler : Handling
  pub forwarder : Forwarder
  pub process : Bool
  pub queue : List Text
  pub sent : List Text
  pub tested : List (Text × Bool)
  pub signalled : List OsSignal
  pub output : Text
  pub exits : List ExitCode

-- `exitCode`
unfoldable pub final_code : Option ExitCode → ExitCode
final_code none = code 127
final_code (some exit) = exit

-- One step of either goroutine, or of the process. The pointer to the process is set inside the
-- call that starts the command, so that the forwarder may see it before that call returns.
pub data Move (s : Running) : Running → Type 0 where
  spawns : s.handler ≡ starting → s.process ≡ false → Move s (record s { process = true })
  starts : s.handler ≡ starting → s.process ≡ true → Move s (record s { handler = waiting })
  fails : (message : Text) → s.handler ≡ starting → Move s (record s { handler = refused message })
  writes :
      {message : Text}
      → s.handler ≡ refused message
      → Move s
          (record s { handler = written message; output = s.output ++ message ++ (b'\n' ∷ []) })
  gives_up :
      {message : Text}
      → s.handler ≡ written message
      → Move s
          (record s { handler = returned (some message) none; exits = s.exits ++ (code 1 ∷ []) })
  ends :
      (state : Option ExitCode) → s.handler ≡ waiting → Move s (record s { handler = ended state })
  exits :
      {state : Option ExitCode}
      → s.handler ≡ ended state
      → Move s
          (record s { handler = returned none state; exits = s.exits ++ (final_code state ∷ []) })
  receives :
      {sig : Text} {rest : List Text}
      → s.forwarder ≡ ranging
      → s.queue ≡ sig ∷ rest
      → Move s (record s { forwarder = received sig; queue = rest })
  drops :
      {sig : Text}
      → s.forwarder ≡ received sig
      → s.process ≡ false
      → Move s (record s { forwarder = ranging; tested = s.tested ++ ((sig, s.process) ∷ []) })
  checks :
      {sig : Text}
      → s.forwarder ≡ received sig
      → s.process ≡ true
      → Move s (record s { forwarder = checked sig; tested = s.tested ++ ((sig, s.process) ∷ []) })
  passes :
      {sig : Text}
      → s.forwarder ≡ checked sig
      → ssh_signal_to_os sig ≡ none
      → Move s (record s { forwarder = ranging })
  signals :
      {sig : Text} {os_sig : OsSignal}
      → s.forwarder ≡ checked sig
      → ssh_signal_to_os sig ≡ some os_sig
      → Move s (record s { forwarder = ranging; signalled = s.signalled ++ (os_sig ∷ []) })

-- The library sends a signal of the client, for which the channel has to have room.
abbrev pub send : Running → Text → Running
send s sig = record s { queue = s.queue ++ (sig ∷ []); sent = s.sent ++ (sig ∷ []) }

abbrev pub begin : Running
begin = record {
  handler = starting;
  forwarder = ranging;
  process = false;
  queue = [];
  sent = [];
  tested = [];
  signalled = [];
  output = [];
  exits = [];
}

-- What a session may come to, after a number of moves.
pub data Reach : ℕ → Running → Type 0 where
  start : Reach 0 begin
  sends :
      {n : ℕ} {s : Running}
      → Reach n s
      → (sig : Text) → length s.queue < capacity
      → Reach n (send s sig)
  moves : {n : ℕ} {s t : Running} → Reach n s → Move s t → Reach (suc n) t
