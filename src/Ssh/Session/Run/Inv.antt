-- ===== src/Ssh/Session/Run/Inv.antt =====
-- What holds in every state of a session that can be reached.
use termcp_relay.Prelude.{
  ◌≡◌, ℕ, ◌+◌, ◌*◌, ◌≤◌, Bool, true, false, List, [], ◌∷◌, ◌++◌, Option, none, some, Text, length,
}
use termcp_relay.Ssh.Session.{OsSignal, ssh_signal_to_os, forward_signals, ExitCode, code}
use termcp_relay.Ssh.Session.Run.{
  capacity, Handling, starting, refused, written, waiting, ended, returned, Forwarder, ranging,
  received, checked, Running, final_code,
}

-- The signals that the forwarder holds and has not tested yet.
abbrev pub held : Forwarder → List Text
held (received sig) = sig ∷ []
held _ = []

abbrev pub to_list : Option OsSignal → List OsSignal
to_list none = []
to_list (some s) = s ∷ []

-- The call that the forwarder is about to make.
abbrev pub pending : Forwarder → List OsSignal
pending (checked sig) = to_list (ssh_signal_to_os sig)
pending _ = []

-- The signals that were tested, without what the tests found.
unfoldable pub names : List (Text × Bool) → List Text
names [] = []
names ((sig, started) ∷ tested) = sig ∷ names tested

-- What the relay has written by itself, and the status that it has exited with.
abbrev pub said : Handling → Text
said (written message) = message ++ (b'\n' ∷ [])
said (returned (some message) state) = message ++ (b'\n' ∷ [])
said _ = []

abbrev pub exited : Handling → List ExitCode
exited (returned (some message) state) = code 1 ∷ []
exited (returned none state) = final_code state ∷ []
exited _ = []

-- The steps that the handler has left at most.
abbrev pub handler_left : Handling → ℕ
handler_left starting = 3
handler_left (refused message) = 2
handler_left (written message) = 1
handler_left waiting = 2
handler_left (ended state) = 1
handler_left (returned e state) = 0

abbrev pub forwarder_left : Forwarder → ℕ
forwarder_left ranging = 0
forwarder_left (received sig) = 2
forwarder_left (checked sig) = 1

abbrev pub process_left : Bool → ℕ
process_left true = 0
process_left false = 1

abbrev pub left : Running → ℕ
left s =
    handler_left s.handler
    + process_left s.process
    + forwarder_left s.forwarder
    + 3 * length s.queue

-- The signals were sent in this order: those that were tested, the one that the forwarder holds, and
-- those that wait; the process was told what forwarding the tested ones comes to.
pub record Order (s : Running) : Type 0 where
  pub order : s.sent ≡ names s.tested ++ held s.forwarder ++ s.queue
  pub forwarded : s.signalled ++ pending s.forwarder ≡ forward_signals s.tested
  pub silent : s.process ≡ false → forward_signals s.tested ≡ []

pub record Inv (n : ℕ) (s : Running) : Type 0 where
  pub signals : Order s
  pub alive : s.handler ≡ waiting → s.process ≡ true
  pub room : length s.queue ≤ capacity
  pub wrote : s.output ≡ said s.handler
  pub left_with : s.exits ≡ exited s.handler
  pub bounded : n + left s ≤ 4 + 3 * length s.sent
