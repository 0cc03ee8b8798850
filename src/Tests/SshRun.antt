-- ===== src/Tests/SshRun.antt =====
-- A session whose client sends a signal before there is a process and another one after.
use termcp_relay.Ssh.Session.Run.Inv.{names}
use termcp_relay.Prelude.{
  Text, false, ◌≡◌, refl, ◌≤◌, ◌+◌, ◌*◌, true, [], ◌∷◌, none, some, ◌⊎◌, arith, codes, length,
}
use termcp_relay.Ssh.Session.{
  forward_signals, sigterm, ssh_signal_to_os, minus_one, session_command,
}
use termcp_relay.Strings.{ascii}
use termcp_relay.Env.Session.Layers.{Layers}
use termcp_relay.Env.Compose.State.{env_get}
use termcp_relay.Env.Compose.Laws.{session_value}
use termcp_relay.Env.Session.{session_env}
use termcp_relay.Ssh.Session.Finds.{over_term, session_command_finds}
use termcp_relay.Tests.Env.{inherited, registry_key, registry_key-HasPlainNames}
use termcp_relay.Tests.Ssh.{machine}
use termcp_relay.Ssh.Session.Run.{
  Handling, returned, checked, Running, final_code, spawns, starts, ends, exits, receives, drops,
  checks, signals, begin, Reach, start, sends, moves,
}
use termcp_relay.Ssh.Session.Run.Laws.{Forwards, Reach-Forwards, Replied, Reach-Replied}
use termcp_relay.Ssh.Session.Run.Ends.{Can, Done, Reach-Ends, Drained, Reach-Drained}

-- The first signal is dropped, the process is started, and the second signal is told to it.
abbrev early_dropped : Running
early_dropped = record begin { sent = codes "INT" ∷ []; tested = (codes "INT", false) ∷ [] }

dropped : Reach 2 early_dropped
dropped =
    moves (moves (sends start (codes "INT") (omega arith)) (receives {sig = codes "INT"} refl refl))
      (drops {sig = codes "INT"} refl refl)

abbrev busy : Running
busy = record begin {
  handler = Handling.waiting;
  process = true;
  forwarder = checked (codes "TERM");
  sent = codes "INT" ∷ codes "TERM" ∷ [];
  tested = (codes "INT", false) ∷ (codes "TERM", true) ∷ [];
}

forwarding : Reach 6 busy
forwarding =
    moves
      (moves
        (sends (moves (moves dropped (spawns refl refl)) (starts refl refl)) (codes "TERM")
          (omega arith))
        (receives {sig = codes "TERM"} refl refl))
      (checks {sig = codes "TERM"} refl refl)

abbrev killed : Running
killed = record begin {
  handler = returned none (some minus_one);
  process = true;
  sent = codes "INT" ∷ codes "TERM" ∷ [];
  tested = (codes "INT", false) ∷ (codes "TERM", true) ∷ [];
  signalled = sigterm ∷ [];
  exits = minus_one ∷ [];
}

term_known : ssh_signal_to_os (codes "TERM") ≡ some sigterm
unfolding ssh_signal_to_os
term_known = refl

finished : Reach 9 killed
unfolding final_code
finished =
    moves
      (moves (moves forwarding (signals {sig = codes "TERM"} refl term_known))
        (ends (some minus_one) refl))
      (exits {state = some minus_one} refl)

Reach-Forwards_example : Forwards busy
Reach-Forwards_example = Reach-Forwards forwarding

Reach-Replied_example : Replied killed
Reach-Replied_example = Reach-Replied finished

Reach-Ends_example : (9 ≤ 4 + 3 * length killed.sent) × (Can killed ⊎ Done killed)
Reach-Ends_example = Reach-Ends finished

Reach-Drained_example :
    (d : Drained busy) × (d.last.sent ≡ names d.last.tested)
    × (d.last.signalled ≡ forward_signals d.last.tested)
Reach-Drained_example = Reach-Drained forwarding

-- A session with a terminal, on a machine whose registry sets `A`.
session_command_finds_example :
    (l : Layers inherited (some registry_key) none) × ((name : Text)
      → let block = session_env b';' inherited (some registry_key) none in
        env_get name (session_command machine [] [] [] block (some (codes "xterm"))).env
        ≡ over_term
            (some (codes "xterm"))
            name
            (session_value b';' inherited l.machine l.user name))
session_command_finds_example =
    session_command_finds machine [] [] [] (some (codes "xterm")) b';' inherited (some registry_key)
      none registry_key-HasPlainNames tt
