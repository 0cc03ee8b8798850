-- ===== src/Ssh/Session/Run/Ends.antt =====
-- A session is never stuck and comes to its end, and the client never waits for good to send a signal.
use mathlib.Core.List.{append-nil}
use termcp_relay.Prelude.{
  ◌++◌, sym, ap, ◌≡◌, refl, ◌∙◌, subst, ◌⊎◌, inl, inr, ℕ, suc, ◌+◌, ◌*◌, ◌≤◌, List, [], ◌∷◌, Option,
  none, Text, length, arith, Option-cases, Bool-cases,
}
use termcp_relay.Ssh.Session.{forward_signals, ssh_signal_to_os, ExitCode, session_reply}
use termcp_relay.Ssh.Session.Run.{
  Handling, starting, refused, written, waiting, ended, returned, Forwarder, ranging, received,
  checked, Running, Move, fails, writes, gives_up, ends, exits, receives, drops, checks, passes,
  signals, Reach, moves,
}
use termcp_relay.Ssh.Session.Run.Laws.{Reach-Forwards, Reach-Replied}
use termcp_relay.Ssh.Session.Run.Inv.{names, pending, forwarder_left}
use termcp_relay.Ssh.Session.Run.Moves.{Reach-Inv}

-- A session that has come to its end: the client was told what `session_reply` gives, the forwarder
-- is at the head of its loop, and every signal that was sent was tested and is told to the process if
-- there was one at its test.
pub record Done (s : Running) : Type 0 where
  pub error : Option Text
  pub state : Option ExitCode
  pub over : s.handler ≡ returned error state
  pub status : s.exits ≡ (session_reply error state).exit ∷ []
  pub idle : s.forwarder ≡ ranging
  pub empty : s.queue ≡ []
  pub tested : s.sent ≡ names s.tested
  pub told : s.signalled ≡ forward_signals s.tested

abbrev pub Can : Running → Type 0
Can s = (t : Running) × Move s t

handler-Can :
    (s : Running) (h : Handling)
    → s.handler ≡ h
    → Can s ⊎ ((e : Option Text) × (state : Option ExitCode) × (h ≡ returned e state))
handler-Can s starting e = inl (_, fails [] e)
handler-Can s (refused message) e = inl (_, writes e)
handler-Can s (written message) e = inl (_, gives_up e)
handler-Can s waiting e = inl (_, ends none e)
handler-Can s (ended state) e = inl (_, exits e)
handler-Can s (returned error state) e = inr (error, state, refl)

forwarder-Can :
    (s : Running) (f : Forwarder)
    → s.forwarder ≡ f
    → (queue : List Text) → s.queue ≡ queue
    → Can s ⊎ ((f ≡ ranging) × (queue ≡ []))
forwarder-Can s ranging e [] q = inr (refl, refl)
forwarder-Can s ranging e (sig ∷ rest) q = inl (_, receives e q)
forwarder-Can s (received sig) e queue q = elim (Bool-cases s.process) [
  | inl yes_process ↦ inl (_, checks e yes_process)
  | inr no_process ↦ inl (_, drops e no_process)
]
forwarder-Can s (checked sig) e queue q = elim (Option-cases (ssh_signal_to_os sig)) [
  | inl unknown ↦ inl (_, passes e unknown)
  | inr (os_sig, known) ↦ inl (_, signals e known)
]

finished :
    {n : ℕ} {s : Running} (e : Option Text) (state : Option ExitCode)
    → Reach n s
    → s.handler ≡ returned e state
    → s.forwarder ≡ ranging
    → s.queue ≡ []
    → Done s
finished {s} e state r over idle empty =
    let f = Reach-Forwards r in
    record {
      error = e;
      state = state;
      over = over;
      status = ((Reach-Replied r).after e state over).1;
      idle = idle;
      empty = empty;
      tested = f.order ∙ simp (idle, empty, append-nil);
      told = sym (append-nil s.signalled) ∙ sym (ap (λ g. s.signalled ++ pending g) idle) ∙ f.told;
    }

-- A session ends, however its goroutines are interleaved, once the client sends no more: there are
-- at most three steps for each signal and four others, and as long as the session is not at its end
-- there is one that can be made; at its end the client was told the status, and every signal was
-- tested and told to the process, if the system knows it and there was a process at its test. The end
-- of the process is such a step.
pub Reach-Ends : {n : ℕ} {s : Running} → Reach n s → (n ≤ 4 + 3 * length s.sent) × (Can s ⊎ Done s)
Reach-Ends {n} {s} r = (
  omega (arith, (Reach-Inv r).bounded),
  elim (handler-Can s s.handler refl) [
    | inl can ↦ inl can
    | inr (e, state, over) ↦ elim (forwarder-Can s s.forwarder refl s.queue refl) [
      | inl can ↦ inl can
      | inr (idle, empty) ↦ inr (finished e state r over idle empty)
    ]
  ],
)

-- The steps of the forwarder.
abbrev pub ByForwarder : {s t : Running} → Move s t → Type 0
ByForwarder (receives _ _) = Unit
ByForwarder (drops _ _) = Unit
ByForwarder (checks _ _) = Unit
ByForwarder (passes _ _) = Unit
ByForwarder (signals _ _) = Unit
ByForwarder _ = ⊥

-- A number of steps of the forwarder alone, from a state to another.
pub data Alone : ℕ → Running → Running → Type 0 where
  there : {s : Running} → Alone 0 s s
  first : {n : ℕ} {s t u : Running} (m : Move s t) → ByForwarder m → Alone n t u → Alone (suc n) s u

Alone-Reach : {k n : ℕ} {s t : Running} → Alone k s t → Reach n s → Reach (k + n) t
Alone-Reach {n} {s} there r = subst (λ k. Reach k s) (omega arith) r
Alone-Reach {n} (first {n = k} {u = u} m own more) r =
    subst (λ k. Reach k u) (omega arith) (Alone-Reach more (moves r m))

-- What the forwarder alone comes to from a state: the channel is empty, and every signal was tested,
-- and told to the process if there was one.
pub record Drained (s : Running) : Type 0 where
  pub steps : ℕ
  pub last : Running
  pub alone : Alone steps s last
  pub idle : last.forwarder ≡ ranging
  pub empty : last.queue ≡ []
  pub few : steps ≤ 3 * length s.queue + forwarder_left s.forwarder
  pub same : (last.handler ≡ s.handler) × (last.process ≡ s.process) × (last.sent ≡ s.sent)

-- One step of the forwarder, and then the others.
before :
    {s : Running} (t : Running) (m : Move s t)
    → ByForwarder m
    → (t.handler ≡ s.handler) × (t.process ≡ s.process) × (t.sent ≡ s.sent)
    → 1 + 3 * length t.queue + forwarder_left t.forwarder
      ≤ 3 * length s.queue + forwarder_left s.forwarder
    → Drained t
    → Drained s
before t m own same less d = record {
  steps = suc d.steps;
  last = d.last;
  alone = first m own d.alone;
  idle = d.idle;
  empty = d.empty;
  few = omega (arith, less, d.few);
  same = (d.same.0 ∙ same.0, d.same.1 ∙ same.1, d.same.2 ∙ same.2);
}

-- The forwarder can go on from the head of its loop, with this queue.
abbrev FromHead : List Text → Type 0
FromHead queue = (s : Running) → s.queue ≡ queue → s.forwarder ≡ ranging → Drained s

module _ {queue : List Text} (head : FromHead queue) where
  from_checked :
      (s : Running) (sig : Text) → s.queue ≡ queue → s.forwarder ≡ checked sig → Drained s
  from_checked s sig q f = elim (Option-cases (ssh_signal_to_os sig)) [
    | inl unknown ↦ before _ (passes f unknown) tt (refl, refl, refl) (ground arith) (head _ q refl)
    | inr (os_sig, known) ↦
        before _ (signals f known) tt (refl, refl, refl) (ground arith) (head _ q refl)
  ]

  from_received :
      (s : Running) (sig : Text) → s.queue ≡ queue → s.forwarder ≡ received sig → Drained s
  from_received s sig q f = elim (Bool-cases s.process) [
    | inl present ↦
        before _ (checks f present) tt (refl, refl, refl) (ground arith) (from_checked _ sig q refl)
    | inr absent ↦ before _ (drops f absent) tt (refl, refl, refl) (ground arith) (head _ q refl)
  ]

from_head : (queue : List Text) → FromHead queue
from_head [] s q f = record {
  steps = 0;
  last = s;
  alone = there;
  idle = f;
  empty = q;
  few = omega arith;
  same = (refl, refl, refl);
}
from_head (sig ∷ rest) s q f =
    before _ (receives f q) tt (refl, refl, refl) (ground arith)
      (from_received (from_head rest) _ sig refl refl)

drain : (f : Forwarder) (s : Running) → s.forwarder ≡ f → Drained s
drain ranging s f = from_head s.queue s refl f
drain (received sig) s f = from_received (from_head s.queue) s sig refl f
drain (checked sig) s f = from_checked (from_head s.queue) s sig refl f

-- Whatever the handler waits for, there are steps of the forwarder alone that lead from a state of
-- the session to one with an empty channel, at most three for each signal in it and two for the one
-- that the forwarder holds, so that a client that waits for room to send a signal does not wait for
-- good; the handler, the process and what was sent stay as they are. By then every signal that was
-- sent was tested, and told to the process if the system knows it and there was a process at its test.
pub Reach-Drained :
    {n : ℕ} {s : Running}
    → Reach n s
    → (d : Drained s) × (d.last.sent ≡ names d.last.tested)
      × (d.last.signalled ≡ forward_signals d.last.tested)
Reach-Drained {n} {s} r =
    let d = drain s.forwarder s refl in
    let f = Reach-Forwards (Alone-Reach d.alone r) in
    (
      d,
      f.order ∙ simp (d.idle, d.empty, append-nil),
      sym (append-nil d.last.signalled)
          ∙ sym (ap (λ g. d.last.signalled ++ pending g) d.idle)
          ∙ f.told,
    )
