-- ===== src/Ssh/Session/Run/Laws.antt =====
-- A session under any order of the steps of its goroutines: which signals reach the process, what the
-- client is told, that nothing is stuck, and that the session ends.
use termcp_relay.Prelude.{
  ◌≡◌, refl, ap, ◌∙◌, ◌⊎◌, inl, inr, ℕ, false, List, [], ◌∷◌, ◌++◌, Option, none, some, Text,
}
use termcp_relay.Ssh.Session.{forward_signals, ExitCode, session_reply}
use termcp_relay.Ssh.Session.Run.{
  Handling, starting, refused, written, waiting, ended, returned, Running, final_code, Reach,
}
use termcp_relay.Ssh.Session.Run.Inv.{names, pending, held, said, exited}
use termcp_relay.Ssh.Session.Run.Moves.{Reach-Inv}

front-eq-nil {ℓ} : {A : Type ℓ} (xs ys : List A) → xs ++ ys ≡ [] → xs ≡ []
front-eq-nil [] ys h = refl
front-eq-nil (x ∷ xs) ys h = cc

-- The signals that were sent are, in their order, those that were tested, at most one that the
-- forwarder holds, and those that wait; what the process was told, with the call that is about to be
-- made, is what `forward_signals` makes of the tested ones, each with whether there was a process at
-- the moment of its test.
pub record Forwards (s : Running) : Type 0 where
  pub order : s.sent ≡ names s.tested ++ held s.forwarder ++ s.queue
  pub told : s.signalled ++ pending s.forwarder ≡ forward_signals s.tested
  pub silent : s.process ≡ false → s.signalled ≡ []

-- However the goroutines are interleaved, no signal is lost, doubled or overtaken on its way to the
-- test; what the process is told is what the forwarding of the tested signals, one after the other,
-- comes to: the ones at whose test there was no process are dropped, all others that the system knows
-- are told, and until there is a process nothing is told.
pub Reach-Forwards : {n : ℕ} {s : Running} → Reach n s → Forwards s
Reach-Forwards {s} r =
    let o = (Reach-Inv r).signals in
    record {
      order = o.order;
      told = o.forwarded;
      silent = λ p. front-eq-nil s.signalled _ (o.forwarded ∙ o.silent p);
    }

-- What the client was told by the time the handler has returned, or before.
pub record Replied (s : Running) : Type 0 where
  pub before :
      (s.exits ≡ [])
      ⊎ ((e : Option Text) × (state : Option ExitCode) × (s.handler ≡ returned e state))
  pub after :
      (e : Option Text) (state : Option ExitCode)
      → s.handler ≡ returned e state
      → (s.output ≡ (session_reply e state).output) × (s.exits ≡ (session_reply e state).exit ∷ [])

said-session_reply :
    (e : Option Text) (state : Option ExitCode)
    → (said (returned e state) ≡ (session_reply e state).output)
      × (exited (returned e state) ≡ (session_reply e state).exit ∷ [])
unfolding session_reply final_code
said-session_reply (some message) state = (refl, refl)
said-session_reply none none = (refl, refl)
said-session_reply none (some exit) = (refl, refl)

exited-nil :
    (h : Handling) (es : List ExitCode)
    → es ≡ exited h
    → (es ≡ []) ⊎ ((e : Option Text) × (state : Option ExitCode) × (h ≡ returned e state))
exited-nil (returned e state) es h = inr (e, state, refl)
exited-nil starting es h = inl h
exited-nil (refused message) es h = inl h
exited-nil (written message) es h = inl h
exited-nil waiting es h = inl h
exited-nil (ended state) es h = inl h

-- However the goroutines are interleaved, the session exits at most once, when the handler returns,
-- and then with the status and after the output that `session_reply` gives.
pub Reach-Replied : {n : ℕ} {s : Running} → Reach n s → Replied s
Reach-Replied {s} r =
    let inv = Reach-Inv r in
    record {
      before = exited-nil s.handler s.exits inv.left_with;
      after = λ e state h. (
        inv.wrote ∙ ap said h ∙ (said-session_reply e state).0,
        inv.left_with ∙ ap exited h ∙ (said-session_reply e state).1,
      );
    }
