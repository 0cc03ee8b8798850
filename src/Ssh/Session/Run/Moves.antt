-- ===== src/Ssh/Session/Run/Moves.antt =====
-- Every step keeps what holds in the states of a session, so that it holds in all that are reached.
use mathlib.Core.List.{append_assoc, append-nil}
use termcp_relay.Prelude.{
  inr, inl, Option-cases, Bool, ◌≡◌, refl, sym, ap, ◌∙◌, ℕ, suc, ◌+◌, ◌*◌, ◌≤◌, ◌<◌, true, false,
  List, [], ◌∷◌, ◌++◌, none, some, Text, length, length-append, arith,
}
use termcp_relay.Ssh.Session.{OsSignal, forward_signals, ssh_signal_to_os}
use termcp_relay.Ssh.Session.Run.{
  capacity, starting, refused, written, waiting, ended, ranging, received, checked, Running, Move,
  spawns, starts, fails, writes, gives_up, ends, exits, receives, drops, checks, passes, signals,
  send, begin, Reach, start, sends, moves,
}
use termcp_relay.Ssh.Session.Run.Inv.{names, held, to_list, pending, said, exited, left, Order, Inv}

send-Order : {s : Running} → Order s → (sig : Text) → Order (send s sig)
send-Order {s} o sig = record {
  order =
      ap (λ q. q ++ (sig ∷ [])) o.order
      ∙ append_assoc (names s.tested ++ held s.forwarder) s.queue (sig ∷ []);
  forwarded = o.forwarded;
  silent = o.silent;
}

send-Inv :
    {n : ℕ} {s : Running} → Inv n s → (sig : Text) → length s.queue < capacity → Inv n (send s sig)
send-Inv {n} {s} inv sig room = record {
  signals = send-Order inv.signals sig;
  alive = inv.alive;
  room = omega (arith, room, length-append s.queue (sig ∷ []));
  wrote = inv.wrote;
  left_with = inv.left_with;
  bounded =
      omega (arith, inv.bounded, length-append s.queue (sig ∷ []), length-append s.sent (sig ∷ []));
}

-- Where the goroutine that moves stands, for the clauses below that take several moves together.
abbrev Stands : {s t : Running} → Move s t → Type 0
Stands {s} (spawns _ _) = (s.handler ≡ starting) × (s.process ≡ false)
Stands {s} (starts _ _) = (s.handler ≡ starting) × (s.process ≡ true)
Stands {s} (fails _ _) = s.handler ≡ starting
Stands {s} (writes {message} _) = s.handler ≡ refused message
Stands {s} (gives_up {message} _) = s.handler ≡ written message
Stands {s} (ends _ _) = s.handler ≡ waiting
Stands {s} (exits {state} _) = s.handler ≡ ended state
Stands {s} (receives {sig} {rest} _ _) = (s.forwarder ≡ ranging) × (s.queue ≡ sig ∷ rest)
Stands {s} (drops {sig} _ _) = (s.forwarder ≡ received sig) × (s.process ≡ false)
Stands {s} (checks {sig} _ _) = (s.forwarder ≡ received sig) × (s.process ≡ true)
Stands {s} (passes {sig} _ _) = (s.forwarder ≡ checked sig) × (ssh_signal_to_os sig ≡ none)
Stands {s} (signals {sig} {os_sig} _ _) =
    (s.forwarder ≡ checked sig) × (ssh_signal_to_os sig ≡ some os_sig)

stands : {s t : Running} (m : Move s t) → Stands m
stands (spawns h p) = (h, p)
stands (starts h p) = (h, p)
stands (fails _ h) = h
stands (writes h) = h
stands (gives_up h) = h
stands (ends _ h) = h
stands (exits h) = h
stands (receives f q) = (f, q)
stands (drops f p) = (f, p)
stands (checks f p) = (f, p)
stands (passes f g) = (f, g)
stands (signals f g) = (f, g)

module _ {n : ℕ} {s : Running} (inv : Inv n s) where
  Move-wrote : {t : Running} → Move s t → t.output ≡ said t.handler
  Move-wrote (spawns _ _) = inv.wrote
  Move-wrote m = ground (arith, stands m, inv.wrote)

  Move-left_with : {t : Running} → Move s t → t.exits ≡ exited t.handler
  Move-left_with (spawns _ _) = inv.left_with
  Move-left_with m = ground (arith, stands m, inv.left_with)

  Move-room : {t : Running} → Move s t → length t.queue ≤ capacity
  Move-room (spawns _ _) = inv.room
  Move-room m = ground (arith, stands m, inv.room)

  Move-alive : {t : Running} → Move s t → t.handler ≡ waiting → t.process ≡ true
  Move-alive (spawns _ _) h = refl
  Move-alive m h = ground (arith, stands m, inv.alive)

  Move-bounded : {t : Running} → Move s t → suc n + left t ≤ 4 + 3 * length t.sent
  Move-bounded (spawns h p) = ground (arith, inv.bounded)
  Move-bounded m = ground (arith, stands m, inv.bounded)

names-append :
    (before after : List (Text × Bool)) → names (before ++ after) ≡ names before ++ names after
unfolding names
names-append [] after = refl
names-append ((sig, started) ∷ before) after = ap (λ r. sig ∷ r) (names-append before after)

-- What forwarding one signal comes to.
abbrev told_of : Text → Bool → List OsSignal
told_of sig true = to_list (ssh_signal_to_os sig)
told_of sig false = []

forward_signals-cons :
    (sig : Text) (started : Bool) (tested : List (Text × Bool))
    → forward_signals ((sig, started) ∷ tested) ≡ told_of sig started ++ forward_signals tested
unfolding forward_signals
forward_signals-cons sig false tested = refl
forward_signals-cons sig true tested = elim (Option-cases (ssh_signal_to_os sig)) [
  | inl unknown ↦ rw (unknown, forward_signals) refl
  | inr (s, known) ↦ rw (known, forward_signals) refl
]

forward_signals-snoc :
    (tested : List (Text × Bool)) (sig : Text) (started : Bool)
    → forward_signals (tested ++ ((sig, started) ∷ []))
      ≡ forward_signals tested ++ told_of sig started
forward_signals-snoc [] sig started =
    forward_signals-cons sig started [] ∙ unfold forward_signals in append-nil (told_of sig started)
forward_signals-snoc ((other, was) ∷ tested) sig started =
    forward_signals-cons other was (tested ++ ((sig, started) ∷ []))
    ∙ ap (λ r. told_of other was ++ r) (forward_signals-snoc tested sig started)
    ∙ sym (append_assoc (told_of other was) (forward_signals tested) (told_of sig started))
    ∙ ap (λ r. r ++ told_of sig started) (sym (forward_signals-cons other was tested))

-- A step that leaves the signals where they are.
keep-Order :
    {s t : Running}
    → Order s
    → t.sent ≡ s.sent
    → t.tested ≡ s.tested
    → held t.forwarder ++ t.queue ≡ held s.forwarder ++ s.queue
    → t.signalled ++ pending t.forwarder ≡ s.signalled ++ pending s.forwarder
    → (t.process ≡ false → s.process ≡ false)
    → Order t
keep-Order {s} {t} o sent tested queue signalled process = record {
  order =
      sent
      ∙ o.order
      ∙ append_assoc (names s.tested) (held s.forwarder) s.queue
      ∙ ap (λ q. names s.tested ++ q) (sym queue)
      ∙ ap (λ l. names l ++ (held t.forwarder ++ t.queue)) (sym tested)
      ∙ sym (append_assoc (names t.tested) (held t.forwarder) t.queue);
  forwarded = signalled ∙ o.forwarded ∙ ap forward_signals (sym tested);
  silent = λ p. ap forward_signals tested ∙ o.silent (process p);
}

module _ {s : Running} (o : Order s) where
  -- The signal that is held is tested.
  test-order :
      {sig : Text} (f : s.forwarder ≡ received sig)
      → s.sent ≡ names (s.tested ++ ((sig, s.process) ∷ [])) ++ s.queue
  unfolding names
  test-order {sig} f =
      o.order ∙ simp (f, names-append s.tested ((sig, s.process) ∷ []), append_assoc)

  test-forwarded :
      {sig : Text}
      → s.forwarder ≡ received sig
      → s.signalled ++ told_of sig s.process ≡ forward_signals (s.tested ++ ((sig, s.process) ∷ []))
  test-forwarded {sig} f =
      ap (λ l. l ++ told_of sig s.process)
        (sym (append-nil s.signalled) ∙ sym (ap (λ g. s.signalled ++ pending g) f) ∙ o.forwarded)
      ∙ sym (forward_signals-snoc s.tested sig s.process)

  drop-Order :
      {sig : Text}
      → s.forwarder ≡ received sig
      → s.process ≡ false
      → Order (record s { forwarder = ranging; tested = s.tested ++ ((sig, s.process) ∷ []) })
  drop-Order {sig} f p = record {
    order = test-order f ∙ simp (append-nil);
    forwarded = ap (λ b. s.signalled ++ told_of sig b) (sym p) ∙ test-forwarded f;
    silent = λ q.
        forward_signals-snoc s.tested sig s.process
        ∙ ap (λ b. forward_signals s.tested ++ told_of sig b) p
        ∙ append-nil (forward_signals s.tested)
        ∙ o.silent p;
  }

  check-Order :
      {sig : Text}
      → s.forwarder ≡ received sig
      → s.process ≡ true
      → Order (record s { forwarder = checked sig; tested = s.tested ++ ((sig, s.process) ∷ []) })
  check-Order {sig} f p = record {
    order = test-order f ∙ simp (append-nil);
    forwarded = ap (λ b. s.signalled ++ told_of sig b) (sym p) ∙ test-forwarded f;
    silent = λ q. ground arith;
  }

  Move-Order : {t : Running} → Move s t → Order t
  Move-Order (receives f q) = keep-Order o refl refl (rw (f, q) refl) (rw f refl) (λ h. h)
  Move-Order (drops f p) = drop-Order f p
  Move-Order (checks f p) = check-Order f p
  Move-Order (passes f g) = keep-Order o refl refl (rw f refl) (simp (f, g, append-nil)) (λ h. h)
  Move-Order (signals f g) = keep-Order o refl refl (rw f refl) (simp (f, g, append-nil)) (λ h. h)
  Move-Order (spawns _ _) = keep-Order o refl refl refl refl (λ h. ground arith)
  Move-Order m = keep-Order o refl refl refl refl (λ h. h)

Move-Inv : {n : ℕ} {s t : Running} → Inv n s → Move s t → Inv (suc n) t
Move-Inv inv m = record {
  signals = Move-Order inv.signals m;
  alive = Move-alive inv m;
  room = Move-room inv m;
  wrote = Move-wrote inv m;
  left_with = Move-left_with inv m;
  bounded = Move-bounded inv m;
}

begin-Inv : Inv 0 begin
unfolding names forward_signals
begin-Inv = record {
  signals = record { order = refl; forwarded = refl; silent = λ p. refl };
  alive = λ h. ground arith;
  room = omega arith;
  wrote = refl;
  left_with = refl;
  bounded = omega arith;
}

pub Reach-Inv : {n : ℕ} {s : Running} → Reach n s → Inv n s
Reach-Inv start = begin-Inv
Reach-Inv (sends r sig room) = send-Inv (Reach-Inv r) sig room
Reach-Inv (moves r m) = Move-Inv (Reach-Inv r) m
