-- ===== src/Ssh/Server/Life.antt =====
-- Starting and stopping a server, in any order and with any outcome of the system's calls.
use termcp_relay.Prelude.{
  ◌≡◌, ◌≢◌, refl, sym, ◌∙◌, ◌⊎◌, inl, inr, Bool, true, false, List, [], ◌∷◌, ◌++◌, Option, none,
  some, arith, Text, is_nil, is_some, Result, ok, err, Bool-cases, false≢true,
}
use termcp_relay.Host.Paths.{Paths}
use termcp_relay.Host.Disk.{Disk}
use termcp_relay.Ssh.HostKey.{KeyError}
use termcp_relay.Ssh.Server.{Options, Server, already_started, listen_with, new, start, stop}

is_nil-concat {ℓ} : {A : Type ℓ} (xs : List A) (a : A) → is_nil (xs ++ (a ∷ [])) ≡ false
is_nil-concat [] a = refl
is_nil-concat (x ∷ xs) a = refl

module _ {Signer : Type 0} where
  -- A server that runs has a listener and a host key.
  pub record IsConsistent (s : Server Signer) : Type 0 where
    pub listens : s.started ≡ true → is_some s.listener ≡ true
    pub keyed : s.started ≡ true → is_nil s.host_keys ≡ false

  -- What no call changes: who is let in, and the options.
  abbrev pub SameSettings : Server Signer → Server Signer → Type 0
  SameSettings s t = (t.handlers ≡ s.handlers) × (t.opts ≡ s.opts) × (t.auth ≡ s.auth)

  listen_with_lem :
      (s : Server Signer) (bound : Option Text) (key : Result KeyError Signer)
      → s.started ≡ false
      → let (e, s') = listen_with s bound key in
        IsConsistent s'
        × SameSettings s s'
        × (((e ≡ none) × (s'.started ≡ true) × (s'.listener ≡ bound))
            ⊎ ((e ≢ none) × (s'.started ≡ false) × (s'.listener ≡ s.listener)))
  unfolding listen_with
  listen_with_lem s bound (err e) h = (
    record {
      listens = λ r. absurd (false≢true (sym h ∙ r));
      keyed = λ r. absurd (false≢true (sym h ∙ r));
    },
    (refl, refl, refl),
    inr ((λ n. cc), h, refl),
  )
  listen_with_lem s none (ok signer) h = (
    record {
      listens = λ r. absurd (false≢true (sym h ∙ r));
      keyed = λ r. is_nil-concat s.host_keys signer;
    },
    (refl, refl, refl),
    inr ((λ n. cc), h, refl),
  )
  listen_with_lem s (some addr) (ok signer) h = (
    record { listens = λ r. refl; keyed = λ r. is_nil-concat s.host_keys signer },
    (refl, refl, refl),
    inl (refl, refl, refl),
  )

  module _ (paths : Paths) (parse_private_key : Text → Option Signer) where
    -- `Start` on a running server is an error that changes nothing, the disk included. On one that
    -- does not run it either reports no error, and the server then runs on the address that was
    -- bound, or it reports one, and the server still does not run and keeps its listener.
    pub start_lem :
        (s : Server Signer) (d : Disk) (random bound : Option Text)
        → let ((e, s'), d') = start paths parse_private_key s d random bound in
          (s.started ≡ true → (e ≡ some already_started) × (s' ≡ s) × (d' ≡ d))
          × (s.started ≡ false
              → ((e ≡ none) × (s'.started ≡ true) × (s'.listener ≡ bound))
                ⊎ ((e ≢ none) × (s'.started ≡ false) × (s'.listener ≡ s.listener)))
    unfolding start
    start_lem s d random bound =
        ((λ r. simp r (refl, refl, refl)), (λ h. simp h (listen_with_lem s bound _ h).2))

    -- One call, by any thread, with any outcome of the system's calls.
    pub data Step : Server Signer → Server Signer → Type 0 where
      starts :
          (s : Server Signer) (d : Disk) (random bound : Option Text)
          → Step s (start paths parse_private_key s d random bound).0.1
      stops : (s : Server Signer) (closed : Bool) → Step s (stop s closed).1

    pub data Reach (s : Server Signer) : Server Signer → Type 0 where
      here : Reach s s
      next : {t v : Server Signer} → Reach s t → Step t v → Reach s v

    start-IsConsistent :
        (s : Server Signer) (d : Disk) (random bound : Option Text)
        → IsConsistent s
        → let s' = (start paths parse_private_key s d random bound).0.1 in
          IsConsistent s' × SameSettings s s'
    unfolding start
    start-IsConsistent s d random bound i = elim (Bool-cases s.started) [
      | inl r ↦ simp r (i, (refl, refl, refl))
      | inr h ↦ let l = listen_with_lem s bound _ h in simp h (l.0, l.1)
    ]

    stop-IsConsistent :
        (s : Server Signer) (closed : Bool)
        → IsConsistent s
        → let s' = (stop s closed).1 in IsConsistent s' × SameSettings s s'
    unfolding stop
    stop-IsConsistent s closed i = elim (Bool-cases s.started) [
      | inl r ↦ simp r (record { listens = λ e. cc; keyed = λ e. cc }, (refl, refl, refl))
      | inr h ↦ simp h (i, (refl, refl, refl))
    ]

    Step-IsConsistent :
        {s t : Server Signer} → Step s t → IsConsistent s → IsConsistent t × SameSettings s t
    Step-IsConsistent (starts s d random bound) i = start-IsConsistent s d random bound i
    Step-IsConsistent (stops s closed) i = stop-IsConsistent s closed i

    Reach-IsConsistent :
        {s t : Server Signer} → Reach s t → IsConsistent s → IsConsistent t × SameSettings s t
    Reach-IsConsistent here i = (i, (refl, refl, refl))
    Reach-IsConsistent (next r st) i =
        let (j, same) = Reach-IsConsistent r i in
        let (k, same') = Step-IsConsistent st j in
        (k, (same'.0 ∙ same.0, same'.1 ∙ same.1, same'.2 ∙ same.2))

    -- However a new server is started and stopped, it runs only with a listener and a host key,
    -- and its handlers, its options and its authentication stay what `New` made them.
    pub new-Reach :
        (opts : Options) (set_option : Bool) (s t : Server Signer)
        → new opts set_option ≡ ok s
        → Reach s t
        → IsConsistent t × SameSettings s t
    unfolding new
    new-Reach opts set_option s t h r =
        let idle : s.started ≡ false = ground arith in
        Reach-IsConsistent r (record {
          listens = λ e. absurd (false≢true (sym idle ∙ e));
          keyed = λ e. absurd (false≢true (sym idle ∙ e));
        })
