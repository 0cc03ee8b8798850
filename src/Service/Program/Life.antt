-- ===== src/Service/Program/Life.antt =====
-- Starting and stopping the daemon's program, in any order and with any answers.
use termcp_relay.Prelude.{
  ◌≡◌, refl, sym, ap, ◌∙◌, ◌⊎◌, inl, inr, Bool, true, Option, none, some, arith, Text, Result, ok,
  err, Bool-cases, is_some,
}
use termcp_relay.Strings.{Unicode}
use termcp_relay.Host.Paths.{Paths}
use termcp_relay.Host.Disk.{Disk, FileError, stat_ok}
use termcp_relay.Config.Settings.{Config}
use termcp_relay.Config.Validate.{ConfigError}
use termcp_relay.Config.Load.{Decoder, load}
use termcp_relay.Ssh.Auth.{Auth, LoadError}
use termcp_relay.Ssh.Server.{Server, NewError, StartError}
use termcp_relay.Ssh.Server.Admission.{plain_library}
use termcp_relay.Service.Log.{Handler}
use termcp_relay.Service.WorkDir.{Homes}
use termcp_relay.Service.Program.{
  Program, ProgramError, Answers, after_start, after_new, after_keys, after_log, after_load,
  start_program, stop_program,
}
use termcp_relay.Service.Program.Laws.{start_program-HasStarted}

module _ {Signer : Type 0} ⦃u : Unicode⦄ (paths : Paths) (decode : Decoder) (m : Homes)
    (parse_authorized_key : Text → Option (Text × Text))
    (parse_private_key : Text → Option Signer) where
  -- No error is reported, or the program holds the server that it held.
  abbrev Keeps : Program Signer → Option ProgramError × Program Signer × Disk → Type 0
  Keeps p r = (r.0 ≡ none) ⊎ (r.1.srv ≡ p.srv)

  after_start-Keeps :
      (p : Program Signer) (r : (Option StartError × Server Signer) × Disk)
      → Keeps p (after_start paths decode m parse_authorized_key parse_private_key p r)
  unfolding after_start
  after_start-Keeps p ((some e, s), d) = inr refl
  after_start-Keeps p ((none, s), d) = inl refl

  after_new-Keeps :
      (a : Answers) (p : Program Signer) (d : Disk) (r : Result NewError (Server Signer))
      → Keeps p (after_new paths decode m parse_authorized_key parse_private_key a p d r)
  unfolding after_new
  after_new-Keeps a p d (err e) = inr refl
  after_new-Keeps a p d (ok s) = after_start-Keeps p _

  after_keys-Keeps :
      (a : Answers) (p : Program Signer) (d : Disk) (cfg : Config) (r : Option LoadError × Auth)
      → Keeps p (after_keys paths decode m parse_authorized_key parse_private_key a p d cfg r)
  unfolding after_keys
  after_keys-Keeps a p d cfg (some e, auth) = inr refl
  after_keys-Keeps a p d cfg (none, auth) = after_new-Keeps a p d _

  after_log-Keeps :
      (a : Answers) (p : Program Signer) (cfg : Config) (log : Result FileError Handler × Disk)
      → Keeps p (after_log paths decode m parse_authorized_key parse_private_key a p cfg log)
  unfolding after_log
  after_log-Keeps a p cfg (err e, d) = inr refl
  after_log-Keeps a p cfg (ok h, d) =
      after_keys-Keeps a (record p { log_open = is_some h.file }) d cfg _

  after_load-Keeps :
      (a : Answers) (p : Program Signer) (d : Disk) (r : Result ConfigError Config)
      → Keeps p (after_load paths decode m parse_authorized_key parse_private_key a p d r)
  unfolding after_load
  after_load-Keeps a p d (err e) = inr refl
  after_load-Keeps a p d (ok cfg) = after_log-Keeps a p cfg _

  start_program-Keeps :
      (a : Answers) (p : Program Signer) (d : Disk)
      → Keeps p (start_program paths decode m parse_authorized_key parse_private_key a p d)
  unfolding start_program
  start_program-Keeps a p d = elim (Bool-cases (is_some p.srv)) [
    | inl held ↦ simp held (inr refl)
    | inr idle ↦
        simp idle (after_load-Keeps a p d (load paths (stat_ok d) decode p.opts.config_path))
  ]

  -- One call, by any thread, with any answers, on any disk.
  pub data Step : Program Signer → Program Signer → Type 0 where
    starts :
        (a : Answers) (p : Program Signer) (d : Disk)
        → Step p (start_program paths decode m parse_authorized_key parse_private_key a p d).1
    stops : (p : Program Signer) (closed : Bool) → Step p (stop_program p closed).1

  pub data Reach (p : Program Signer) : Program Signer → Type 0 where
    here : Reach p p
    next : {q r : Program Signer} → Reach p q → Step q r → Reach p r

  -- The server that is held, if there is one, runs.
  pub record HoldsRunning (p : Program Signer) : Type 0 where
    pub runs : (s : Server Signer) → p.srv ≡ some s → s.started ≡ true

  start_program-HoldsRunning :
      (a : Answers) (p : Program Signer) (d : Disk)
      → HoldsRunning p
      → HoldsRunning (start_program paths decode m parse_authorized_key parse_private_key a p d).1
  start_program-HoldsRunning a p d i =
      let r = start_program paths decode m parse_authorized_key parse_private_key a p d in
      elim (start_program-Keeps a p d) [
        | inr kept ↦ record { runs = λ s e. i.runs s (sym kept ∙ e) }
        | inl fine ↦
            let started =
              start_program-HasStarted plain_library paths decode m parse_authorized_key
                parse_private_key a p r.1 d r.2 (ap (λ o. (o, r.1, r.2)) fine) in
            record {
              runs = λ s e.
                  let same : s ≡ started.serves.server = cc (e, started.serves.held) in
                  ap (λ s. s.started) same ∙ started.serves.running;
            }
      ]

  Step-HoldsRunning : {p q : Program Signer} → Step p q → HoldsRunning p → HoldsRunning q
  unfolding stop_program
  Step-HoldsRunning (starts a p d) i = start_program-HoldsRunning a p d i
  Step-HoldsRunning (stops p closed) i = record { runs = λ s e. cc }

  -- Whatever calls of `Start` and `Stop` a program without a server sees, the server that it holds
  -- in the end, if any, runs.
  pub Reach-HoldsRunning : {p q : Program Signer} → p.srv ≡ none → Reach p q → HoldsRunning q
  Reach-HoldsRunning idle here = record { runs = λ s e. absurd (ground (arith, idle, e)) }
  Reach-HoldsRunning idle (next r st) = Step-HoldsRunning st (Reach-HoldsRunning idle r)
