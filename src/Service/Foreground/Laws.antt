-- ===== src/Service/Foreground/Laws.antt =====
-- How the daemon on a terminal ends: with no server, and with an error exactly when something failed.
use termcp_relay.Prelude.{
  subst, is_some, ◌≡◌, refl, sym, ap, ◌⊎◌, inl, inr, Bool, true, false, not, Option, none, some,
  Text, Result, ok, err, Bool-cases, arith,
}
use termcp_relay.Strings.{Unicode}
use termcp_relay.Host.Paths.{Paths}
use termcp_relay.Host.Disk.{Disk, FileError}
use termcp_relay.Config.Settings.{Config}
use termcp_relay.Config.Validate.{ConfigError}
use termcp_relay.Config.Load.{Decoder}
use termcp_relay.Ssh.Auth.{Auth, LoadError}
use termcp_relay.Ssh.Server.{Server, NewError, StartError, stop}
use termcp_relay.Ssh.Server.Admission.{Library}
use termcp_relay.Service.Log.{Handler}
use termcp_relay.Service.WorkDir.{Homes}
use termcp_relay.Service.Program.{
  Program, ProgramError, Answers, after_start, after_new, after_keys, after_log, after_load,
  start_program, stop_program,
}
use termcp_relay.Service.Program.Laws.{HasStarted, start_program-HasStarted}
use termcp_relay.Service.Foreground.{until_signal, run_foreground}

module _ {Signer : Type 0} ⦃u : Unicode⦄ (paths : Paths) (decode : Decoder) (homes : Homes)
    (parse_authorized_key : Text → Option (Text × Text))
    (parse_private_key : Text → Option Signer) where
  -- A start that fails leaves the server of the program as it was.
  abbrev Keeps : Program Signer → Option ProgramError × Program Signer × Disk → Type 0
  Keeps p (some e, p', d) = p'.srv ≡ p.srv
  Keeps p (none, p', d) = Unit

  after_start-Keeps :
      (p : Program Signer) (r : (Option StartError × Server Signer) × Disk)
      → Keeps p (after_start paths decode homes parse_authorized_key parse_private_key p r)
  unfolding after_start
  after_start-Keeps p ((some e, s), d) = refl
  after_start-Keeps p ((none, s), d) = tt

  after_new-Keeps :
      (a : Answers) (p : Program Signer) (d : Disk) (r : Result NewError (Server Signer))
      → Keeps p (after_new paths decode homes parse_authorized_key parse_private_key a p d r)
  unfolding after_new
  after_new-Keeps a p d (err e) = refl
  after_new-Keeps a p d (ok s) = after_start-Keeps p _

  after_keys-Keeps :
      (a : Answers) (p : Program Signer) (d : Disk) (cfg : Config) (r : Option LoadError × Auth)
      → Keeps p (after_keys paths decode homes parse_authorized_key parse_private_key a p d cfg r)
  unfolding after_keys
  after_keys-Keeps a p d cfg (some e, auth) = refl
  after_keys-Keeps a p d cfg (none, auth) = after_new-Keeps a p d _

  with_log-Keeps :
      (p : Program Signer) (opened : Bool) (r : Option ProgramError × Program Signer × Disk)
      → Keeps (record p { log_open = opened }) r
      → Keeps p r
  with_log-Keeps p opened (some e, p', d) h = h
  with_log-Keeps p opened (none, p', d) h = tt

  after_log-Keeps :
      (a : Answers) (p : Program Signer) (cfg : Config) (log : Result FileError Handler × Disk)
      → Keeps p (after_log paths decode homes parse_authorized_key parse_private_key a p cfg log)
  unfolding after_log
  after_log-Keeps a p cfg (err e, d) = refl
  after_log-Keeps a p cfg (ok h, d) =
      with_log-Keeps p (is_some h.file) _
        (after_keys-Keeps a (record p { log_open = is_some h.file }) d cfg _)

  after_load-Keeps :
      (a : Answers) (p : Program Signer) (d : Disk) (r : Result ConfigError Config)
      → Keeps p (after_load paths decode homes parse_authorized_key parse_private_key a p d r)
  unfolding after_load
  after_load-Keeps a p d (err e) = refl
  after_load-Keeps a p d (ok cfg) = after_log-Keeps a p cfg _

  start_program-Keeps :
      (a : Answers) (p : Program Signer) (d : Disk)
      → Keeps p (start_program paths decode homes parse_authorized_key parse_private_key a p d)
  unfolding start_program
  start_program-Keeps a p d = elim (Bool-cases (is_some p.srv)) [
    | inl held ↦ rw held refl
    | inr idle ↦ rw idle (after_load-Keeps a p d _)
  ]

  -- How a run comes to its end: the start fails, which is reported; or the program has started and
  -- served, the log is closed after the signal, and an error is reported when the library does not
  -- close the server.
  abbrev pub Ends :
      Library → Answers → Program Signer → Disk → Bool → Bool × Program Signer × Disk → Type 0
  Ends library a p d closed r =
      let started = start_program paths decode homes parse_authorized_key parse_private_key a p d in
      ((e : ProgramError) × (started.0 ≡ some e) × (r.0 ≡ true) × (r.1.srv ≡ p.srv))
      ⊎ (HasStarted library paths decode homes parse_authorized_key parse_private_key a p started.1
            d
          × (started.0 ≡ none)
          × (r.0 ≡ not closed)
          × (r.1.srv ≡ none)
          × (r.1.log_open ≡ false))

  stop_program_running :
      (p : Program Signer) (s : Server Signer) (closed : Bool)
      → p.srv ≡ some s
      → s.started ≡ true
      → (stop_program p closed).0 ≡ not closed
  unfolding stop_program stop
  stop_program_running p s closed held running = ground (arith, held, running)

  ended :
      (library : Library) (a : Answers) (p : Program Signer) (d : Disk) (closed : Bool)
      (r : Option ProgramError × Program Signer × Disk)
      → start_program paths decode homes parse_authorized_key parse_private_key a p d ≡ r
      → Keeps p r
      → Ends library a p d closed (until_signal r closed)
  unfolding until_signal stop_program
  ended library a p d closed (some e, p', d') found keeps =
      inl (e, ap (λ r. r.0) found, refl, keeps)
  ended library a p d closed (none, p', d') found keeps =
      let h =
        start_program-HasStarted library paths decode homes parse_authorized_key parse_private_key a
          p p' d d' found in
      let same : (start_program paths decode homes parse_authorized_key parse_private_key a p d).1
          ≡ p' =
        ap (λ r. r.1) found in
      inr (
        subst
            (λ p'.
              HasStarted library paths decode homes parse_authorized_key parse_private_key a p p' d)
            (sym same) h,
        ap (λ r. r.0) found,
        stop_program_running p' h.serves.server closed h.serves.held h.serves.running,
        refl,
        refl,
      )

  -- Whatever the answers are, a run of `RunForeground` ends in one of two ways. If `Start` fails, that
  -- is reported, and the program holds the server that it held before. Else the configuration had
  -- loaded, and the program had held a server that ran on the bound address and admitted exactly the
  -- clients that the configuration and the key file admit; after the signal it holds no server, its
  -- log is closed, and an error is reported exactly when the library does not close the server.
  pub run_foreground-Ends :
      (library : Library) (a : Answers) (p : Program Signer) (d : Disk) (closed : Bool)
      → Ends library a p d closed
          (run_foreground paths decode homes parse_authorized_key parse_private_key a p d closed)
  unfolding run_foreground
  run_foreground-Ends library a p d closed =
      ended library a p d closed _ refl (start_program-Keeps a p d)
