-- ===== src/Service/Program/Laws.antt =====
-- A daemon that has started serves the clients that its configuration admits.
use termcp_relay.Prelude.{
  ◌∷◌, if◌then◌else◌, is_nil, [], List, Bool-cases, is_some, ◌≡◌, refl, ap, ◌∙◌, subst, inl, inr,
  Bool, true, false, Option, none, some, arith, Text, Result, ok, err, Result-cases,
}
use termcp_relay.Strings.{Unicode}
use termcp_relay.Host.Paths.{Paths}
use termcp_relay.Host.Disk.{content, failed, read_file, FileResult, Disk, FileError, stat_ok}
use termcp_relay.Config.Settings.{Config}
use termcp_relay.Config.Validate.{ConfigError}
use termcp_relay.Config.Load.{Decoder, load}
use termcp_relay.Ssh.Auth.{no_keys, keys_of, keep_keys, Auth, LoadError, load_authorized_keys}
use termcp_relay.Ssh.Server.{Server, NewError, StartError, auth_of, new, start}
use termcp_relay.Ssh.Server as Ssh
use termcp_relay.Ssh.Server.Admission.{Credential, Library, is_admitted, new_admits}
use termcp_relay.Ssh.Server.Life.{start_lem, here, next, starts, new-Reach}
use termcp_relay.Service.Log.{Handler, new_log_handler}
use termcp_relay.Service.WorkDir.{Homes}
use termcp_relay.Service.Program.{
  is_blank, Program, Answers, configured_auth, server_options, after_start, after_new, after_keys,
  after_log, after_load, start_program, effective_level,
}

module _ {Signer : Type 0} ⦃u : Unicode⦄ (library : Library) (paths : Paths) (decode : Decoder)
    (m : Homes) (parse_authorized_key : Text → Option (Text × Text))
    (parse_private_key : Text → Option Signer) where
  -- The program holds a server that runs on the address that was bound, and admits exactly the
  -- clients that the settings admit.
  pub record IsServing (bound : Option Text) (auth : Auth) (p : Program Signer) : Type 0 where
    pub server : Server Signer
    pub held : p.srv ≡ some server
    pub running : server.started ≡ true
    pub bound_to : server.listener ≡ bound
    pub admits : (c : Credential) → library.admits server.handlers c ≡ is_admitted auth c

  after_start-IsServing :
      (bound : Option Text) (auth : Auth) (p p' : Program Signer) (d' : Disk)
      (r : (Option StartError × Server Signer) × Disk)
      → after_start paths decode m parse_authorized_key parse_private_key p r ≡ (none, p', d')
      → (r.0.0 ≡ none → (r.0.1.started ≡ true) × (r.0.1.listener ≡ bound))
      → ((c : Credential) → library.admits r.0.1.handlers c ≡ is_admitted auth c)
      → IsServing bound auth p'
  unfolding after_start
  after_start-IsServing bound auth p p' d' ((some e, s), d) h up ad = cc
  after_start-IsServing bound auth p p' d' ((none, s), d) h up ad =
      let same : record p { srv = some s } ≡ p' = ap (λ r. r.1) h in
      subst (IsServing bound auth) same (record {
        server = s;
        held = refl;
        running = (up refl).0;
        bound_to = (up refl).1;
        admits = ad;
      })

  -- A server that `New` made and that starts without an error.
  new_started :
      (s : Server Signer) (d : Disk) (random bound : Option Text)
      → s.started ≡ false
      → let r = start paths parse_private_key s d random bound in
        r.0.0 ≡ none → (r.0.1.started ≡ true) × (r.0.1.listener ≡ bound)
  new_started s d random bound idle e =
      elim ((start_lem paths parse_private_key s d random bound).1 idle) [
        | inl (fine, up, l) ↦ (up, l)
        | inr (fails, down, l) ↦ absurd (fails e)
      ]

  new-idle :
      (opts : Ssh.Options) (set_option : Bool) (s : Server Signer)
      → new opts set_option ≡ ok s
      → s.started ≡ false
  unfolding new
  new-idle opts set_option s h = ground arith

  after_new-IsServing :
      (a : Answers) (cfg : Config) (dir : Text) (auth : Auth) (p p' : Program Signer) (d d' : Disk)
      → after_new paths decode m parse_authorized_key parse_private_key a p d
          (new (server_options cfg dir auth) a.set_option)
        ≡ (none, p', d')
      → IsServing a.bound auth p'
  unfolding after_new server_options
  after_new-IsServing a cfg dir auth p p' d d' h =
      let opts = server_options cfg dir auth in
      elim (Result-cases (new {Signer = Signer} opts a.set_option)) [
        | inr (e, n) ↦ absurd (ground arith)
        | inl (s, n) ↦
            let started = start paths parse_private_key s d a.random a.bound in
            let same =
              (new-Reach paths parse_private_key opts a.set_option s started.0.1 n
                (next here (starts s d a.random a.bound))).1.0 in
            after_start-IsServing a.bound auth p p' d' started (ground arith)
              (new_started s d a.random a.bound (new-idle opts a.set_option s n))
              (λ c.
                ap (λ k. library.admits k c) same ∙ (new_admits library opts a.set_option s n).0 c)
      ]

  after_keys-IsServing :
      (a : Answers) (p p' : Program Signer) (d d' : Disk) (cfg : Config)
      (r : Option LoadError × Auth)
      → after_keys paths decode m parse_authorized_key parse_private_key a p d cfg r
        ≡ (none, p', d')
      → IsServing a.bound r.1 p'
  unfolding after_keys
  after_keys-IsServing a p p' d d' cfg (some e, auth) h = cc
  after_keys-IsServing a p p' d d' cfg (none, auth) h = after_new-IsServing a cfg _ auth p p' d d' h

  -- The keys of the file that the configuration names, if it names one.
  abbrev pub file_keys : Disk → Text → List Text
  file_keys d path = if is_blank path then [] else elim (read_file d path) [
    | failed e ↦ []
    | content raw ↦ keys_of parse_authorized_key raw
  ]

  -- The settings that the daemon is to authenticate by: those of the configuration, and the keys.
  abbrev pub loaded_auth : Disk → Config → Auth
  loaded_auth d cfg = record {
    no_auth = cfg.auth.no_auth;
    username = cfg.auth.username;
    password = cfg.auth.password;
    authorized_keys = file_keys d cfg.auth.authorized_keys;
  }

  keep_keys-loaded :
      (cfg : Config) (r : FileResult)
      → let keys : List Text = elim r [
        | failed e ↦ []
        | content raw ↦ keys_of parse_authorized_key raw
      ] in
        (keep_keys parse_authorized_key (configured_auth cfg) r).1 ≡ record {
          no_auth = cfg.auth.no_auth;
          username = cfg.auth.username;
          password = cfg.auth.password;
          authorized_keys = keys;
        }
  unfolding keep_keys configured_auth
  keep_keys-loaded cfg (failed e) = refl
  keep_keys-loaded cfg (content raw) = keys_cases (keys_of parse_authorized_key raw)
    where
      keys_cases :
          (keys : List Text)
          → let r : Option LoadError × Auth =
              if is_nil keys
              then (some no_keys, configured_auth cfg)
              else (none, record (configured_auth cfg) { authorized_keys = keys }) in
            r.1 ≡ record (configured_auth cfg) { authorized_keys = keys }
      keys_cases [] = refl
      keys_cases (k ∷ keys) = refl

  load_authorized_keys-loaded :
      (d : Disk) (cfg : Config)
      → (load_authorized_keys parse_authorized_key d
          (configured_auth cfg)
          cfg.auth.authorized_keys).1
        ≡ loaded_auth d cfg
  unfolding load_authorized_keys
  load_authorized_keys-loaded d cfg = elim (Bool-cases (is_blank cfg.auth.authorized_keys)) [
    | inl blank ↦ rw blank (unfold configured_auth in refl)
    | inr named ↦ rw named (keep_keys-loaded cfg (read_file d cfg.auth.authorized_keys))
  ]

  after_log-IsServing :
      (a : Answers) (p p' : Program Signer) (d' : Disk) (cfg : Config)
      (log : Result FileError Handler × Disk)
      → after_log paths decode m parse_authorized_key parse_private_key a p cfg log ≡ (none, p', d')
      → IsServing a.bound (loaded_auth log.1 cfg) p'
  unfolding after_log
  after_log-IsServing a p p' d' cfg (err e, d) h = cc
  after_log-IsServing a p p' d' cfg (ok handler, d) h =
      subst (λ auth. IsServing a.bound auth p') (load_authorized_keys-loaded d cfg)
        (after_keys-IsServing a (record p { log_open = is_some handler.file }) p' d d' cfg _ h)

  -- The disk once the log is opened.
  abbrev pub with_log : Program Signer → Disk → Config → Disk
  with_log p d cfg = (new_log_handler d (effective_level p.opts cfg) p.opts.log_file).1

  -- What a start that reports no error tells: the configuration loads, and the program holds a
  -- server that serves by it.
  pub record HasStarted (a : Answers) (p p' : Program Signer) (d : Disk) : Type 0 where
    pub cfg : Config
    pub loads : load paths (stat_ok d) decode p.opts.config_path ≡ ok cfg
    pub serves : IsServing a.bound (loaded_auth (with_log p d cfg) cfg) p'

  after_load-HasStarted :
      (a : Answers) (p p' : Program Signer) (d d' : Disk) (r : Result ConfigError Config)
      → load paths (stat_ok d) decode p.opts.config_path ≡ r
      → after_load paths decode m parse_authorized_key parse_private_key a p d r ≡ (none, p', d')
      → HasStarted a p p' d
  unfolding after_load
  after_load-HasStarted a p p' d d' (err e) found h = cc
  after_load-HasStarted a p p' d d' (ok c) found h = record {
    cfg = c;
    loads = found;
    serves = after_log-IsServing a p p' d' c _ h;
  }

  -- If `Program.Start` reports no error, the configuration file loads, and the program holds a
  -- server that runs on the address that was bound and that admits exactly the clients that the
  -- configuration and the authorized keys admit.
  pub start_program-HasStarted :
      (a : Answers) (p p' : Program Signer) (d d' : Disk)
      → start_program paths decode m parse_authorized_key parse_private_key a p d ≡ (none, p', d')
      → HasStarted a p p' d
  unfolding start_program
  start_program-HasStarted a p p' d d' h = after_load-HasStarted a p p' d d' _ refl (ground arith)
