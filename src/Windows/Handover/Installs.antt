-- ===== src/Windows/Handover/Installs.antt =====
-- `service install` for an account with a password, from the process without rights to the service
-- that the elevated one registers.
use termcp_relay.Prelude.{
  ◌≡◌, ◌≢◌, ◌⊎◌, refl, sym, ap, ◌∙◌, subst, inl, inr, ℕ, Bool, true, false, List, [], ◌∷◌, Option,
  some, Text, codes, ◌=t=◌, is_nil, ok, map_err, arith, if◌then◌else◌,
}
use termcp_relay.Strings.{Unicode, is_blank, trim_space}
use termcp_relay.Dict.{member}
use termcp_relay.Host.Paths.{Paths}
use termcp_relay.Host.Disk.{Disk}
use termcp_relay.Config.Load.{Decoder}
use termcp_relay.Ssh.Session.{Os, windows}
use termcp_relay.Cli.Options.{Options, default_name, service_name}
use termcp_relay.Cli.Args.{child_flags, credential_flag, elevated_output_flag}
use termcp_relay.Cli.Args.Hidden.{Avoids}
use termcp_relay.Cli.Account.{Accounts, resolve_account}
use termcp_relay.Cli.Install.{InstallError, account, prepare_install}
use termcp_relay.Cli.Install.Laws.{SamePaths}
use termcp_relay.Cli.Install.Again.{prepare_install_again}
use termcp_relay.Cli.Flags.{options_of}
use termcp_relay.Cli.Flags.Laws.{flags_of}
use termcp_relay.Cli.Elevate.{Elevation}
use termcp_relay.Cli.Command.{Steps, installs, run_install, run_action, command}
use termcp_relay.Cli.Command.Laws.{IsPlain, maybe_elevate_goes_on}
use termcp_relay.Service.Definition.{kservice_config, service_arguments, password_option}
use termcp_relay.Windows.Account.{Console}
use termcp_relay.Windows.Platform.{windows_accounts}
use termcp_relay.Windows.Credential.{create_temp, write_credential_file}
use termcp_relay.Windows.Elevate.Laws.{EndedWith}
use termcp_relay.Windows.CommandLine.{argv}
use termcp_relay.Main.{main_request, services}
use termcp_relay.Windows.Handover.{Machine, maybe_elevate_on}
use termcp_relay.Windows.Handover.Resumes.{Handed, maybe_elevate_on_resumes}

-- The options that the elevated process goes on with: those of its arguments, and the password.
abbrev pub registered : Options → Options
registered o = record (options_of (flags_of o)) { password = o.password; needs_credential = false }

service_name-registered : (o : Options) → service_name (registered o) ≡ service_name o
unfolding service_name options_of is_blank trim_space
service_name-registered o = name_cases o.name
  where
    name_cases :
        (name : Text)
        → service_name (record (registered o) { name = if is_nil name then default_name else name })
          ≡ service_name (record o { name = name })
    name_cases [] = refl
    name_cases (c ∷ name) = refl

user_name-registered : (o : Options) → o.system ≡ false → (registered o).user_name ≡ o.user_name
unfolding options_of
user_name-registered o h = rw h refl

password_option-registered :
    (os : Os) (o r : Options)
    → r.user_name ≡ o.user_name
    → r.password ≡ o.password
    → password_option os r ≡ password_option os o
unfolding password_option
password_option-registered windows o r user password = rw (user, password) refl
password_option-registered _ o r user password = refl

same_definition :
    (paths : Paths) (os : Os) (r o : Options)
    → service_name r ≡ service_name o
    → SamePaths o r
    → r.log_level ≡ o.log_level
    → r.user_name ≡ o.user_name
    → r.password ≡ o.password
    → kservice_config paths os r ≡ kservice_config paths os o
unfolding kservice_config service_arguments
same_definition paths os r o name (config, log, dir) level user password =
    let option = password_option-registered os o r user password in
    rw (option, name, config, log, dir, level, user) refl

-- The service manager is told the same of the options that are registered and of those that were
-- prepared.
registered-kservice_config :
    (paths : Paths) (os : Os) (o : Options)
    → o.system ≡ false
    → kservice_config paths os (registered o) ≡ kservice_config paths os o
unfolding options_of
registered-kservice_config paths os o h =
    same_definition paths os (registered o) o (service_name-registered o) (refl, refl, refl) refl
      (user_name-registered o h) refl

run_install_installs :
    {E : Type 0} (steps : Steps E) (o o' : Options) (file : Text)
    → steps.prepare o file ≡ ok o'
    → run_install steps true o file ≡ installs o'
unfolding run_install
run_install_installs steps o o' file h =
    ground (arith, h, maybe_elevate_goes_on steps.elevation (codes "install") o' true refl)

run_action_installs :
    {E : Type 0} (steps : Steps E) (o o' : Options) (file : Text)
    → steps.prepare o file ≡ ok o'
    → run_action steps true (codes "install") o file ≡ installs o'
unfolding run_action ◌=t=◌
run_action_installs steps o o' file h = run_install_installs steps o o' file h

module _ ⦃u : Unicode⦄ (paths : Paths) (stat_ok : Text → Bool) (decode : Decoder)
    (home : Option Text) (token : Option (Text × Text)) (console : ℕ → Console)
    (logon_user : Option Text → Text → Text → Bool) where
  -- The elevated process, which prepares an installation by the accounts of Windows and this disk.
  abbrev pub elevated_steps : Elevation → Disk → Steps InstallError
  elevated_steps elevation d = record {
    prepare = λ o file.
        prepare_install paths stat_ok decode (windows_accounts token console logon_user d) home o
          file;
    elevation = elevation;
  }

  -- The process that was launched ended with the code, or there was no handle of it and the code is 0;
  -- it was asked, by its command line, to run the subcommand, and this goes on to register the
  -- service with the definition that was prepared.
  pub record Registers (m : Machine) (d' : Disk) (elevation : Elevation) (o : Options)
      (report : Text) (code : ℕ) : Type 0 where
    pub exe : Text
    pub line : Text
    pub args : List Text
    pub ended :
        EndedWith
          (m.shell.execute (codes "runas") exe (some line) (create_temp d' report [])).0
          code
    pub requested : main_request (argv line) ≡ services args
    pub registers :
        command (elevated_steps elevation (create_temp d' report [])) args ≡ installs (registered o)
    pub told : kservice_config paths windows (registered o) ≡ kservice_config paths windows o

  prepares_again :
      (a : Accounts) (o o' : Options) (d : Disk) (file : Text)
      → a.on_windows ≡ true
      → prepare_install paths stat_ok decode a home o [] ≡ ok o'
      → ((told : Options)
          → resolve_account (windows_accounts token console logon_user d) told file
            ≡ ok (record told { password = o'.password; needs_credential = false }))
      → prepare_install paths stat_ok decode
          (windows_accounts token console logon_user d)
          home
          (options_of (flags_of o'))
          file
        ≡ ok (registered o')
  unfolding options_of windows_accounts
  prepares_again a o o' d file w h settles =
      prepare_install_again paths stat_ok decode home a
        (windows_accounts token console logon_user d) o o' (options_of (flags_of o')) [] file
        (sym w) h (refl, refl, refl)
      ∙ ap (map_err account) (settles (options_of (flags_of o')))

  Handed-Registers :
      (a : Accounts) (m : Machine) (d' : Disk) (elevation : Elevation) (o o' : Options)
      (file report : Text) (code : ℕ)
      → a.on_windows ≡ true
      → prepare_install paths stat_ok decode a home o [] ≡ ok o'
      → o'.system ≡ false
      → m.shell.report ≡ some report
      → Handed m d'
          (elevated_steps elevation (create_temp d' report []))
          (codes "install")
          o'
          file
          code
      → Registers m d' elevation o' report code
  Handed-Registers a m d' elevation o o' file report code w h plain reported ran =
      let steps = elevated_steps elevation (create_temp d' report []) in
      let at : ran.resumed.path ≡ report = ground (arith, ran.resumed.reported, reported) in
      let settles = λ (told : Options).
        subst
          (λ p.
            resolve_account (windows_accounts token console logon_user (create_temp d' p [])) told
              file
            ≡ ok (record told { password = o'.password; needs_credential = false }))
          at (ran.settles token console logon_user told) in
      let prepares = prepares_again a o o' (create_temp d' report []) file w h settles in
      record {
        exe = ran.resumed.exe;
        line = ran.resumed.line;
        args = ran.resumed.args;
        ended =
            subst
              (λ p.
                EndedWith
                  (m.shell.execute (codes "runas") ran.resumed.exe (some ran.resumed.line)
                    (create_temp d' p [])).0
                  code)
              at ran.resumed.ended;
        requested = ran.resumed.requested;
        registers =
            ran.resumed.resumed
            ∙ run_action_installs steps (options_of (flags_of o')) (registered o') file prepares;
        told = registered-kservice_config paths windows o' plain;
      }

  -- If a process of Windows without rights prepares an installation for an account with a password
  -- and stops with a code, then either the code is 1, that of an error, or it launched a process that
  -- ended with the code, or of which there was no handle and the code is 0; and this process goes on
  -- to register the service, with the very definition that was prepared. It runs the program on the same machine, as far as files, directories and the home
  -- directory go. The account is not that of the system, no option and no file is spelled like a
  -- hidden flag, the file of the password has a name and can be read, and the report is another file.
  pub install-Registers :
      (a : Accounts) (m : Machine) (d d' : Disk) (elevation : Elevation) (o o' : Options)
      (file report : Text) (code : ℕ)
      → a.on_windows ≡ true
      → prepare_install paths stat_ok decode a home o [] ≡ ok o'
      → o'.system ≡ false
      → o'.needs_credential ≡ true
      → write_credential_file d m.handoff o'.password ≡ (some file, d')
      → Avoids credential_flag (codes "install" ∷ child_flags o')
      → Avoids elevated_output_flag (codes "install" ∷ child_flags o')
      → IsPlain (some file)
      → is_nil file ≡ false
      → m.shell.report ≡ some report
      → report ≢ file
      → d.refuses_read file ≡ false
      → (maybe_elevate_on m d (codes "install") o' false).stop ≡ some code
      → (code ≡ 1) ⊎ Registers m d' elevation o' report code
  unfolding member ◌=t=◌
  install-Registers a m d d' elevation o o' file report code w h plain needs wrote no_credential
        no_output file_plain named reported differ readable e =
      let steps = elevated_steps elevation (create_temp d' report []) in
      elim (maybe_elevate_on_resumes m d d' steps (codes "install") o' false file code wrote needs
        no_credential no_output file_plain named (λ same. differ (ground (arith, same, reported)))
        readable refl (rw plain refl) e) [
          | inl failed ↦ inl failed
          | inr ran ↦
              inr (Handed-Registers a m d' elevation o o' file report code w h plain reported ran)
        ]
