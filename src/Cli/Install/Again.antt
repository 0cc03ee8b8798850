-- ===== src/Cli/Install/Again.antt =====
-- What `prepareInstall` has settled stays as it is when it is prepared once more, by the elevated
-- process.
use termcp_relay.Prelude.{
  ◌≡◌, refl, sym, ap, ◌∙◌, subst, inl, inr, Bool, true, false, not, ◌&&◌, ◌++◌, [], ◌∷◌, Option,
  none, some, if◌then◌else◌, Text, codes, is_nil, ok, of_option, map_err, >>=-eq-ok,
  of_option-eq-ok, Bool-cases, Option-cases, arith, map_err-eq-ok,
}
use termcp_relay.Strings.{Unicode, is_blank}
use termcp_relay.Host.Paths.{Paths}
use termcp_relay.Config.Settings.{Config}
use termcp_relay.Config.Load.{Decoder, load, default_path}
use termcp_relay.Cli.Options.{Options, default_name}
use termcp_relay.Cli.Account.{Accounts, resolve_account}
use termcp_relay.Cli.Install.{
  InstallError, account, config_unusable, resolve_log_file, resolve_work_dir, resolve_config_path,
  resolve_log, resolve_dir, prepare_install,
}
use termcp_relay.Cli.Install.Laws.{SamePaths, resolve_account-SamePaths, resolve_config_path_lem}

-- A path that is absolute is not empty.
nonempty : (paths : Paths) (p : Text) → paths.is_abs p ≡ true → is_nil p ≡ false
unfolding is_blank
nonempty paths [] h = absurd (ground (arith, paths.is_blank_of_abs [] h))
nonempty paths (c ∷ p) h = refl

module _ (paths : Paths) where
  resolve_config_path_again :
      (stat_ok : Text → Bool) (path abs : Text)
      → resolve_config_path paths stat_ok path ≡ ok abs
      → resolve_config_path paths stat_ok abs ≡ ok abs
  unfolding resolve_config_path
  resolve_config_path_again stat_ok path abs h =
      let p = if is_blank path then default_path else path in
      let (absolute, there) = resolve_config_path_lem paths stat_ok path abs h in
      let blank = paths.is_blank_of_abs abs absolute in
      elim (Option-cases (paths.abs p)) [
        | inl gone ↦ absurd (ground arith)
        | inr (q, found) ↦
            let same : q ≡ abs = ground arith in
            let again : paths.abs abs ≡ some abs =
              subst (λ q. paths.abs q ≡ some q) same (paths.abs_of_abs p q found) in
            rw (blank, again, there) refl
      ]

  -- What a path comes to that is made absolute unless it passes a test, once more.
  made_abs_again :
      (test : Text → Bool) (e : InstallError) (p q : Text)
      → ((r : Text) → paths.is_abs r ≡ true → test r ≡ false)
      → (if test p then ok p else of_option e (paths.abs p)) ≡ ok q
      → (if test q then ok q else of_option e (paths.abs q)) ≡ ok q
  made_abs_again test e p q fails h = elim (Bool-cases (test p)) [
    | inl t ↦
        let same : p ≡ q = ground arith in
        let passes : test q ≡ true = subst (λ r. test r ≡ true) same t in rw passes refl
    | inr f ↦
        let found : paths.abs p ≡ some q = of_option-eq-ok e (paths.abs p) (ground arith) in
        rw (fails q (paths.is_abs_of_abs p q found), paths.abs_of_abs p q found) refl
  ]

  -- It passes the test only if the path did that it was made of.
  made_abs_passes :
      (test : Text → Bool) (e : InstallError) (p q : Text)
      → ((r : Text) → paths.is_abs r ≡ true → test r ≡ false)
      → (if test p then ok p else of_option e (paths.abs p)) ≡ ok q
      → test q ≡ true
      → test p ≡ true
  made_abs_passes test e p q fails h passes = elim (Bool-cases (test p)) [
    | inl t ↦ t
    | inr f ↦
        let found : paths.abs p ≡ some q = of_option-eq-ok e (paths.abs p) (ground arith) in
        absurd (ground (arith, fails q (paths.is_abs_of_abs p q found)))
  ]

  resolve_log_again :
      (on_windows : Bool) (abs log_file file : Text)
      → paths.is_abs abs ≡ true
      → resolve_log paths on_windows abs log_file ≡ ok file
      → resolve_log paths on_windows abs file ≡ ok file
  unfolding resolve_log
  resolve_log_again on_windows abs log_file file absolute h =
      let beside = paths.join (paths.dir abs) (default_name ++ codes ".log") in
      let p = if is_nil log_file && on_windows then beside else log_file in
      let named =
        nonempty paths beside
          (paths.is_abs-join (paths.dir abs) _ (paths.is_abs-dir abs absolute)) in
      let passes = made_abs_passes is_nil resolve_log_file p file (nonempty paths) h in
      let kept : (is_nil file && on_windows) ≡ false = ground (arith, named, passes) in
      rw kept (made_abs_again is_nil resolve_log_file p file (nonempty paths) h)

  resolve_dir_again :
      (home : Option Text) (dir d : Text)
      → resolve_dir paths home dir ≡ ok d
      → resolve_dir paths home d ≡ ok d
  unfolding resolve_dir
  resolve_dir_again none dir d h =
      made_abs_again is_blank resolve_work_dir dir d paths.is_blank_of_abs h
  resolve_dir_again (some home) dir d h =
      let e = if is_blank dir && not (is_blank home) then home else dir in
      let passes = made_abs_passes is_blank resolve_work_dir e d paths.is_blank_of_abs h in
      let kept : (is_blank d && not (is_blank home)) ≡ false = ground (arith, passes) in
      rw kept (made_abs_again is_blank resolve_work_dir e d paths.is_blank_of_abs h)

module _ ⦃u : Unicode⦄ (paths : Paths) (stat_ok : Text → Bool) (decode : Decoder)
    (home : Option Text) where
  log_as_told :
      (on_windows on_windows' : Bool) (abs abs' log log' : Text)
      → on_windows' ≡ on_windows
      → abs' ≡ abs
      → log' ≡ log
      → resolve_log paths on_windows abs log ≡ ok log
      → resolve_log paths on_windows' abs' log' ≡ ok log'
  log_as_told on_windows on_windows' abs abs' log log' w a l h = rw (w, a, l) h

  -- Where every step settles on what it was told, the account is left.
  settled :
      (m : Accounts) (told : Options) (c : Config) (file : Text)
      → resolve_config_path paths stat_ok told.config_path ≡ ok told.config_path
      → load paths stat_ok decode told.config_path ≡ ok c
      → resolve_log paths m.on_windows told.config_path told.log_file ≡ ok told.log_file
      → resolve_dir paths home told.work_dir ≡ ok told.work_dir
      → prepare_install paths stat_ok decode m home told file
        ≡ map_err account (resolve_account m told file)
  unfolding prepare_install
  settled m told c file found loads log dir = rw (found, loads, log, dir) refl

  -- Preparing what was prepared is no more than resolving its account, also by another process of
  -- the same platform, whose account may be another.
  pub prepare_install_again :
      (m m' : Accounts) (o o' told : Options) (cred_path file : Text)
      → m'.on_windows ≡ m.on_windows
      → prepare_install paths stat_ok decode m home o cred_path ≡ ok o'
      → SamePaths o' told
      → prepare_install paths stat_ok decode m' home told file
        ≡ map_err account (resolve_account m' told file)
  unfolding prepare_install
  prepare_install_again m m' o o' told cred_path file platform h as_told =
      let (abs, found, h1) = >>=-eq-ok (resolve_config_path paths stat_ok o.config_path) _ h in
      let (c, loads, h2) =
        >>=-eq-ok (map_err (config_unusable abs) (load paths stat_ok decode abs)) _ h1 in
      let (log, logged, h3) = >>=-eq-ok (resolve_log paths m.on_windows abs o.log_file) _ h2 in
      let (dir, stays, h4) = >>=-eq-ok (resolve_dir paths home o.work_dir) _ h3 in
      let known = record o { config_path = abs; log_file = log; work_dir = dir } in
      let same = resolve_account-SamePaths m known o' cred_path (map_err-eq-ok account _ h4) in
      let path = as_told.0 ∙ same.0 in
      let absolute = (resolve_config_path_lem paths stat_ok o.config_path abs found).0 in
      let found' = resolve_config_path_again paths stat_ok o.config_path abs found in
      let logged' = resolve_log_again paths m.on_windows abs o.log_file log absolute logged in
      let stays' = resolve_dir_again paths home o.work_dir dir stays in
      settled m' told c file
        (subst (λ p. resolve_config_path paths stat_ok p ≡ ok p) (sym path) found')
        (ap (load paths stat_ok decode) path ∙ map_err-eq-ok (config_unusable abs) _ loads)
        (log_as_told m.on_windows m'.on_windows abs told.config_path log told.log_file platform path
          (as_told.1 ∙ same.1) logged')
        (subst (λ d. resolve_dir paths home d ≡ ok d) (sym (as_told.2 ∙ same.2)) stays')
