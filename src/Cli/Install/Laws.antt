-- ===== src/Cli/Install/Laws.antt =====
-- What is known of an installation before the machine's owner is asked for more rights.
use termcp_relay.Prelude.{
  ◌≡◌, sym, ap, ◌∙◌, subst, ◌⊎◌, inl, inr, Bool, true, not, ◌||◌, ◌&&◌, ◌++◌, Option, none, some,
  if◌then◌else◌, Text, codes, is_nil, ok, of_option, map_err, >>=-eq-ok, of_option-eq-ok,
  Bool-cases, Option-cases, arith, map_err-eq-ok,
}
use termcp_relay.Strings.{Unicode, is_blank, trim_space, equal_fold}
use termcp_relay.Host.Paths.{Paths}
use termcp_relay.Config.Settings.{Config}
use termcp_relay.Config.Load.{Decoder, KeepsDir, load, load_lem, default_path}
use termcp_relay.Config.Validate.Laws.{IsAcceptable}
use termcp_relay.Cli.Options.{Options, default_name}
use termcp_relay.Cli.Account.{
  Accounts, resolve_account, choose_account, with_password, by_token, from_file,
  builtin_service_account, is_local_system, prompt_verified_password,
}
use termcp_relay.Cli.Install.{
  InstallError, account, config_unusable, resolve_log_file, resolve_work_dir, resolve_config_path,
  resolve_log, resolve_dir, prepare_install,
}

-- The two have the same paths.
abbrev pub SamePaths : Options → Options → Type 0
SamePaths o o' =
    (o'.config_path ≡ o.config_path) × (o'.log_file ≡ o.log_file) × (o'.work_dir ≡ o.work_dir)

with_password-SamePaths :
    ⦃u : Unicode⦄ (m : Accounts) (user : Text) (o o' : Options)
    → with_password m user o ≡ ok o'
    → SamePaths o o'
unfolding with_password
with_password-SamePaths m user o o' h = elim (Option-cases (prompt_verified_password m user)) [
  | inl gone ↦ ground arith
  | inr (pw, found) ↦ ground arith
]

by_token-SamePaths :
    ⦃u : Unicode⦄ (m : Accounts) (o o' : Options) → by_token m o ≡ ok o' → SamePaths o o'
unfolding by_token
by_token-SamePaths m o o' h = elim (Option-cases m.current_user_token) [
  | inl gone ↦ ground arith
  | inr (token, known) ↦
      with_password-SamePaths m token (record o { user_name = token }) o' (ground arith)
]

choose_account-SamePaths :
    ⦃u : Unicode⦄ (m : Accounts) (user : Text) (o o' : Options)
    → choose_account m user o ≡ ok o'
    → SamePaths o o'
unfolding choose_account
choose_account-SamePaths m user o o' h =
    elim (Bool-cases (is_nil user || o.system || builtin_service_account user)) [
      | inl plain ↦ elim (Bool-cases (builtin_service_account user && not (is_local_system user))) [
        | inl b ↦ ground arith
        | inr b ↦ ground arith
      ]
      | inr other ↦ elim (Bool-cases (equal_fold user (codes "current"))) [
        | inl c ↦ by_token-SamePaths m o o' (ground arith)
        | inr n ↦ with_password-SamePaths m user o o' (ground arith)
      ]
    ]

from_file-SamePaths :
    ⦃u : Unicode⦄ (m : Accounts) (cred_path : Text) (o o' : Options)
    → from_file m cred_path o ≡ ok o'
    → SamePaths o o'
unfolding from_file
from_file-SamePaths m cred_path o o' h = elim (Option-cases (m.read_credential_file cred_path)) [
  | inl gone ↦ ground arith
  | inr (pw, found) ↦ ground arith
]

pub resolve_account-SamePaths :
    ⦃u : Unicode⦄ (m : Accounts) (o o' : Options) (cred_path : Text)
    → resolve_account m o cred_path ≡ ok o'
    → SamePaths o o'
unfolding resolve_account
resolve_account-SamePaths m o o' cred_path h = elim (Bool-cases m.on_windows) [
  | inr other ↦ ground arith
  | inl windows ↦ elim (Bool-cases (is_nil cred_path)) [
    | inl empty ↦ choose_account-SamePaths m (trim_space o.user_name) o o' (ground arith)
    | inr given ↦ from_file-SamePaths m cred_path o o' (ground arith)
  ]
]

pub resolve_config_path_lem :
    (paths : Paths) (stat_ok : Text → Bool) (path abs : Text)
    → resolve_config_path paths stat_ok path ≡ ok abs
    → (paths.is_abs abs ≡ true) × (stat_ok abs ≡ true)
unfolding resolve_config_path
resolve_config_path_lem paths stat_ok path abs h =
    let p = if is_blank path then default_path else path in
    elim (Option-cases (paths.abs p)) [
      | inl gone ↦ ground arith
      | inr (q, found) ↦ ground (arith, paths.is_abs_of_abs p q found)
    ]

of_abs :
    (paths : Paths) (test : Text → Bool) (p q : Text) (e : InstallError)
    → (if test p then ok p else of_option e (paths.abs p)) ≡ ok q
    → (test q ≡ true) ⊎ (paths.is_abs q ≡ true)
of_abs paths test p q e h = elim (Bool-cases (test p)) [
  | inl t ↦ let same : p ≡ q = ground arith in inl (subst (λ r. test r ≡ true) same t)
  | inr f ↦ inr (paths.is_abs_of_abs p q (of_option-eq-ok e (paths.abs p) (ground arith)))
]

resolve_log_lem :
    (paths : Paths) (on_windows : Bool) (abs log_file file : Text)
    → resolve_log paths on_windows abs log_file ≡ ok file
    → (is_nil file ≡ true) ⊎ (paths.is_abs file ≡ true)
unfolding resolve_log
resolve_log_lem paths on_windows abs log_file file h =
    let p =
      if is_nil log_file && on_windows
      then paths.join (paths.dir abs) (default_name ++ codes ".log")
      else log_file in
    of_abs paths is_nil p file resolve_log_file h

resolve_dir_lem :
    (paths : Paths) (home : Option Text) (dir d : Text)
    → resolve_dir paths home dir ≡ ok d
    → (is_blank d ≡ true) ⊎ (paths.is_abs d ≡ true)
unfolding resolve_dir
resolve_dir_lem paths none dir d h = of_abs paths is_blank dir d resolve_work_dir h
resolve_dir_lem paths (some home) dir d h =
    let e = if is_blank dir && not (is_blank home) then home else dir in
    of_abs paths is_blank e d resolve_work_dir h

module _ ⦃u : Unicode⦄ (paths : Paths) (stat_ok : Text → Bool) (decode : Decoder) (m : Accounts)
    (home : Option Text) where
  -- An installation that the daemon can run with: the configuration is found by an absolute path and
  -- loads, and the log file and the working directory are absolute or not set.
  pub record IsPrepared (o : Options) : Type 0 where
    pub config_absolute : paths.is_abs o.config_path ≡ true
    pub config_exists : stat_ok o.config_path ≡ true
    pub config_loads :
        (c : Config) × (load paths stat_ok decode o.config_path ≡ ok c) × IsAcceptable stat_ok c
    pub log_absolute : (is_nil o.log_file ≡ true) ⊎ (paths.is_abs o.log_file ≡ true)
    pub dir_absolute : (is_blank o.work_dir ≡ true) ⊎ (paths.is_abs o.work_dir ≡ true)

  prepared :
      (o o' : Options) (c : Config)
      → SamePaths o o'
      → (paths.is_abs o.config_path ≡ true) × (stat_ok o.config_path ≡ true)
      → load paths stat_ok decode o.config_path ≡ ok c
      → IsAcceptable stat_ok c
      → (is_nil o.log_file ≡ true) ⊎ (paths.is_abs o.log_file ≡ true)
      → (is_blank o.work_dir ≡ true) ⊎ (paths.is_abs o.work_dir ≡ true)
      → IsPrepared o'
  prepared o o' c (path, log, dir) (absolute, present) loaded acceptable log_abs dir_abs = record {
    config_absolute = ap paths.is_abs path ∙ absolute;
    config_exists = ap stat_ok path ∙ present;
    config_loads = (c, ap (load paths stat_ok decode) path ∙ loaded, acceptable);
    log_absolute = subst (λ p. (is_nil p ≡ true) ⊎ (paths.is_abs p ≡ true)) (sym log) log_abs;
    dir_absolute = subst (λ p. (is_blank p ≡ true) ⊎ (paths.is_abs p ≡ true)) (sym dir) dir_abs;
  }

  -- `prepareInstall` returns only what the daemon can run with, given that the decoder keeps the
  -- directory of the configuration: the configuration's path is absolute, exists and loads to
  -- settings that pass every check, and the other two paths are absolute where they are set.
  pub prepare_install-IsPrepared :
      KeepsDir decode
      → (o o' : Options) (cred_path : Text)
      → prepare_install paths stat_ok decode m home o cred_path ≡ ok o'
      → IsPrepared o'
  unfolding prepare_install
  prepare_install-IsPrepared keeps o o' cred_path h =
      let (abs, found, h1) = >>=-eq-ok (resolve_config_path paths stat_ok o.config_path) _ h in
      let (c, loads, h2) =
        >>=-eq-ok (map_err (config_unusable abs) (load paths stat_ok decode abs)) _ h1 in
      let (file, log, h3) = >>=-eq-ok (resolve_log paths m.on_windows abs o.log_file) _ h2 in
      let (dir, wd, h4) = >>=-eq-ok (resolve_dir paths home o.work_dir) _ h3 in
      let known = record o { config_path = abs; log_file = file; work_dir = dir } in
      let same = resolve_account-SamePaths m known o' cred_path (map_err-eq-ok account _ h4) in
      let absolute = resolve_config_path_lem paths stat_ok o.config_path abs found in
      let loaded = map_err-eq-ok (config_unusable abs) _ loads in
      prepared known o' c same absolute loaded
        ((load_lem paths stat_ok decode keeps abs c loaded).1)
        (resolve_log_lem paths m.on_windows abs o.log_file file log)
        (resolve_dir_lem paths home o.work_dir dir wd)
