-- ===== src/Cli/Install.antt =====
-- `resolveConfigPath` and `prepareInstall`: what an installed service must remember, found before
-- more rights are asked for.
pub mod Laws
pub mod Again
use termcp_relay.Prelude.{
  ◌≡◌, ◌⊎◌, Bool, true, false, not, ◌&&◌, ◌++◌, Option, none, some, if◌then◌else◌, Text, codes,
  is_nil, Result, ok, err, ◌>>=◌, of_option, map_err,
}
use termcp_relay.Strings.{Unicode, is_blank}
use termcp_relay.Host.Paths.{Paths}
use termcp_relay.Config.Settings.{Config}
use termcp_relay.Config.Validate.{ConfigError}
use termcp_relay.Config.Load.{Decoder, load, default_path}
use termcp_relay.Cli.Options.{Options, default_name}
use termcp_relay.Cli.Account.{Accounts, AccountError, resolve_account}

pub data InstallError : Type 0 where
  resolve_config resolve_log_file resolve_work_dir : InstallError
  config_missing : Text → Text → InstallError
  config_unusable : Text → ConfigError → InstallError
  account : AccountError → InstallError

module _ (paths : Paths) (stat_ok : Text → Bool) where
  -- `resolveConfigPath`
  unfoldable pub resolve_config_path : Text → Result InstallError Text
  resolve_config_path path = do
    let p = if is_blank path then default_path else path
    abs ← of_option resolve_config (paths.abs p)
    if stat_ok abs then ok abs else err (config_missing abs p)

module _ (paths : Paths) where
  -- The log file: by default, on Windows, beside the configuration.
  unfoldable pub resolve_log : Bool → Text → Text → Result InstallError Text
  resolve_log on_windows abs log_file =
      let file =
        if is_nil log_file && on_windows
        then paths.join (paths.dir abs) (default_name ++ codes ".log")
        else log_file in
      if is_nil file then ok file else of_option resolve_log_file (paths.abs file)

  -- The working directory: by default the home directory of the user who installs.
  unfoldable pub resolve_dir : Option Text → Text → Result InstallError Text
  resolve_dir none dir = if is_blank dir then ok dir else of_option resolve_work_dir (paths.abs dir)
  resolve_dir (some home) dir =
      let d = if is_blank dir && not (is_blank home) then home else dir in
      if is_blank d then ok d else of_option resolve_work_dir (paths.abs d)

module _ ⦃u : Unicode⦄ (paths : Paths) (stat_ok : Text → Bool) (decode : Decoder) (m : Accounts)
    (home : Option Text) where
  -- `prepareInstall`
  unfoldable pub prepare_install : Options → Text → Result InstallError Options
  prepare_install o cred_path = do
    abs ← resolve_config_path paths stat_ok o.config_path
    c ← map_err (config_unusable abs) (load paths stat_ok decode abs)
    file ← resolve_log paths m.on_windows abs o.log_file
    dir ← resolve_dir paths home o.work_dir
    let found = record o { config_path = abs; log_file = file; work_dir = dir }
    map_err account (resolve_account m found cred_path)
