-- ===== src/Service/WorkDir.antt =====
-- `resolveWorkDir` and `isServiceProfile`: the directory in which sessions start.
use termcp_relay.Prelude.{
  Bool, not, ◌&&◌, ◌||◌, Option, none, some, if◌then◌else◌, Text, codes, is_nil,
}
use termcp_relay.Strings.{Unicode, to_lower, trim_space, is_blank, contains}
use termcp_relay.Host.Paths.{Paths}
use termcp_relay.Config.Settings.{Config}
use termcp_relay.Cli.Options.{Options}

-- What the program asks of the machine: the home directory of the account, whether a path is a
-- directory, and `filepath.ToSlash`.
pub record Homes : Type 0 where
  pub user_home_dir : Option Text
  pub is_dir : Text → Bool
  pub to_slash : Text → Text

-- `absOrSelf`
unfoldable pub abs_or_self : Paths → Text → Text
abs_or_self paths path = elim (paths.abs path) [ none ↦ path | some abs ↦ abs ]

module _ ⦃u : Unicode⦄ (m : Homes) where
  -- `isServiceProfile`
  unfoldable pub is_service_profile : Text → Bool
  is_service_profile dir =
      let lower = to_lower (m.to_slash (trim_space dir)) in
      is_nil lower
      || contains lower (codes "/config/systemprofile")
      || contains lower (codes "/serviceprofiles/")

  -- The home directory, if a session may start there.
  unfoldable pub usable_home : Option Text → Option Text
  usable_home none = none
  usable_home (some home) =
      if not (is_service_profile home) && m.is_dir home then some home else none

  -- `resolveWorkDir`
  unfoldable pub resolve_work_dir : Paths → Options → Config → Text
  resolve_work_dir paths opts cfg =
      if not (is_blank cfg.server.work_dir)
      then trim_space cfg.server.work_dir
      else if not (is_blank opts.work_dir)
      then trim_space opts.work_dir
      else elim (usable_home m.user_home_dir) [
        | some home ↦ home
        | none ↦ paths.dir (abs_or_self paths opts.config_path)
      ]
