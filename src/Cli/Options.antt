-- ===== src/Cli/Options.antt =====
-- The type `Options` of internal/service/service.go, and the names that it stands for.
use termcp_relay.Prelude.{Bool, [], ◌++◌, if◌then◌else◌, Text, codes, is_nil, not, ◌&&◌, ◌=t=◌}
use termcp_relay.Strings.{is_blank, trim_space}

pub record Options : Type 0 where
  pub name : Text
  pub config_path : Text
  pub log_level : Text
  pub log_file : Text
  pub work_dir : Text
  pub system : Bool
  pub user_name : Text
  pub password : Text
  pub needs_credential : Bool

-- The constant `Name`.
abbrev pub default_name : Text
default_name = codes "termcp-relay"

-- `serviceName`
unfoldable pub service_name : Options → Text
unfolding is_blank trim_space
service_name o = if is_blank o.name then default_name else trim_space o.name

-- `validate`; the flag is whether the platform is Windows. The error is that a password is given.
unfoldable pub validate_options : Bool → Options → Bool
validate_options on_windows o = not (not on_windows && not (is_nil o.password))

-- `nameFlag`
unfoldable pub name_flag : Options → Text
unfolding ◌=t=◌
name_flag o =
    if is_nil o.name then [] else if o.name =t= default_name then [] else codes " --name " ++ o.name
