-- ===== src/Cli/Flags.antt =====
-- The flags of `Command`, and the options that they stand for.
pub mod Laws
use termcp_relay.Prelude.{
  ℕ, Bool, true, false, List, [], ◌∷◌, Option, none, some, if◌then◌else◌, Text, codes, ◌=t=◌,
  Result, ok, err, ◌>>=◌,
}
use termcp_relay.Dict.{Dict, get_text, member}
use termcp_relay.Flags.{FlagSet, Kind, textual, boolean, show_bool, parse_flags}
use termcp_relay.Cli.Options.{Options, default_name}

-- The values of the flags.
pub record Flags : Type 0 where
  pub config : Text
  pub log_file : Text
  pub log_level : Text
  pub work_dir : Text
  pub user : Text
  pub system : Bool
  pub name : Text

abbrev pub text_names : List Text
text_names =
    codes "config"
    ∷ codes "log-file"
    ∷ codes "log-level"
    ∷ codes "work-dir"
    ∷ codes "user"
    ∷ codes "name"
    ∷ []

-- `fs`, with the defaults of its flags.
unfoldable pub service_flags : FlagSet
unfolding member ◌=t=◌
service_flags name =
    if member name text_names
    then some textual
    else if name =t= codes "system"
    then some boolean
    else none

abbrev pub service_defaults : Dict Text
service_defaults =
    (codes "config", codes "config.toml")
    ∷ (codes "log-file", [])
    ∷ (codes "log-level", [])
    ∷ (codes "work-dir", [])
    ∷ (codes "user", [])
    ∷ (codes "system", show_bool false)
    ∷ (codes "name", default_name)
    ∷ []

unfoldable pub read_flags : Dict Text → Flags
read_flags values = record {
  config = get_text (codes "config") values;
  log_file = get_text (codes "log-file") values;
  log_level = get_text (codes "log-level") values;
  work_dir = get_text (codes "work-dir") values;
  user = get_text (codes "user") values;
  system = get_text (codes "system") values =t= show_bool true;
  name = get_text (codes "name") values;
}

-- `fs.Parse(args[1:])`; arguments behind the flags are not looked at.
unfoldable pub parse_service : List Text → Result ℕ Flags
unfolding parse_flags service_flags read_flags
parse_service args = do
  (values, rest) ← parse_flags service_flags service_defaults args
  ok (read_flags values)

-- The options that the flags stand for.
unfoldable pub options_of : Flags → Options
options_of f = record {
  name = f.name;
  config_path = f.config;
  log_level = f.log_level;
  log_file = f.log_file;
  work_dir = f.work_dir;
  system = f.system;
  user_name = if f.system then [] else f.user;
  password = [];
  needs_credential = false;
}
