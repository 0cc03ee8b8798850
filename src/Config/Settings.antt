-- ===== src/Config/Settings.antt =====
-- The types of the configuration, and `Defaults`.
use termcp_relay.Prelude.{Bool, true, false, [], Text, codes}

pub record ServerConfig : Type 0 where
  pub addr : Text
  pub host_key : Text
  pub shell : Text
  pub work_dir : Text
  pub banner : Text
  pub log_level : Text
  pub allow_local_fwd : Bool
  pub allow_remote_fwd : Bool

pub record AuthConfig : Type 0 where
  pub no_auth : Bool
  pub username : Text
  pub password : Text
  pub authorized_keys : Text

-- `config_dir` is the absolute directory of the file, and empty if there is none.
pub record Config : Type 0 where
  pub server : ServerConfig
  pub auth : AuthConfig
  pub config_dir : Text

abbrev pub default_addr : Text
default_addr = codes "0.0.0.0:2222"

abbrev pub default_host_key : Text
default_host_key = codes "host_key.pem"

abbrev pub default_log_level : Text
default_log_level = codes "info"

abbrev pub defaults : Config
defaults = record {
  server = record {
    addr = default_addr;
    host_key = default_host_key;
    shell = [];
    work_dir = [];
    banner = [];
    log_level = default_log_level;
    allow_local_fwd = true;
    allow_remote_fwd = true;
  };
  auth = record { no_auth = false; username = []; password = []; authorized_keys = [] };
  config_dir = [];
}
