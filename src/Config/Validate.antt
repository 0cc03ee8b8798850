-- ===== src/Config/Validate.antt =====
-- `Validate`, in the order of its checks. The file system answers whether the key file exists.
pub mod Laws
pub mod Exposure
use termcp_relay.Prelude.{
  Bool, true, false, not, ◌&&◌, ◌||◌, List, [], ◌∷◌, if◌then◌else◌, Text, codes, is_nil, Result, ok,
  err,
}
use termcp_relay.Strings.{is_blank}
use termcp_relay.Dict.{member}
use termcp_relay.Config.Settings.{Config}
use termcp_relay.Config.Address.{split_host_port, is_loopback}

-- The errors of `Load` and of `Validate`.
pub data ConfigError : Type 0 where
  resolve_path decode_file : ConfigError
  addr_empty no_auth_exclusive unauthenticated : ConfigError
  keys_missing : Text → ConfigError
  log_level_unknown : Text → ConfigError

abbrev pub log_levels : List Text
log_levels = codes "debug" ∷ codes "info" ∷ codes "warn" ∷ codes "error" ∷ []

module _ (stat_ok : Text → Bool) where
  unfoldable pub validate : Config → Result ConfigError (Unit {0})
  validate c =
      let auth = c.auth in
      let has_method = not (is_nil auth.password) || not (is_nil auth.authorized_keys) in
      if is_blank c.server.addr
      then err addr_empty
      else if auth.no_auth && has_method
      then err no_auth_exclusive
      else if not auth.no_auth
          && is_nil auth.password
          && is_nil auth.authorized_keys
          && not (is_loopback (split_host_port c.server.addr).0)
      then err unauthenticated
      else if not (is_nil auth.authorized_keys) && not (stat_ok auth.authorized_keys)
      then err (keys_missing auth.authorized_keys)
      else if member c.server.log_level log_levels
      then ok tt
      else err (log_level_unknown c.server.log_level)
