-- ===== src/Config/Validate/Laws.antt =====
-- Which configurations `Validate` accepts.
use termcp_relay.Prelude.{
  ◌≡◌, ◌↔◌, ◌⊎◌, inl, inr, Bool, true, false, arith, Text, is_nil, ok, Bool-cases,
}
use termcp_relay.Strings.{is_blank}
use termcp_relay.Dict.{member}
use termcp_relay.Config.Settings.{Config}
use termcp_relay.Config.Address.{split_host_port, is_loopback}
use termcp_relay.Config.Validate.{validate, log_levels}

-- How clients prove who they are, as configured.
abbrev pub HasMethod : Config → Type 0
HasMethod c = (is_nil c.auth.password ≡ false) ⊎ (is_nil c.auth.authorized_keys ≡ false)

module _ (stat_ok : Text → Bool) where
  -- A configuration with which the server may run.
  pub record IsAcceptable (c : Config) : Type 0 where
    pub addr_set : is_blank c.server.addr ≡ false
    pub exclusive : c.auth.no_auth ≡ true → ¬ HasMethod c
    pub authenticated :
        c.auth.no_auth ≡ false
        → HasMethod c ⊎ (is_loopback (split_host_port c.server.addr).0 ≡ true)
    pub keys_exist : is_nil c.auth.authorized_keys ≡ false → stat_ok c.auth.authorized_keys ≡ true
    pub level_known : member c.server.log_level log_levels ≡ true

  validate_sound : (c : Config) → validate stat_ok c ≡ ok tt → IsAcceptable c
  unfolding validate
  validate_sound c h = record {
    addr_set = ground arith;
    exclusive = λ open_to_all method. ground arith;
    authenticated =
        authenticated (Bool-cases (is_nil c.auth.password))
          (Bool-cases (is_nil c.auth.authorized_keys));
    keys_exist = λ given. ground arith;
    level_known = ground arith;
  }
    where
      authenticated :
          ((is_nil c.auth.password ≡ true) ⊎ (is_nil c.auth.password ≡ false))
          → ((is_nil c.auth.authorized_keys ≡ true) ⊎ (is_nil c.auth.authorized_keys ≡ false))
          → c.auth.no_auth ≡ false
          → HasMethod c ⊎ (is_loopback (split_host_port c.server.addr).0 ≡ true)
      authenticated (inr password) k n = inl (inl password)
      authenticated (inl p) (inr keys) n = inl (inr keys)
      authenticated (inl p) (inl k) n = inr (ground arith)

  validate_complete : (c : Config) → IsAcceptable c → validate stat_ok c ≡ ok tt
  unfolding validate
  validate_complete c a = ground arith

  -- `Validate` accepts exactly the configurations with which the server may run.
  pub validate-IsAcceptable : (c : Config) → (validate stat_ok c ≡ ok tt) ↔ IsAcceptable c
  validate-IsAcceptable c = (validate_sound c, validate_complete c)
