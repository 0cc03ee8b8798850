-- ===== src/Config/Validate/Exposure.antt =====
-- Configurations without authentication that `Validate` lets pass on an address that the network
-- reaches.
use termcp_relay.Prelude.{
  ◌≡◌, refl, ap, ◌∙◌, Bool, true, false, [], ◌∷◌, ◌++◌, arith, Text, is_nil, ok,
}
use termcp_relay.Strings.{is_blank, trim_space, Lacks}
use termcp_relay.Dict.{member}
use termcp_relay.Config.Settings.{Config}
use termcp_relay.Config.Address.{split_host_port, is_loopback, split_host_port-append}
use termcp_relay.Config.Validate.{validate, log_levels}

module _ (stat_ok : Text → Bool) (c : Config) where
  is_loopback_blank : (host : Text) → trim_space host ≡ [] → is_loopback host ≡ true
  is_loopback_blank host h = unfold is_loopback in rw h refl

  -- An address whose host part is blank, such as `:2222`, on which a server listens on every
  -- interface, passes with no authentication configured at all.
  pub wildcard_exposed :
      (host port : Text)
      → c.server.addr ≡ host ++ (b':' ∷ port)
      → is_blank c.server.addr ≡ false
      → Lacks b':' port
      → trim_space host ≡ []
      → c.auth.no_auth ≡ false
      → is_nil c.auth.password ≡ true
      → is_nil c.auth.authorized_keys ≡ true
      → member c.server.log_level log_levels ≡ true
      → validate stat_ok c ≡ ok tt
  wildcard_exposed host port addr addr_set lacks blank no_auth password keys level =
      let parts : split_host_port c.server.addr ≡ (host, port) =
        ap split_host_port addr ∙ split_host_port-append host port lacks in
      let local : is_loopback (split_host_port c.server.addr).0 ≡ true =
        ap (λ p. is_loopback p.0) parts ∙ is_loopback_blank host blank in
      unfold validate in ground arith
