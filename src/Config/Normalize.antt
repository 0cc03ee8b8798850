-- ===== src/Config/Normalize.antt =====
-- `normalize` and `resolve`: defaults for blank settings, and paths behind the file's directory.
use termcp_relay.Prelude.{
  ◌≡◌, refl, sym, ◌∙◌, ◌⊎◌, inl, inr, true, false, [], ◌∷◌, arith, if◌then◌else◌, Text, is_nil,
  Bool-cases, false≢true,
}
use termcp_relay.Strings.{is_blank}
use termcp_relay.Host.Paths.{Paths}
use termcp_relay.Config.Settings.{Config, default_addr, default_host_key, default_log_level}

-- `if strings.TrimSpace(s) == "" { s = value }`
abbrev or_default : Text → Text → Text
or_default s value = if is_blank s then value else s

module _ (paths : Paths) where
  -- The method reads nothing of the configuration but `config_dir`.
  unfoldable pub resolve : Text → Text → Text
  resolve config_dir p =
      if paths.is_abs p then p else if is_nil config_dir then p else paths.join config_dir p

  abbrev resolve_unless_blank : Text → Text → Text
  resolve_unless_blank config_dir p = if is_blank p then p else resolve config_dir p

  unfoldable pub normalize : Config → Config
  unfolding resolve is_blank
  normalize c = record c {
    server = record (c.server) {
      addr = or_default c.server.addr default_addr;
      host_key = resolve c.config_dir (or_default c.server.host_key default_host_key);
      log_level = or_default c.server.log_level default_log_level;
      work_dir = resolve_unless_blank c.config_dir c.server.work_dir;
    };
    auth = record (c.auth) {
      authorized_keys = resolve_unless_blank c.config_dir c.auth.authorized_keys;
    };
  }

  -- Behind an absolute directory every path becomes absolute.
  pub resolve-is_abs :
      (config_dir p : Text)
      → paths.is_abs config_dir ≡ true
      → paths.is_abs (resolve config_dir p) ≡ true
  unfolding resolve
  resolve-is_abs config_dir p h = elim (Bool-cases (paths.is_abs p)) [
    | inl absolute ↦ rw absolute absolute
    | inr relative ↦ rw relative (resolve_relative config_dir h)
  ]
    where
      resolve_relative :
          (d : Text)
          → paths.is_abs d ≡ true
          → paths.is_abs (if is_nil d then p else paths.join d p) ≡ true
      resolve_relative [] a =
          absurd (false≢true (sym (paths.is_blank_of_abs [] a) ∙ unfold is_blank in refl))
      resolve_relative (c ∷ d) a = paths.is_abs-join (c ∷ d) p a

  resolve_of_abs : (config_dir p : Text) → paths.is_abs p ≡ true → resolve config_dir p ≡ p
  unfolding resolve
  resolve_of_abs config_dir p h = rw h

  -- What `normalize` promises: the settings that have defaults are not blank, the host key's path
  -- is absolute, and so are those of the working directory and the key file, unless blank.
  pub record IsResolved (c : Config) : Type 0 where
    pub addr_set : is_blank c.server.addr ≡ false
    pub log_level_set : is_blank c.server.log_level ≡ false
    pub host_key_abs : paths.is_abs c.server.host_key ≡ true
    pub work_dir_abs : (is_blank c.server.work_dir ≡ true) ⊎ (paths.is_abs c.server.work_dir ≡ true)
    pub authorized_keys_abs :
        (is_blank c.auth.authorized_keys ≡ true) ⊎ (paths.is_abs c.auth.authorized_keys ≡ true)

  or_default_set : (s value : Text) → is_blank value ≡ false → is_blank (or_default s value) ≡ false
  or_default_set s value h = ground (arith, h)

  resolve_unless_blank-is_abs :
      (config_dir p : Text)
      → paths.is_abs config_dir ≡ true
      → let q = resolve_unless_blank config_dir p in (is_blank q ≡ true) ⊎ (paths.is_abs q ≡ true)
  resolve_unless_blank-is_abs config_dir p h = elim (Bool-cases (is_blank p)) [
    | inl blank ↦ rw blank (inl blank)
    | inr set ↦ rw set (inr (resolve-is_abs config_dir p h))
  ]

  pub normalize-IsResolved :
      (c : Config) → paths.is_abs c.config_dir ≡ true → IsResolved (normalize c)
  unfolding normalize
  normalize-IsResolved c h = record {
    addr_set = or_default_set c.server.addr default_addr refl;
    log_level_set = or_default_set c.server.log_level default_log_level refl;
    host_key_abs = resolve-is_abs c.config_dir _ h;
    work_dir_abs = resolve_unless_blank-is_abs c.config_dir c.server.work_dir h;
    authorized_keys_abs = resolve_unless_blank-is_abs c.config_dir c.auth.authorized_keys h;
  }

  or_default_again :
      (s value : Text)
      → is_blank value ≡ false
      → or_default (or_default s value) value ≡ or_default s value
  or_default_again s value h = ground (arith, h)

  host_key_again :
      (config_dir p value : Text)
      → paths.is_abs config_dir ≡ true
      → let q = resolve config_dir p in resolve config_dir (or_default q value) ≡ q
  host_key_again config_dir p value h =
      let absolute = resolve-is_abs config_dir p h in
      rw (paths.is_blank_of_abs (resolve config_dir p) absolute)
        (resolve_of_abs config_dir (resolve config_dir p) absolute)

  resolve_unless_blank_again :
      (config_dir p : Text)
      → paths.is_abs config_dir ≡ true
      → let q = resolve_unless_blank config_dir p in resolve_unless_blank config_dir q ≡ q
  resolve_unless_blank_again config_dir p h = elim (Bool-cases (is_blank p)) [
    | inl blank ↦ rw blank (rw blank refl)
    | inr set ↦ rw set (
        let absolute = resolve-is_abs config_dir p h in
        rw (paths.is_blank_of_abs (resolve config_dir p) absolute)
          (resolve_of_abs config_dir (resolve config_dir p) absolute))
  ]

  -- A configuration that is normalized is not changed by normalizing it again.
  pub normalize_idem :
      (c : Config) → paths.is_abs c.config_dir ≡ true → normalize (normalize c) ≡ normalize c
  unfolding is_blank
  normalize_idem c h =
      let key = or_default c.server.host_key default_host_key in
      let addr = or_default_again c.server.addr default_addr refl in
      let level = or_default_again c.server.log_level default_log_level refl in
      let host = host_key_again c.config_dir key default_host_key h in
      let work = resolve_unless_blank_again c.config_dir c.server.work_dir h in
      let keys = resolve_unless_blank_again c.config_dir c.auth.authorized_keys h in
      unfold normalize in
      λ i. record c {
        server = record (c.server) {
          addr = addr i;
          host_key = host i;
          log_level = level i;
          work_dir = work i;
        };
        auth = record (c.auth) { authorized_keys = keys i };
      }
