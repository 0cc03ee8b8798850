-- ===== src/Config/Load.antt =====
-- `Load`. The TOML library is a parameter: `decode abs defaults` is `toml.DecodeFile(abs, cfg)`,
-- which writes over the fields that the file sets.
use termcp_relay.Prelude.{
  ◌≡◌, ap, ◌∙◌, Bool, true, Option, some, if◌then◌else◌, Text, codes, Result, ok, ◌>>=◌, of_option,
  of_option-eq-ok, >>=-eq-ok, ok_injective, subst,
}
use termcp_relay.Strings.{is_blank}
use termcp_relay.Host.Paths.{Paths}
use termcp_relay.Config.Settings.{Config, defaults}
use termcp_relay.Config.Normalize.{normalize, IsResolved, normalize-IsResolved}
use termcp_relay.Config.Validate.{ConfigError, resolve_path, decode_file, validate}
use termcp_relay.Config.Validate.Laws.{IsAcceptable, validate-IsAcceptable}

-- The decoder: `none` for a file that cannot be read or parsed.
abbrev pub Decoder : Type 0
Decoder = Text → Config → Option Config

-- The field `configDir` is not exported, so that decoding does not reach it.
abbrev pub KeepsDir : Decoder → Type 0
KeepsDir decode =
    (path : Text) (c c' : Config) → decode path c ≡ some c' → c'.config_dir ≡ c.config_dir

abbrev pub default_path : Text
default_path = codes "config.toml"

module _ (paths : Paths) (stat_ok : Text → Bool) (decode : Decoder) where
  -- What follows once the path is absolute.
  unfoldable pub load_abs : Text → Result ConfigError Config
  load_abs abs = do
    c ← of_option decode_file (decode abs (record defaults { config_dir = paths.dir abs }))
    let c' = normalize paths c
    _ ← validate stat_ok c'
    ok c'

  unfoldable pub load : Text → Result ConfigError Config
  load path = do
    abs ← of_option resolve_path (paths.abs (if is_blank path then default_path else path))
    load_abs abs

  load_abs_lem :
      KeepsDir decode
      → (abs : Text) (c : Config) → paths.is_abs abs ≡ true
      → load_abs abs ≡ ok c
      → IsResolved paths c × IsAcceptable stat_ok c
  unfolding load_abs
  load_abs_lem keeps abs c h e =
      let start = record defaults { config_dir = paths.dir abs } in
      let (d, read, rest) = >>=-eq-ok (of_option decode_file (decode abs start)) _ e in
      let (u, valid, last) = >>=-eq-ok (validate stat_ok (normalize paths d)) _ rest in
      let same : normalize paths d ≡ c = ok_injective _ _ last in
      let kept = keeps abs start d (of_option-eq-ok decode_file (decode abs start) read) in
      let absolute : paths.is_abs d.config_dir ≡ true =
        ap paths.is_abs kept ∙ paths.is_abs-dir abs h in
      (
        subst (IsResolved paths) same (normalize-IsResolved paths d absolute),
        subst (IsAcceptable stat_ok) same
            ((validate-IsAcceptable stat_ok (normalize paths d)).0 valid),
      )

  -- A configuration that `Load` returns has its paths resolved, its defaults filled in, and passes
  -- every check.
  pub load_lem :
      KeepsDir decode
      → (path : Text) (c : Config) → load path ≡ ok c
      → IsResolved paths c × IsAcceptable stat_ok c
  unfolding load
  load_lem keeps path c e =
      let path' = if is_blank path then default_path else path in
      let (abs, found, rest) = >>=-eq-ok (of_option resolve_path (paths.abs path')) _ e in
      let absolute = paths.is_abs_of_abs path' abs (of_option-eq-ok resolve_path _ found) in
      load_abs_lem keeps abs c absolute rest
