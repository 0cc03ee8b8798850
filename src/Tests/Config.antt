-- ===== src/Tests/Config.antt =====
-- Configurations, and the files that `Load` and `WriteTemplate` find.
use termcp_relay.Host.Disk.{File, Disk}
use termcp_relay.Prelude.{
  ◌≢◌, ◌≡◌, refl, ◌↔◌, Bool, false, [], none, some, ok, err, arith, Text, codes,
}
use termcp_relay.Strings.{is_blank}
use termcp_relay.Dict.{lookup, member}
use termcp_relay.Host.Paths.{rooted}
use termcp_relay.Config.Settings.{Config, defaults}
use termcp_relay.Config.Address.{split_host_port, is_loopback}
use termcp_relay.Config.Template.{config_template}
use termcp_relay.Config.Normalize.{normalize, IsResolved}
use termcp_relay.Config.Validate.{validate, unauthenticated}
use termcp_relay.Config.Validate.Laws.{IsAcceptable, validate-IsAcceptable}
use termcp_relay.Config.Validate.Exposure.{wildcard_exposed}
use termcp_relay.Config.Load.{Decoder, KeepsDir, load, load_abs, load_lem}
use termcp_relay.Config.Init.{write_template, Remains, write_template_lem}

abbrev nothing_there : Text → Bool
nothing_there path = false

abbrev with_addr : Text → Config
with_addr addr = record defaults { server = record defaults.server { addr = addr } }

-- On an address that names a host, a way to authenticate is asked for.
validate_remote_run : validate nothing_there (with_addr (codes "10.0.0.5:22")) ≡ err unauthenticated
unfolding validate is_loopback split_host_port is_blank
validate_remote_run = refl

validate-IsAcceptable_example :
    (validate nothing_there defaults ≡ ok tt) ↔ IsAcceptable nothing_there defaults
validate-IsAcceptable_example = validate-IsAcceptable nothing_there defaults

wildcard_exposed_example : validate nothing_there (with_addr (codes ":2222")) ≡ ok tt
unfolding is_blank member
wildcard_exposed_example =
    wildcard_exposed nothing_there (with_addr (codes ":2222")) [] (codes "2222") refl refl
      ((λ e. ground arith), ((λ e. ground arith), ((λ e. ground arith), ((λ e. ground arith), tt))))
      refl refl refl refl refl

abbrev found_config : Config
found_config = record defaults { config_dir = codes "/" }

abbrev local_config : Config → Config
local_config c = record c { server = record c.server { addr = codes "127.0.0.1:22" } }

-- A file that sets the address.
abbrev decode_local : Decoder
decode_local path c = some (local_config c)

decode_local-KeepsDir : KeepsDir decode_local
decode_local-KeepsDir path c c' e = ground arith

load_lem_example :
    IsResolved rooted (normalize rooted (local_config found_config))
    × IsAcceptable nothing_there (normalize rooted (local_config found_config))
unfolding load load_abs validate is_blank normalize is_loopback split_host_port
load_lem_example =
    load_lem rooted nothing_there decode_local decode_local-KeepsDir (codes "etc")
      (normalize rooted (local_config found_config)) refl

abbrev empty_disk : Disk
empty_disk = record {
  files = [];
  refuses_read = nothing_there;
  refuses_write = nothing_there;
  refuses_mkdir = nothing_there;
}

write_template_lem_example :
    let (e, d') = write_template rooted empty_disk none (codes "/c") in
    ((other : Text) → codes "/c" ≢ other → lookup other d'.files ≡ lookup other empty_disk.files)
    × ((f : File) → lookup (codes "/c") empty_disk.files ≡ some f → (e ≢ none) × (d' ≡ empty_disk))
    × (e ≡ none
        → (lookup (codes "/c") empty_disk.files ≡ none)
          × (lookup (codes "/c") d'.files
              ≡ some (record { content = config_template; mode = 0o600 })))
    × (e ≢ none
        → lookup (codes "/c") empty_disk.files ≡ none
        → Remains none (lookup (codes "/c") d'.files))
write_template_lem_example = write_template_lem rooted empty_disk none (codes "/c")
