-- ===== src/Env/Lookup.antt =====
-- `envLookup` and the reading of `NAME=value` entries.
use termcp_relay.Prelude.{◌≡◌, List, [], ◌∷◌, Option, none, some, if◌then◌else◌, Text, ◌=t=◌}
use termcp_relay.Strings.{Unicode, to_upper, cut}
use termcp_relay.Dict.{Dict, lookup, insert, lookup-insert}

-- `if i := strings.Index(kv, "="); i > 0`, with `kv[:i]` and `kv[i+1:]`.
unfoldable pub name_value : Text → Option (Text × Text)
unfolding cut
name_value kv = elim (cut b'=' kv) [
  | none ↦ none
  | some (name, value) ↦ elim name [ [] ↦ none | c ∷ rest ↦ some (c ∷ rest, value) ]
]

abbrev pub EnvLookup : Type 0
EnvLookup = Dict Text

module _ ⦃u : Unicode⦄ where
  unfoldable pub get : EnvLookup → Text → Option Text
  unfolding to_upper lookup
  get l name = lookup (to_upper name) l

  unfoldable pub set : EnvLookup → Text → Text → EnvLookup
  unfolding to_upper insert
  set l name value = insert (to_upper name) value l

  unfoldable pub lookup_loop : EnvLookup → List Text → EnvLookup
  lookup_loop l [] = l
  lookup_loop l (kv ∷ base) =
      lookup_loop (elim (name_value kv) [ none ↦ l | some (name, value) ↦ set l name value ]) base

  unfoldable pub new_env_lookup : List Text → EnvLookup
  unfolding lookup_loop set name_value
  new_env_lookup base = lookup_loop [] base

  pub get-set :
      (l : EnvLookup) (name other value : Text)
      → get (set l name value) other
        ≡ (if to_upper name =t= to_upper other then some value else get l other)
  unfolding get set
  get-set l name other value = lookup-insert (to_upper name) (to_upper other) value l
