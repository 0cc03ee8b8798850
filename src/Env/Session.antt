-- ===== src/Env/Session.antt =====
-- `sessionEnv` of env_windows.go and env_other.go, and `readEnvKey`. The registry and the inherited
-- block (`os.Environ`) are arguments.
pub mod Laws
pub mod Reads
pub mod Layers
use termcp_relay.Prelude.{
  ℕ, Bool, List, [], ◌∷◌, Option, none, some, if◌then◌else◌, Text, codes, is_nil,
}
use termcp_relay.Strings.{Unicode}
use termcp_relay.Env.Lookup.{new_env_lookup}
use termcp_relay.Env.Layer.{EnvValue, expand_layer}
use termcp_relay.Env.Compose.{compose_env}

-- An open key: what `ReadValueNames(-1)` returns, `none` for an error, and what `GetStringValue`
-- returns for a name: the text and whether its type is `EXPAND_SZ`, or `none` for an error.
pub record RegistryKey : Type 0 where
  pub value_names : Option (List Text)
  pub get_string_value : Text → Option (Text × Bool)

-- The loop over the names: empty names and values that are no strings are passed over.
unfoldable pub read_values : RegistryKey → List Text → List EnvValue
read_values key [] = []
read_values key (name ∷ names) =
    let rest = read_values key names in
    if is_nil name then rest else elim (key.get_string_value name) [
      | none ↦ rest
      | some (value, expandable) ↦
          record { name = name; value = value; expandable = expandable } ∷ rest
    ]

-- The argument is the result of `registry.OpenKey`.
unfoldable pub read_env_key : Option RegistryKey → List EnvValue
unfolding read_values
read_env_key none = []
read_env_key (some key) = elim key.value_names [ none ↦ [] | some names ↦ read_values key names ]

module _ ⦃u : Unicode⦄ (separator : ℕ) where
  -- On Windows: the registry's machine and user layers over the inherited block.
  unfoldable pub session_env : List Text → Option RegistryKey → Option RegistryKey → List Text
  unfolding new_env_lookup expand_layer read_env_key compose_env
  session_env base local_machine current_user =
      let table = new_env_lookup base in
      let (machine, table') = expand_layer (read_env_key local_machine) table in
      let (user, table'') = expand_layer (read_env_key current_user) table' in
      compose_env separator base machine user

-- Elsewhere the inherited block is used as it is.
unfoldable pub session_env_other : List Text → List Text
session_env_other base = base

-- `registry.LOCAL_MACHINE`, which `machineRegistryKey` names, and `registry.CURRENT_USER`.
pub data Hive : Type 0 where
  local_machine current_user : Hive

abbrev pub machine_env_key : Text
machine_env_key = codes "SYSTEM\\CurrentControlSet\\Control\\Session Manager\\Environment"

abbrev pub user_env_key : Text
user_env_key = codes "Environment"

-- `sessionEnv` on Windows, with the answers of `registry.OpenKey`.
unfoldable pub session_env_from :
    ⦃u : Unicode⦄ → ℕ → (Hive → Text → Option RegistryKey) → List Text → List Text
unfolding session_env
session_env_from separator open_key base =
    session_env separator base (open_key local_machine machine_env_key)
      (open_key current_user user_env_key)
