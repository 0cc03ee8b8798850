-- ===== src/Env/Layer.antt =====
-- `expandLayer`: the values of one registry key become entries, and join the table.
pub mod Laws
use termcp_relay.Prelude.{Bool, List, [], ◌∷◌, if◌then◌else◌, Text}
use termcp_relay.Strings.{Unicode}
use termcp_relay.Env.Lookup.{EnvLookup, set}
use termcp_relay.Env.Expand.{expand_percent}

-- One value read from an Environment registry key; `expandable` stands for REG_EXPAND_SZ.
pub record EnvValue : Type 0 where
  pub name : Text
  pub value : Text
  pub expandable : Bool

-- A variable to set, in the spelling of the registry.
pub record EnvEntry : Type 0 where
  pub name : Text
  pub value : Text

module _ ⦃u : Unicode⦄ where
  -- The first loop: values that are not expandable are in the table before any is expanded.
  unfoldable pub seed : List EnvValue → EnvLookup → EnvLookup
  unfolding set
  seed [] table = table
  seed (v ∷ values) table = seed values (if v.expandable then table else set table v.name v.value)

  unfoldable pub value_of : EnvValue → EnvLookup → Text
  unfolding expand_percent
  value_of v table = if v.expandable then expand_percent table v.value else v.value

  -- The second loop, with the table that it leaves behind.
  unfoldable pub expand_values : List EnvValue → EnvLookup → List EnvEntry × EnvLookup
  unfolding value_of set
  expand_values [] table = ([], table)
  expand_values (v ∷ values) table =
      let value = value_of v table in
      let (entries, last) = expand_values values (set table v.name value) in
      (record { name = v.name; value = value } ∷ entries, last)

  unfoldable pub expand_layer : List EnvValue → EnvLookup → List EnvEntry × EnvLookup
  unfolding seed expand_values
  expand_layer values table = expand_values values (seed values table)
