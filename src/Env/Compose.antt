-- ===== src/Env/Compose.antt =====
-- `composeEnv`: the entries of the registry over the inherited block.
pub mod State
pub mod Laws
pub mod Block
use mathlib.Core.Option.{get_or}
use termcp_relay.Prelude.{
  ℕ, Option, none, some, List, [], ◌∷◌, ◌++◌, map, if◌then◌else◌, Text, codes, ◌=t=◌,
}
use termcp_relay.Strings.{Unicode, to_upper}
use termcp_relay.Dict.{Dict, lookup, insert, get_text}
use termcp_relay.Env.Lookup.{name_value}
use termcp_relay.Env.Layer.{EnvEntry}
use termcp_relay.Env.Path.{merge_path}

-- The variables of `composeEnv`.
pub record Composed : Type 0 where
  pub values : Dict Text
  pub spelling : Dict Text
  pub order : List Text

abbrev pub path_key : Text
path_key = codes "PATH"

module _ ⦃u : Unicode⦄ where
  -- The closure `add`.
  unfoldable pub add : Composed → Text → Text → Composed
  unfolding to_upper lookup insert
  add c name value =
      let key = to_upper name in
      record {
        values = insert key value c.values;
        spelling = insert key name c.spelling;
        order = elim (lookup key c.values) [ none ↦ c.order ++ (key ∷ []) | some old ↦ c.order ];
      }

  -- The body of the loop over `base`.
  unfoldable pub add_base : Composed → Text → Composed
  unfolding add name_value
  add_base c kv = elim (name_value kv) [ none ↦ c | some (name, value) ↦ add c name value ]

  -- The body of the loop over `machine`.
  unfoldable pub add_machine : Composed → EnvEntry → Composed
  unfolding add
  add_machine c e = add c e.name e.value

  module _ (separator : ℕ) where
    -- The body of the loop over `user`.
    unfoldable pub add_user : Composed → EnvEntry → Composed
    unfolding add to_upper ◌=t=◌ lookup merge_path
    add_user c e =
        let key = to_upper e.name in
        if key =t= path_key
        then add c e.name (merge_path separator (get_text key c.values ∷ e.value ∷ []))
        else add c e.name e.value

  unfoldable pub over {ℓ} : {A : Type ℓ} → (Composed → A → Composed) → Composed → List A → Composed
  over body c [] = c
  over body c (x ∷ xs) = over body (body c x) xs

  -- The last loop.
  unfoldable pub render : Composed → List Text
  unfolding lookup
  render c = map (λ key. get_text key c.spelling ++ (b'=' ∷ get_text key c.values)) c.order

  abbrev empty : Composed
  empty = record { values = []; spelling = []; order = [] }

  unfoldable pub compose_state : ℕ → List Text → List EnvEntry → List EnvEntry → Composed
  unfolding over add_base add_machine add_user
  compose_state separator base machine user =
      over (add_user separator) (over add_machine (over add_base empty base) machine) user

  unfoldable pub compose_env : ℕ → List Text → List EnvEntry → List EnvEntry → List Text
  unfolding compose_state render
  compose_env separator base machine user = render (compose_state separator base machine user)
