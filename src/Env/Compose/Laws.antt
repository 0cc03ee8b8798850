-- ===== src/Env/Compose/Laws.antt =====
-- The block that `composeEnv` returns, variable by variable.
use mathlib.Core.Option.{get_or, or_else, none-ne-some, some-injective}
use termcp_relay.Prelude.{
  ℕ, ◌≡◌, refl, subst, sym, ap, ◌∙◌, inl, inr, List, [], ◌∷◌, ◌++◌, Option, none, some, arith,
  if◌then◌else◌, Text, ◌=t=◌, text_iff, Option-cases, Bool-cases,
}
use termcp_relay.Strings.{Unicode, to_upper, cut, IsCut, cut-IsCut}
use termcp_relay.Dict.{lookup, lookup-insert, get_text}
use termcp_relay.Env.Lookup.{name_value}
use termcp_relay.Env.Layer.{EnvEntry}
use termcp_relay.Env.Layer.Laws.{last_value}
use termcp_relay.Env.Path.{merge_path}
use termcp_relay.Env.Compose.{Composed, add, add_base, add_machine, add_user, over, path_key}
use termcp_relay.Env.Compose.State.{IsName}

-- The name that is read off an entry can be written back.
pub name_value-IsName :
    (kv name value : Text)
    → name_value kv ≡ some (name, value)
    → IsName name × (kv ≡ name ++ (b'=' ∷ value))
unfolding name_value
name_value-IsName kv name value e = go (cut b'=' kv) refl
  where
    go : (o : Option (Text × Text)) → cut b'=' kv ≡ o → IsName name × (kv ≡ name ++ (b'=' ∷ value))
    go none q = absurd (none-ne-some (name, value) (sym (rw (q, name_value)) ∙ e))
    go (some ([], v)) q = absurd (none-ne-some (name, value) (sym (rw (q, name_value)) ∙ e))
    go (some (c ∷ n, v)) q =
        let parts : IsCut b'=' kv (some (c ∷ n, v)) = rw q at (cut-IsCut b'=' kv) in
        let same = some-injective (c ∷ n, v) (name, value) (sym (rw (q, name_value)) ∙ e) in
        subst (λ p. IsName p.0 × (kv ≡ p.0 ++ (b'=' ∷ p.1))) same
          (record { full = refl; single = parts.1 }, parts.0)

module _ ⦃u : Unicode⦄ where
  -- The value that an entry has for a name.
  unfoldable pub base_value : Text → Text → Option Text
  base_value name kv = elim (name_value kv) [
    | none ↦ none
    | some (n, value) ↦ if to_upper n =t= to_upper name then some value else none
  ]

  -- The value of the last entry of the block for a name.
  unfoldable pub last_base : Text → List Text → Option Text
  unfolding base_value
  last_base name [] = none
  last_base name (kv ∷ base) = or_else (last_base name base) (base_value name kv)

  -- The user's values of PATH, merged one by one behind what there is.
  unfoldable pub user_path : ℕ → List EnvEntry → Option Text → Option Text
  user_path separator [] old = old
  user_path separator (e ∷ user) old = user_path separator user (
      if to_upper e.name =t= path_key
      then some (merge_path separator (get_or old [] ∷ e.value ∷ []))
      else old)

  -- What a session is to find for a name. PATH is the machine's value, or the inherited one, with
  -- the user's behind it; any other variable is the user's, or else the machine's, or else the
  -- inherited one.
  unfoldable pub session_value : ℕ → List Text → List EnvEntry → List EnvEntry → Text → Option Text
  session_value separator base machine user name =
      let under = or_else (last_value name machine) (last_base name base) in
      if to_upper name =t= path_key
      then user_path separator user under
      else or_else (last_value name user) under

  lookup-add :
      (c : Composed) (n value k : Text)
      → lookup k (add c n value).values
        ≡ (if to_upper n =t= k then some value else lookup k c.values)
  unfolding add
  lookup-add c n value k = lookup-insert (to_upper n) k value c.values

  lookup-add_base :
      (c : Composed) (kv name : Text)
      → lookup (to_upper name) (add_base c kv).values
        ≡ or_else (base_value name kv) (lookup (to_upper name) c.values)
  unfolding add_base base_value or_else
  lookup-add_base c kv name = elim (Option-cases (name_value kv)) [
    | inl gone ↦ rw (gone, add_base, base_value)
    | inr ((n, value), found) ↦ rw (found, add_base, base_value) (rw lookup-add (ground arith))
  ]

  pub lookup-base :
      (base : List Text) (c : Composed) (name : Text)
      → lookup (to_upper name) (over add_base c base).values
        ≡ or_else (last_base name base) (lookup (to_upper name) c.values)
  unfolding over last_base or_else
  lookup-base [] c name = refl
  lookup-base (kv ∷ base) c name =
      ground (arith, lookup-base base (add_base c kv) name, lookup-add_base c kv name)

  pub lookup-machine :
      (machine : List EnvEntry) (c : Composed) (name : Text)
      → lookup (to_upper name) (over add_machine c machine).values
        ≡ or_else (last_value name machine) (lookup (to_upper name) c.values)
  unfolding over last_value add_machine or_else
  lookup-machine [] c name = refl
  lookup-machine (e ∷ machine) c name = ground (
    arith,
    lookup-machine machine (add c e.name e.value) name,
    lookup-add c e.name e.value (to_upper name),
  )

  lookup-add_user :
      (separator : ℕ) (c : Composed) (e : EnvEntry) (name : Text)
      → let old = lookup (to_upper name) c.values in
        lookup (to_upper name) (add_user separator c e).values ≡ (
          if to_upper name =t= path_key
          then (if to_upper e.name =t= path_key
              then some (merge_path separator (get_or old [] ∷ e.value ∷ []))
              else old)
          else if to_upper e.name =t= to_upper name
          then some e.value
          else old)
  unfolding add_user
  lookup-add_user separator c e name =
      let key = to_upper e.name in
      let merged = merge_path separator (get_text key c.values ∷ e.value ∷ []) in
      ground (
        arith,
        lookup-add c e.name merged (to_upper name),
        lookup-add c e.name e.value (to_upper name),
        text_iff key path_key,
        text_iff (to_upper name) path_key,
        text_iff key (to_upper name),
      )

  pub lookup-user :
      (separator : ℕ) (user : List EnvEntry) (c : Composed) (name : Text)
      → lookup (to_upper name) (over (add_user separator) c user).values ≡ (
          if to_upper name =t= path_key
          then user_path separator user (lookup (to_upper name) c.values)
          else or_else (last_value name user) (lookup (to_upper name) c.values))
  unfolding over user_path last_value or_else
  lookup-user separator [] c name = ground arith
  lookup-user separator (e ∷ user) c name =
      let ih = lookup-user separator user (add_user separator c e) name in
      let now = lookup-add_user separator c e name in
      elim (Bool-cases (to_upper name =t= path_key)) [
        | inl path ↦ rw path (rw path at ih ∙ ap (user_path separator user) (rw path at now))
        | inr plain ↦ rw plain (rw plain at ih ∙ ground (arith, rw plain at now))
      ]
