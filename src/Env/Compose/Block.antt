-- ===== src/Env/Compose/Block.antt =====
-- The block that `composeEnv` returns: what it holds for a name, and that nothing is set twice.
use mathlib.Core.Option.{or_else}
use termcp_relay.Prelude.{
  ℕ, ◌≡◌, refl, sym, ap, ◌∙◌, inl, inr, List, [], ◌∷◌, Option, none, some, if◌then◌else◌, Text,
  length, length-map, ◌=t=◌, All, Option-cases, Bool-cases,
}
use termcp_relay.Strings.{Unicode, to_upper}
use termcp_relay.Dict.{lookup, member}
use termcp_relay.Env.Lookup.{name_value}
use termcp_relay.Env.Layer.{EnvEntry}
use termcp_relay.Env.Layer.Laws.{last_value}
use termcp_relay.Env.Compose.{
  Composed, add, add_base, add_machine, add_user, over, empty, path_key, render, compose_state,
  compose_env,
}
use termcp_relay.Env.Compose.State.{
  IsName, Inv, add-Inv, DistinctKeys, env_get, block_keys, env_get-render, block_keys-render,
}
use termcp_relay.Env.Compose.Laws.{
  name_value-IsName, last_base, user_path, session_value, lookup-base, lookup-machine, lookup-user,
}

abbrev pub AreNamed : List EnvEntry → Type 0
AreNamed = All (λ e. IsName e.name)

or_else_of_empty : (o : Option Text) (k : Text) → or_else o (lookup k []) ≡ o
unfolding or_else lookup
or_else_of_empty none k = refl
or_else_of_empty (some v) k = refl

module _ ⦃u : Unicode⦄ where
  length-render : (c : Composed) → length (render c) ≡ length c.order
  unfolding render
  length-render c = length-map _ c.order

  empty-Inv : Inv empty
  empty-Inv = record { spelled = tt; known = λ k. unfold member lookup in refl; distinct = tt }

  add_base-Inv : (c : Composed) (kv : Text) → Inv c → Inv (add_base c kv)
  unfolding add_base
  add_base-Inv c kv inv = elim (Option-cases (name_value kv)) [
    | inl gone ↦ rw (gone, add_base) inv
    | inr ((n, value), found) ↦
        rw (found, add_base) (add-Inv c n value (name_value-IsName kv n value found).0 inv)
  ]

  over_base-Inv : (base : List Text) (c : Composed) → Inv c → Inv (over add_base c base)
  unfolding over
  over_base-Inv [] c inv = inv
  over_base-Inv (kv ∷ base) c inv = over_base-Inv base (add_base c kv) (add_base-Inv c kv inv)

  over_machine-Inv :
      (machine : List EnvEntry) (c : Composed)
      → AreNamed machine
      → Inv c
      → Inv (over add_machine c machine)
  unfolding over add_machine
  over_machine-Inv [] c h inv = inv
  over_machine-Inv (e ∷ machine) c h inv =
      over_machine-Inv machine (add c e.name e.value) h.1 (add-Inv c e.name e.value h.0 inv)

  add_user-Inv :
      (separator : ℕ) (c : Composed) (e : EnvEntry)
      → IsName e.name
      → Inv c
      → Inv (add_user separator c e)
  unfolding add_user
  add_user-Inv separator c e h inv = elim (Bool-cases (to_upper e.name =t= path_key)) [
    | inl path ↦ rw path (add-Inv c e.name _ h inv)
    | inr plain ↦ rw plain (add-Inv c e.name e.value h inv)
  ]

  over_user-Inv :
      (separator : ℕ) (user : List EnvEntry) (c : Composed)
      → AreNamed user
      → Inv c
      → Inv (over (add_user separator) c user)
  unfolding over
  over_user-Inv separator [] c h inv = inv
  over_user-Inv separator (e ∷ user) c h inv =
      over_user-Inv separator user (add_user separator c e) h.1 (add_user-Inv separator c e h.0 inv)

  compose_state-Inv :
      (separator : ℕ) (base : List Text) (machine user : List EnvEntry)
      → AreNamed machine
      → AreNamed user
      → Inv (compose_state separator base machine user)
  unfolding compose_state
  compose_state-Inv separator base machine user hm hu =
      over_user-Inv separator user _ hu
        (over_machine-Inv machine _ hm (over_base-Inv base empty empty-Inv))

  -- In the composed block a process finds for each name, in any casing, the user's value, or else
  -- the machine's, or else the inherited one; for PATH it finds the machine's or inherited value
  -- with the user's values merged behind it.
  pub env_get-compose_env :
      (separator : ℕ) (base : List Text) (machine user : List EnvEntry) (name : Text)
      → AreNamed machine
      → AreNamed user
      → env_get name (compose_env separator base machine user)
        ≡ session_value separator base machine user name
  unfolding compose_env compose_state session_value
  env_get-compose_env separator base machine user name hm hu =
      let c = over add_base empty base in
      let m = over add_machine c machine in
      let inherited = lookup-base base empty name in
      env_get-render _ (compose_state-Inv separator base machine user hm hu) name
      ∙ lookup-user separator user m name
      ∙ ap
          (λ under.
            if to_upper name =t= path_key
            then user_path separator user under
            else or_else (last_value name user) under)
          (lookup-machine machine c name
            ∙ ap (or_else (last_value name machine))
                (inherited ∙ or_else_of_empty (last_base name base) (to_upper name)))

  -- No two entries of the composed block are for the same name in any casing, and every entry has a
  -- name.
  pub compose_env-DistinctKeys :
      (separator : ℕ) (base : List Text) (machine user : List EnvEntry)
      → AreNamed machine
      → AreNamed user
      → let block = compose_env separator base machine user in
        DistinctKeys (block_keys block) × (length (block_keys block) ≡ length block)
  unfolding compose_env
  compose_env-DistinctKeys separator base machine user hm hu =
      let c = compose_state separator base machine user in
      let inv = compose_state-Inv separator base machine user hm hu in
      let keys = block_keys-render c inv in (rw keys inv.distinct, rw keys (sym (length-render c)))
