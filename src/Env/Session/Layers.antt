-- ===== src/Env/Session/Layers.antt =====
-- The layers of a session's environment on Windows, described by what the registry holds: which of its
-- values are read, and what each of them comes to.
use mathlib.Core.Option.{or_else}
use termcp_relay.Prelude.{
  ℕ, ◌≡◌, refl, sym, ap, ◌∙◌, inl, inr, Bool, true, false, not, ◌&&◌, List, [], ◌∷◌, ◌++◌, Option,
  none, some, Text, ◌=t=◌, if◌then◌else◌, arith, Option-cases, is_some,
}
use termcp_relay.Strings.{Unicode, to_upper}
use termcp_relay.Env.Lookup.{EnvLookup, get, set, get-set, lookup_loop, new_env_lookup, name_value}
use termcp_relay.Env.Expand.Laws.{Expands, expand_percent-Expands}
use termcp_relay.Env.Layer.{EnvValue, EnvEntry, seed, value_of, expand_values, expand_layer}
use termcp_relay.Env.Layer.Laws.{expand_layer_lem, last_value}
use termcp_relay.Env.Compose.State.{env_get}
use termcp_relay.Env.Compose.Laws.{base_value, last_base, session_value}
use termcp_relay.Env.Session.{RegistryKey, read_env_key, session_env}
use termcp_relay.Env.Session.Reads.{Reads, read_env_key-Reads}
use termcp_relay.Env.Session.Laws.{HasPlainNames, session_env-expand_layer}

module _ ⦃u : Unicode⦄ where
  -- The last of the values for a name that are not to be expanded.
  unfoldable pub last_fixed : Text → List EnvValue → Option Text
  last_fixed name [] = none
  last_fixed name (v ∷ values) =
      or_else (last_fixed name values)
        (if not v.expandable && to_upper v.name =t= to_upper name then some v.value else none)

  or_else-none : (o : Option Text) → or_else o none ≡ o
  unfolding or_else
  or_else-none none = refl
  or_else-none (some v) = refl

  none_or_else : (name : Text) (o : Option Text) → o ≡ or_else (last_value name []) o
  unfolding or_else last_value
  none_or_else name o = refl

  module _ (values : List EnvValue) (below : Text → Option Text) where
    -- What a reference is looked up in while a value of the layer is expanded: the entries made so far,
    -- else the values of the layer that are not to be expanded, else what there is below the layer.
    abbrev pub SeesBelow : List EnvEntry → EnvLookup → Type 0
    SeesBelow done at =
        (name : Text)
        → get at name
          ≡ or_else (last_value name done) (or_else (last_fixed name values) (below name))

    -- There is one entry for each of the values that are left, under its name; a value that is not
    -- expandable is taken as it is, and any other is expanded.
    abbrev pub IsLayered : List EnvEntry → List EnvValue → List EnvEntry → Type 0
    IsLayered done [] [] = Unit
    IsLayered done (v ∷ rest) (e ∷ entries) =
        (e.name ≡ v.name)
        × (v.expandable ≡ false → e.value ≡ v.value)
        × (v.expandable ≡ true → (at : EnvLookup) × SeesBelow done at × Expands at v.value e.value)
        × IsLayered (done ++ (e ∷ [])) rest entries
    IsLayered _ _ _ = ⊥

    last_value-snoc :
        (done : List EnvEntry) (e : EnvEntry) (name : Text)
        → last_value name (done ++ (e ∷ []))
          ≡ (if to_upper e.name =t= to_upper name then some e.value else last_value name done)
    unfolding last_value or_else
    last_value-snoc [] e name = ground arith
    last_value-snoc (d ∷ done) e name = ground (arith, last_value-snoc done e name)

    if_or_else :
        (b : Bool) (value : Text) (found last rest : Option Text)
        → found ≡ or_else last rest
        → (if b then some value else found) ≡ or_else (if b then some value else last) rest
    unfolding or_else
    if_or_else true value found last rest h = refl
    if_or_else false value found last rest h = h

    SeesBelow-set :
        (done : List EnvEntry) (table : EnvLookup) (e : EnvEntry)
        → SeesBelow done table
        → SeesBelow (done ++ (e ∷ [])) (set table e.name e.value)
    SeesBelow-set done table e sees name =
        let under = or_else (last_fixed name values) (below name) in
        get-set table e.name name e.value
        ∙ if_or_else (to_upper e.name =t= to_upper name) e.value _ (last_value name done) under
            (sees name)
        ∙ ap (λ l. or_else l under) (sym (last_value-snoc done e name))

    expand_values-IsLayered :
        (rest : List EnvValue) (done : List EnvEntry) (table : EnvLookup)
        → SeesBelow done table
        → IsLayered done rest (expand_values rest table).0
    unfolding expand_values value_of
    expand_values-IsLayered [] done table sees = tt
    expand_values-IsLayered (v ∷ rest) done table sees =
        let value = value_of v table in
        let e : EnvEntry = record { name = v.name; value = value } in
        (
          refl,
          (λ fixed. rw fixed refl),
          (λ expandable.
              (table, sees, rw expandable ((expand_percent-Expands table v.value _).0 refl))),
          expand_values-IsLayered rest (done ++ (e ∷ [])) (set table v.name value)
              (SeesBelow-set done table e sees),
        )

  get-seed :
      (values : List EnvValue) (table : EnvLookup) (name : Text)
      → get (seed values table) name ≡ or_else (last_fixed name values) (get table name)
  unfolding seed last_fixed or_else
  get-seed [] table name = refl
  get-seed (v ∷ values) table name =
      let next = if v.expandable then table else set table v.name v.value in
      ground (arith, get-seed values next name, get-set table v.name name v.value)

  get-lookup_loop :
      (base : List Text) (table : EnvLookup) (name : Text)
      → get (lookup_loop table base) name ≡ or_else (last_base name base) (get table name)
  unfolding lookup_loop last_base base_value or_else
  get-lookup_loop [] table name = refl
  get-lookup_loop (kv ∷ base) table name = elim (Option-cases (name_value kv)) [
    | inl gone ↦ ground (arith, gone, get-lookup_loop base table name)
    | inr ((n, value), found) ↦
        ground
          (arith, found, get-lookup_loop base (set table n value) name, get-set table n name value)
  ]

  -- The environment of a block: the value of the last entry for a name.
  get-new_env_lookup :
      (base : List Text) (name : Text) → get (new_env_lookup base) name ≡ last_base name base
  unfolding new_env_lookup get
  get-new_env_lookup base name = get-lookup_loop base [] name ∙ or_else-none (last_base name base)

  -- The layers of a session: the values that the two keys of the registry hold, and what they come to,
  -- the machine's over the inherited block and the user's over both.
  pub record Layers (base : List Text) (local_machine current_user : Option RegistryKey)
      : Type 0 where
    pub machine_values : List EnvValue
    pub machine_read : Reads local_machine machine_values
    pub machine : List EnvEntry
    pub machine_layer :
        IsLayered machine_values (λ name. last_base name base) [] machine_values machine
    pub user_values : List EnvValue
    pub user_read : Reads current_user user_values
    pub user : List EnvEntry
    pub user_layer :
        IsLayered user_values
          (λ name. or_else (last_value name machine) (last_base name base))
          []
          user_values
          user

  expand_layer-IsLayered :
      (values : List EnvValue) (below : Text → Option Text) (table : EnvLookup)
      → ((name : Text) → get table name ≡ below name)
      → IsLayered values below [] values (expand_layer values table).0
  unfolding expand_layer
  expand_layer-IsLayered values below table sees =
      expand_values-IsLayered values below values [] (seed values table) (λ name.
        get-seed values table name
        ∙ ap (or_else (last_fixed name values)) (sees name)
        ∙ none_or_else name _)

  session_layers :
      (base : List Text) (local_machine current_user : Option RegistryKey)
      → Layers base local_machine current_user
  session_layers base local_machine current_user =
      let table = new_env_lookup base in
      let layer = expand_layer (read_env_key local_machine) table in
      let holds = (expand_layer_lem (read_env_key local_machine) table).1 in
      record {
        machine_values = read_env_key local_machine;
        machine_read = read_env_key-Reads local_machine;
        machine = layer.0;
        machine_layer =
            expand_layer-IsLayered (read_env_key local_machine) _ table (get-new_env_lookup base);
        user_values = read_env_key current_user;
        user_read = read_env_key-Reads current_user;
        user = (expand_layer (read_env_key current_user) layer.1).0;
        user_layer = expand_layer-IsLayered (read_env_key current_user) _ layer.1 (λ name.
            holds name ∙ ap (or_else (last_value name layer.0)) (get-new_env_lookup base name));
      }

  -- On Windows there are layers of the registry over the inherited block, as described above, such
  -- that a session finds for each name what `session_value` takes from them; and no variable of the
  -- inherited block is lost. It does not matter whether the registry can be read; its names hold no
  -- equals sign.
  pub session_env_lem :
      (separator : ℕ) (base : List Text) (local_machine current_user : Option RegistryKey)
      → HasPlainNames local_machine
      → HasPlainNames current_user
      → (l : Layers base local_machine current_user) × ((name : Text)
          → let block = session_env separator base local_machine current_user in
            (env_get name block ≡ session_value separator base l.machine l.user name)
            × (is_some (last_base name base) ≡ true → is_some (env_get name block) ≡ true))
  unfolding session_layers expand_layer
  session_env_lem separator base local_machine current_user hm hu = (
    session_layers base local_machine current_user,
    session_env-expand_layer separator base local_machine current_user hm hu,
  )
