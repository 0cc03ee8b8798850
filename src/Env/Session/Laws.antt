-- ===== src/Env/Session/Laws.antt =====
-- What a session on Windows finds in its environment.
use mathlib.Core.Option.{or_else}
use termcp_relay.Prelude.{
  length, ℕ, ◌≡◌, refl, subst, sym, ap, ◌∙◌, inl, inr, true, List, [], ◌∷◌, Option, none, some,
  Text, ◌=t=◌, All, Option-cases, Bool-cases, is_some, is_nil,
}
use termcp_relay.Strings.{Unicode, to_upper, Lacks}
use termcp_relay.Env.Lookup.{new_env_lookup}
use termcp_relay.Env.Layer.{EnvValue, EnvEntry, expand_layer}
use termcp_relay.Env.Layer.Laws.{AreEntries, expand_layer_lem, last_value}
use termcp_relay.Env.Compose.{path_key}
use termcp_relay.Env.Compose.State.{block_keys, DistinctKeys, IsName, env_get}
use termcp_relay.Env.Compose.Laws.{last_base, user_path, session_value}
use termcp_relay.Env.Compose.Block.{compose_env-DistinctKeys, AreNamed, env_get-compose_env}
use termcp_relay.Env.Session.{RegistryKey, read_values, read_env_key, session_env}

some_of_is_some : (o : Option Text) → is_some o ≡ true → (v : Text) × (o ≡ some v)
some_of_is_some none h = cc
some_of_is_some (some v) h = (v, refl)

-- The registry holds no value whose name has an equals sign.
abbrev pub HasPlainNames : Option RegistryKey → Type 0
HasPlainNames none = Unit
HasPlainNames (some key) =
    (names : List Text) → key.value_names ≡ some names → All (Lacks b'=') names

abbrev AreNamedValues : List EnvValue → Type 0
AreNamedValues = All (λ v. IsName v.name)

read_values-AreNamedValues :
    (key : RegistryKey) (names : List Text)
    → All (Lacks b'=') names
    → AreNamedValues (read_values key names)
unfolding read_values
read_values-AreNamedValues key [] h = tt
read_values-AreNamedValues key (name ∷ names) h =
    let rest = read_values-AreNamedValues key names h.1 in
    elim (Bool-cases (is_nil name)) [
      | inl blank ↦ rw blank rest
      | inr full ↦ elim (Option-cases (key.get_string_value name)) [
        | inl gone ↦ rw (full, gone, read_values) rest
        | inr ((value, expandable), found) ↦
            rw (full, found, read_values) (record { full = full; single = h.0 }, rest)
      ]
    ]

read_env_key-AreNamedValues :
    (key : Option RegistryKey) → HasPlainNames key → AreNamedValues (read_env_key key)
unfolding read_env_key
read_env_key-AreNamedValues none h = tt
read_env_key-AreNamedValues (some key) h = elim (Option-cases key.value_names) [
  | inl gone ↦ rw (gone, read_env_key) tt
  | inr (names, found) ↦
      rw (found, read_env_key) (read_values-AreNamedValues key names (h names found))
]

AreEntries-AreNamed :
    (values : List EnvValue) (entries : List EnvEntry)
    → AreEntries values entries
    → AreNamedValues values
    → AreNamed entries
AreEntries-AreNamed [] [] a h = tt
AreEntries-AreNamed [] (e ∷ entries) a h = absurd a
AreEntries-AreNamed (v ∷ values) [] a h = absurd a
AreEntries-AreNamed (v ∷ values) (e ∷ entries) a h =
    (subst IsName (sym a.0) h.0, AreEntries-AreNamed values entries a.2 h.1)

module _ ⦃u : Unicode⦄ where
  user_path-is_some :
      (separator : ℕ) (user : List EnvEntry) (value : Text)
      → is_some (user_path separator user (some value)) ≡ true
  unfolding user_path
  user_path-is_some separator [] value = refl
  user_path-is_some separator (e ∷ user) value = elim (Bool-cases (to_upper e.name =t= path_key)) [
    | inl path ↦ rw path (user_path-is_some separator user _)
    | inr other ↦ rw other (user_path-is_some separator user value)
  ]

  or_else-some : (o : Option Text) (value : Text) → (w : Text) × (or_else o (some value) ≡ some w)
  unfolding or_else
  or_else-some none value = (value, refl)
  or_else-some (some w) value = (w, refl)

  session_value-is_some :
      (separator : ℕ) (base : List Text) (machine user : List EnvEntry) (name value : Text)
      → last_base name base ≡ some value
      → is_some (session_value separator base machine user name) ≡ true
  unfolding session_value
  session_value-is_some separator base machine user name value h =
      let (w, under) = or_else-some (last_value name machine) value in
      let (v, over) = or_else-some (last_value name user) w in
      rw (h, under)
        (elim (Bool-cases (to_upper name =t= path_key)) [
          | inl path ↦ rw path (user_path-is_some separator user w)
          | inr other ↦ rw (other, over) refl
        ])

  -- Whatever the two registry keys hold, and whether or not they can be read, a session finds for
  -- each name what the layers give it, and no variable of the inherited block is lost.
  pub session_env-expand_layer :
      (separator : ℕ) (base : List Text) (local_machine current_user : Option RegistryKey)
      → HasPlainNames local_machine
      → HasPlainNames current_user
      → (name : Text)
      → let table = new_env_lookup base in
        let (machine, table') = expand_layer (read_env_key local_machine) table in
        let (user, table'') = expand_layer (read_env_key current_user) table' in
        let block = session_env separator base local_machine current_user in
        (env_get name block ≡ session_value separator base machine user name)
        × (is_some (last_base name base) ≡ true → is_some (env_get name block) ≡ true)
  unfolding session_env
  session_env-expand_layer separator base local_machine current_user hm hu name =
      let layer = expand_layer (read_env_key local_machine) (new_env_lookup base) in
      let layer' = expand_layer (read_env_key current_user) layer.1 in
      let named =
        AreEntries-AreNamed _ _
          (expand_layer_lem (read_env_key local_machine) (new_env_lookup base)).0
          (read_env_key-AreNamedValues local_machine hm) in
      let named' =
        AreEntries-AreNamed _ _ (expand_layer_lem (read_env_key current_user) layer.1).0
          (read_env_key-AreNamedValues current_user hu) in
      let found = env_get-compose_env separator base layer.0 layer'.0 name named named' in
      (
        found,
        λ inherited.
            let (value, h) = some_of_is_some (last_base name base) inherited in
            ap is_some found ∙ session_value-is_some separator base layer.0 layer'.0 name value h,
      )

  -- The environment of a session on Windows has no two entries for one name in any casing, and each
  -- entry has a name, if no name in the registry holds an equals sign. Names of the registry that are
  -- empty are passed over, and so are inherited entries without a name.
  pub session_env-DistinctKeys :
      (separator : ℕ) (base : List Text) (local_machine current_user : Option RegistryKey)
      → HasPlainNames local_machine
      → HasPlainNames current_user
      → let block = session_env separator base local_machine current_user in
        DistinctKeys (block_keys block) × (length (block_keys block) ≡ length block)
  unfolding session_env
  session_env-DistinctKeys separator base local_machine current_user hm hu =
      let layer = expand_layer (read_env_key local_machine) (new_env_lookup base) in
      compose_env-DistinctKeys separator base layer.0 _
        (AreEntries-AreNamed _ _
          (expand_layer_lem (read_env_key local_machine) (new_env_lookup base)).0
          (read_env_key-AreNamedValues local_machine hm))
        (AreEntries-AreNamed _ _ (expand_layer_lem (read_env_key current_user) layer.1).0
          (read_env_key-AreNamedValues current_user hu))
