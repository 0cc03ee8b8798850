-- ===== src/Env/Session/Reads.antt =====
-- `readEnvKey`, described by what the key of the registry holds.
use termcp_relay.Prelude.{
  subst, ◌≡◌, ◌≢◌, ◌⊎◌, refl, sym, inl, inr, Bool, List, [], ◌∷◌, Option, none, some, Text,
  Option-cases,
}
use termcp_relay.Env.Layer.{EnvValue}
use termcp_relay.Env.Session.{RegistryKey, read_values, read_env_key}

-- The values that are read, by the names of a key: all but those without a name, and those that are
-- no strings, in the order of the names.
pub data ReadsNames (key : RegistryKey) : List Text → List EnvValue → Type 0 where
  all_read : ReadsNames key [] []
  passed_over :
      {name : Text} {names : List Text} {values : List EnvValue}
      → (name ≡ []) ⊎ (key.get_string_value name ≡ none)
      → ReadsNames key names values
      → ReadsNames key (name ∷ names) values
  taken :
      {name value : Text} {expandable : Bool} {names : List Text} {values : List EnvValue}
      → name ≢ []
      → key.get_string_value name ≡ some (value, expandable)
      → ReadsNames key names values
      → ReadsNames key
          (name ∷ names)
          (record { name = name; value = value; expandable = expandable } ∷ values)

-- Nothing is read from a key that cannot be opened, or of which the names cannot be read.
abbrev pub Reads : Option RegistryKey → List EnvValue → Type 0
Reads none values = values ≡ []
Reads (some key) values =
    ((key.value_names ≡ none) × (values ≡ []))
    ⊎ ((names : List Text) × (key.value_names ≡ some names) × ReadsNames key names values)

read_values-ReadsNames :
    (key : RegistryKey) (names : List Text) → ReadsNames key names (read_values key names)
unfolding read_values
read_values-ReadsNames key [] = all_read
read_values-ReadsNames key ([] ∷ names) = passed_over (inl refl) (read_values-ReadsNames key names)
read_values-ReadsNames key ((c ∷ name) ∷ names) =
    elim (Option-cases (key.get_string_value (c ∷ name))) [
      | inl gone ↦
          rw (gone, read_values) (passed_over (inr gone) (read_values-ReadsNames key names))
      | inr ((value, expandable), found) ↦
          rw (found, read_values) (taken (λ e. cc) found (read_values-ReadsNames key names))
    ]

opened_names :
    (key : RegistryKey) (names : List Text)
    → key.value_names ≡ some names
    → read_env_key (some key) ≡ read_values key names
unfolding read_env_key
opened_names key names found = simp (found)

pub read_env_key-Reads : (key : Option RegistryKey) → Reads key (read_env_key key)
unfolding read_env_key
read_env_key-Reads none = refl
read_env_key-Reads (some key) = elim (Option-cases key.value_names) [
  | inl gone ↦ inl (gone, simp (gone))
  | inr (names, found) ↦ inr (
    names,
    found,
    subst (ReadsNames key names) (sym (opened_names key names found))
        (read_values-ReadsNames key names),
  )
]
