-- ===== src/Env/Replace/Get.antt =====
-- What a process finds in a block in which `replaceEnv` has set a variable.
use termcp_relay.Prelude.{
  ◌≡◌, refl, ap, ◌∙◌, inl, inr, Bool, true, false, List, [], ◌∷◌, ◌++◌, Option, none, some, arith,
  if◌then◌else◌, Text, ◌=t=◌, text_iff, Option-cases,
}
use termcp_relay.Strings.{Unicode, to_upper, has_prefix, cut, Lacks}
use termcp_relay.Env.Lookup.{name_value}
use termcp_relay.Env.Compose.State.{IsName, name_value_of_IsName, env_get}
use termcp_relay.Env.Replace.{is_entry_of, new_entry, replace_loop, replace_env}

-- Whether a text starts with a name and an equals sign, by what stands around its first one.
abbrev starts_with : Text → Option (Text × Text) → Bool
starts_with p none = false
starts_with p (some (before, after)) = before =t= p

has_prefix-cut :
    (s p : Text) → Lacks b'=' p → has_prefix s (p ++ (b'=' ∷ [])) ≡ starts_with p (cut b'=' s)
unfolding has_prefix cut ◌=t=◌
has_prefix-cut [] [] h = refl
has_prefix-cut [] (x ∷ p) h = refl
has_prefix-cut (c ∷ s) [] h = ground arith
has_prefix-cut (c ∷ s) (x ∷ p) h = ground (arith, h.0, has_prefix-cut s p h.1)

module _ ⦃u : Unicode⦄ where
  abbrev upper_cut : Option (Text × Text) → Option (Text × Text)
  upper_cut none = none
  upper_cut (some (before, after)) = some (to_upper before, to_upper after)

  cut-to_upper : (s : Text) → cut b'=' (to_upper s) ≡ upper_cut (cut b'=' s)
  unfolding cut to_upper
  cut-to_upper [] = refl
  cut-to_upper (c ∷ s) =
      ground (arith, u.upper_equals c, u.upper_ascii b'=' (omega arith), cut-to_upper s)

  to_upper-Lacks : (s : Text) → Lacks b'=' s → Lacks b'=' (to_upper s)
  unfolding to_upper
  to_upper-Lacks [] h = tt
  to_upper-Lacks (c ∷ s) h = ((λ e. h.0 (u.upper_equals c e)), to_upper-Lacks s h.1)

  -- The name that an entry is read with, in capitals.
  abbrev named : Text → Option (Text × Text) → Bool
  named key none = false
  named key (some (n, value)) = to_upper n =t= to_upper key

  named-cut :
      (key : Text) (found : Option (Text × Text))
      → IsName key
      → starts_with (to_upper key) (upper_cut found)
        ≡ named key (elim found [
          | none ↦ none
          | some (n, value) ↦ elim n [ [] ↦ none | c ∷ rest ↦ some (c ∷ rest, value) ]
        ])
  unfolding to_upper ◌=t=◌
  named-cut key none h = refl
  named-cut [] (some ([], value)) h = cc (h.full)
  named-cut (k ∷ key) (some ([], value)) h = refl
  named-cut key (some (c ∷ n, value)) h = refl

  is_entry_of-name_value :
      (key kv : Text) → IsName key → is_entry_of key kv ≡ named key (name_value kv)
  unfolding is_entry_of name_value
  is_entry_of-name_value key kv h =
      has_prefix-cut (to_upper kv) (to_upper key) (to_upper-Lacks key h.single)
      ∙ ap (starts_with (to_upper key)) (cut-to_upper kv)
      ∙ named-cut key (cut b'=' kv) h

  env_get-new_entry :
      (key value name : Text) (env : List Text)
      → IsName key
      → env_get name (new_entry key value ∷ env)
        ≡ (if to_upper key =t= to_upper name then some value else env_get name env)
  unfolding env_get
  env_get-new_entry key value name env h = ground (arith, name_value_of_IsName key value h)

  replace_loop_get :
      (key value name : Text) (replaced : Bool) (env : List Text)
      → IsName key
      → env_get name (replace_loop key value replaced env) ≡ (
          if to_upper key =t= to_upper name
          then (if replaced then none else some value)
          else env_get name env)
  unfolding replace_loop env_get
  replace_loop_get key value name true [] h = ground arith
  replace_loop_get key value name false [] h = env_get-new_entry key value name [] h
  replace_loop_get key value name replaced (kv ∷ env) h =
      let set = env_get-new_entry key value name (replace_loop key value true env) h in
      elim (Option-cases (name_value kv)) [
        | inl gone ↦ ground (
          arith,
          gone,
          is_entry_of-name_value key kv h,
          set,
          replace_loop_get key value name true env h,
          replace_loop_get key value name replaced env h,
        )
        | inr ((n, found), read) ↦ ground (
          arith,
          read,
          is_entry_of-name_value key kv h,
          set,
          replace_loop_get key value name true env h,
          replace_loop_get key value name replaced env h,
          text_iff (to_upper n) (to_upper key),
          text_iff (to_upper key) (to_upper name),
          text_iff (to_upper n) (to_upper name),
        )
      ]

  -- A process finds the value that was set for the variable, and for every other name what it would
  -- have found before. The name of the variable is one that an entry can carry.
  pub env_get-replace_env :
      (env : List Text) (key value name : Text)
      → IsName key
      → env_get name (replace_env env key value)
        ≡ (if to_upper key =t= to_upper name then some value else env_get name env)
  unfolding replace_env
  env_get-replace_env env key value name h = replace_loop_get key value name false env h
