-- ===== src/Env/Replace.antt =====
-- `replaceEnv`: one variable of an environment block, set in its place.
pub mod Laws
pub mod Get
use termcp_relay.Prelude.{Bool, true, false, List, [], ◌∷◌, ◌++◌, if◌then◌else◌, Text}
use termcp_relay.Strings.{Unicode, to_upper, has_prefix}

module _ ⦃u : Unicode⦄ where
  -- `strings.HasPrefix(strings.ToUpper(kv), strings.ToUpper(key)+"=")`
  unfoldable pub is_entry_of : Text → Text → Bool
  unfolding has_prefix to_upper
  is_entry_of key kv = has_prefix (to_upper kv) (to_upper key ++ (b'=' ∷ []))

  module _ (key value : Text) where
    abbrev pub new_entry : Text
    new_entry = key ++ (b'=' ∷ value)

    -- The loop over `env`, and the test after it; the flag is `replaced`.
    unfoldable pub replace_loop : Bool → List Text → List Text
    unfolding is_entry_of
    replace_loop true [] = []
    replace_loop false [] = new_entry ∷ []
    replace_loop replaced (kv ∷ env) =
        let replace = replace_loop true env in
        let keep = kv ∷ replace_loop replaced env in
        if is_entry_of key kv then (if replaced then replace else new_entry ∷ replace) else keep

  unfoldable pub replace_env : List Text → Text → Text → List Text
  unfolding replace_loop
  replace_env env key value = replace_loop key value false env
