-- ===== src/Env/Replace/Laws.antt =====
-- What `replaceEnv` makes of a block.
use mathlib.Core.List.{append_assoc}
use termcp_relay.Prelude.{
  ◌≡◌, refl, Bool, true, false, not, List, [], ◌∷◌, ◌++◌, arith, if◌then◌else◌, Text, All, keep,
}
use termcp_relay.Strings.{Unicode, to_upper, to_upper-append, upper_of_equals, has_prefix-append}
use termcp_relay.Env.Replace.{is_entry_of, new_entry, replace_loop, replace_env}

module _ ⦃u : Unicode⦄ where
  -- The entry that is written is an entry of its variable.
  pub new_entry-is_entry_of : (key value : Text) → is_entry_of key (new_entry key value) ≡ true
  new_entry-is_entry_of key value =
      unfold is_entry_of in
      rw to_upper-append (
        unfold to_upper in
        rw (upper_of_equals, ← append_assoc (to_upper key) (b'=' ∷ []) (to_upper value))
          (has_prefix-append (to_upper key ++ (b'=' ∷ [])) (to_upper value)))

  -- All other entries stay as they are, in their order, and the variable has exactly one entry.
  pub replace_loop_entries :
      (key value : Text) (replaced : Bool) (env : List Text)
      → (keep (λ kv. not (is_entry_of key kv)) (replace_loop key value replaced env)
          ≡ keep (λ kv. not (is_entry_of key kv)) env)
        × (keep (is_entry_of key) (replace_loop key value replaced env)
            ≡ (if replaced then [] else new_entry key value ∷ []))
  unfolding replace_loop keep
  replace_loop_entries key value true [] = (refl, refl)
  replace_loop_entries key value false [] = rw (new_entry-is_entry_of key value) (refl, refl)
  replace_loop_entries key value replaced (kv ∷ env) = ground (
    arith,
    new_entry-is_entry_of key value,
    replace_loop_entries key value true env,
    replace_loop_entries key value replaced env,
  )

  -- Setting a variable leaves the entries of all others as they are, in their order, and the
  -- variable has exactly one entry, the new one.
  pub replace_env_entries :
      (env : List Text) (key value : Text)
      → (keep (λ kv. not (is_entry_of key kv)) (replace_env env key value)
          ≡ keep (λ kv. not (is_entry_of key kv)) env)
        × (keep (is_entry_of key) (replace_env env key value) ≡ new_entry key value ∷ [])
  unfolding replace_env
  replace_env_entries env key value = replace_loop_entries key value false env

  replace_loop_rest :
      (key value : Text) (env : List Text)
      → replace_loop key value true env ≡ keep (λ kv. not (is_entry_of key kv)) env
  unfolding replace_loop keep
  replace_loop_rest key value [] = refl
  replace_loop_rest key value (kv ∷ env) = ground (arith, replace_loop_rest key value env)

  -- The new entry stands where the first entry of the variable stood, and the later ones are gone.
  pub replace_env_position :
      (before : List Text) (kv : Text) (after : List Text) (key value : Text)
      → All (λ e. is_entry_of key e ≡ false) before
      → is_entry_of key kv ≡ true
      → replace_env (before ++ (kv ∷ after)) key value
        ≡ before ++ (new_entry key value ∷ keep (λ e. not (is_entry_of key e)) after)
  unfolding replace_env replace_loop
  replace_env_position [] kv after key value h same =
      rw same (rw (replace_loop_rest key value after))
  replace_env_position (e ∷ before) kv after key value h same =
      ground (arith, h.0, replace_env_position before kv after key value h.1 same)

  -- A variable that the block lacks is put at its end.
  pub replace_env_absent :
      (env : List Text) (key value : Text)
      → All (λ e. is_entry_of key e ≡ false) env
      → replace_env env key value ≡ env ++ (new_entry key value ∷ [])
  unfolding replace_env replace_loop
  replace_env_absent [] key value h = refl
  replace_env_absent (e ∷ env) key value h =
      ground (arith, h.0, replace_env_absent env key value h.1)

  replace_loop_again :
      (key old value : Text) (replaced : Bool) (env : List Text)
      → replace_loop key value replaced (replace_loop key old replaced env)
        ≡ replace_loop key value replaced env
  unfolding replace_loop
  replace_loop_again key old value true [] = refl
  replace_loop_again key old value false [] = rw (new_entry-is_entry_of key old)
  replace_loop_again key old value replaced (kv ∷ env) = ground (
    arith,
    new_entry-is_entry_of key old,
    replace_loop_again key old value true env,
    replace_loop_again key old value replaced env,
  )

  -- The last of two settings wins, and the first leaves no trace.
  pub replace_env_again :
      (env : List Text) (key old value : Text)
      → replace_env (replace_env env key old) key value ≡ replace_env env key value
  unfolding replace_env
  replace_env_again env key old value = replace_loop_again key old value false env
