-- ===== src/Env/Compose/State.antt =====
-- The invariant of the maps and the order that `composeEnv` builds, and the block rendered from it.
use termcp_relay.Prelude.{
  ◌≡◌, refl, ◌∙◌, inl, inr, false, List, [], ◌∷◌, ◌++◌, map, Option, none, some, arith,
  if◌then◌else◌, Text, ◌=t=◌, text_iff, text_refl, is_some, is_nil, All, All-map, All-append,
  Option-cases, Bool-cases,
}
use termcp_relay.Strings.{Unicode, to_upper, cut-append, Lacks}
use termcp_relay.Dict.{Dict, lookup, insert, lookup-insert, get_text, member, member-append}
use termcp_relay.Env.Lookup.{name_value}
use termcp_relay.Env.Compose.{Composed, add, render}

-- A name that an entry `NAME=value` can carry.
pub record IsName (name : Text) : Type 0 where
  pub full : is_nil name ≡ false
  pub single : Lacks b'=' name

pub name_value_of_IsName :
    (name value : Text) → IsName name → name_value (name ++ (b'=' ∷ value)) ≡ some (name, value)
unfolding name_value
name_value_of_IsName [] value h = cc (h.full)
name_value_of_IsName (c ∷ name) value h = rw (cut-append b'=' (c ∷ name) value h.single, name_value)

abbrev pub DistinctKeys : List Text → Type 0
DistinctKeys [] = Unit
DistinctKeys (k ∷ ks) = (member k ks ≡ false) × DistinctKeys ks

DistinctKeys-concat :
    (ks : List Text) (k : Text)
    → DistinctKeys ks
    → member k ks ≡ false
    → DistinctKeys (ks ++ (k ∷ []))
unfolding member
DistinctKeys-concat [] k d n = (refl, tt)
DistinctKeys-concat (j ∷ ks) k d n = (
  rw (member-append j ks (k ∷ []), d.0) (ground (arith, text_iff j k, text_iff k j)),
  DistinctKeys-concat ks k d.1 (ground arith),
)

module _ ⦃u : Unicode⦄ where
  -- The spelling kept for a key is a name of that key.
  abbrev pub IsSpelled : Dict Text → Text → Type 0
  IsSpelled spelling key =
      (name : Text) × (lookup key spelling ≡ some name) × IsName name × (to_upper name ≡ key)

  pub record Inv (c : Composed) : Type 0 where
    pub spelled : All (IsSpelled c.spelling) c.order
    pub known : (k : Text) → member k c.order ≡ is_some (lookup k c.values)
    pub distinct : DistinctKeys c.order

  insert-IsSpelled :
      (spelling : Dict Text) (name : Text)
      → IsName name
      → (key : Text) → IsSpelled spelling key
      → IsSpelled (insert (to_upper name) name spelling) key
  insert-IsSpelled spelling name h key (old, found, g, same) =
      elim (Bool-cases (to_upper name =t= key)) [
        | inl e ↦ (name, rw (lookup-insert, e), h, (text_iff _ _).0 e)
        | inr n ↦ (old, rw (lookup-insert, n) found, g, same)
      ]

  insert-IsSpelled_self :
      (spelling : Dict Text) (name : Text)
      → IsName name
      → IsSpelled (insert (to_upper name) name spelling) (to_upper name)
  insert-IsSpelled_self spelling name h = (name, rw (lookup-insert, text_refl), h, refl)

  known-append :
      (c : Composed) (name value : Text)
      → Inv c
      → (k : Text)
      → member k (c.order ++ (to_upper name ∷ []))
        ≡ is_some (lookup k (insert (to_upper name) value c.values))
  unfolding member
  known-append c name value inv k =
      let key = to_upper name in
      rw (member-append, lookup-insert)
        (ground (arith, inv.known k, text_iff k key, text_iff key k))

  known_again :
      (c : Composed) (name value old : Text)
      → Inv c
      → lookup (to_upper name) c.values ≡ some old
      → (k : Text) → member k c.order ≡ is_some (lookup k (insert (to_upper name) value c.values))
  known_again c name value old inv found k =
      let key = to_upper name in rw lookup-insert (ground (arith, inv.known k, text_iff key k))

  pub add-Inv : (c : Composed) (name value : Text) → IsName name → Inv c → Inv (add c name value)
  unfolding add
  add-Inv c name value h inv = elim (Option-cases (lookup (to_upper name) c.values)) [
    | inl new ↦
        let absent : member (to_upper name) c.order ≡ false = inv.known (to_upper name) ∙ rw new in
        rw new (record {
          spelled =
              All-append _ c.order (to_upper name ∷ [])
                (All-map _ _ (insert-IsSpelled c.spelling name h) c.order inv.spelled)
                (insert-IsSpelled_self c.spelling name h, tt);
          known = known-append c name value inv;
          distinct = DistinctKeys-concat c.order (to_upper name) inv.distinct absent;
        })
    | inr (old, found) ↦ rw found (record {
      spelled = All-map _ _ (insert-IsSpelled c.spelling name h) c.order inv.spelled;
      known = known_again c name value old inv found;
      distinct = inv.distinct;
    })
  ]

  -- What a process that is given the block finds for a name: the value of the first entry for it.
  unfoldable pub env_get : Text → List Text → Option Text
  env_get name [] = none
  env_get name (kv ∷ block) =
      let rest = env_get name block in
      elim (name_value kv) [
        | none ↦ rest
        | some (n, value) ↦ if to_upper n =t= to_upper name then some value else rest
      ]

  -- The keys of the entries of a block, in order.
  unfoldable pub block_keys : List Text → List Text
  block_keys [] = []
  block_keys (kv ∷ block) =
      let rest = block_keys block in
      elim (name_value kv) [ none ↦ rest | some (n, value) ↦ to_upper n ∷ rest ]

  abbrev entry_of : Dict Text → Dict Text → Text → Text
  entry_of spelling values key = get_text key spelling ++ (b'=' ∷ get_text key values)

  name_value-entry_of :
      (spelling values : Dict Text) (key : Text)
      → IsSpelled spelling key
      → (n : Text) × (name_value (entry_of spelling values key) ≡ some (n, get_text key values))
        × (to_upper n ≡ key)
  name_value-entry_of spelling values key (name, found, h, same) =
      (name, rw found (name_value_of_IsName name (get_text key values) h), same)

  block_keys-entries :
      (spelling values : Dict Text) (keys : List Text)
      → All (IsSpelled spelling) keys
      → block_keys (map (entry_of spelling values) keys) ≡ keys
  unfolding block_keys
  block_keys-entries spelling values [] h = refl
  block_keys-entries spelling values (k ∷ keys) h =
      let (n, read, same) = name_value-entry_of spelling values k h.0 in
      ground (arith, read, same, block_keys-entries spelling values keys h.1)

  env_get-entries :
      (name : Text) (spelling values : Dict Text) (keys : List Text)
      → All (IsSpelled spelling) keys
      → env_get name (map (entry_of spelling values) keys)
        ≡ (if member (to_upper name) keys then some (get_text (to_upper name) values) else none)
  unfolding env_get member
  env_get-entries name spelling values [] h = refl
  env_get-entries name spelling values (k ∷ keys) h =
      let (n, read, same) = name_value-entry_of spelling values k h.0 in
      ground (
        arith,
        read,
        same,
        env_get-entries name spelling values keys h.1,
        text_iff k (to_upper name),
        text_iff (to_upper name) k,
      )

  -- Each key has one entry, in the order in which the keys came.
  pub block_keys-render : (c : Composed) → Inv c → block_keys (render c) ≡ c.order
  unfolding render
  block_keys-render c inv = block_keys-entries c.spelling c.values c.order inv.spelled

  -- The block has the values of the map.
  pub env_get-render :
      (c : Composed)
      → Inv c
      → (name : Text) → env_get name (render c) ≡ lookup (to_upper name) c.values
  unfolding render
  env_get-render c inv name = ground (
    arith,
    env_get-entries name c.spelling c.values c.order inv.spelled,
    inv.known (to_upper name),
  )
