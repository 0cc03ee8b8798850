-- ===== src/Env/Path.antt =====
-- `mergePath`: the fragments of PATH in one list, with no empty and no repeated entry.
pub mod Fresh
pub mod Laws
pub mod Order
use termcp_relay.Prelude.{ℕ, Bool, true, false, List, [], ◌∷◌, ◌++◌, if◌then◌else◌, Text, is_nil}
use termcp_relay.Strings.{Unicode, to_lower, trim_space, split, join}
use termcp_relay.Dict.{member}

-- The two variables of the loops.
pub record Merge : Type 0 where
  pub out : List Text
  pub seen : List Text

module _ ⦃u : Unicode⦄ where
  -- The body of the inner loop.
  unfoldable pub merge_part : Merge → Text → Merge
  unfolding trim_space to_lower member
  merge_part m raw =
      let part = trim_space raw in
      let key = to_lower part in
      if is_nil part
      then m
      else if member key m.seen
      then m
      else record m { out = m.out ++ (part ∷ []); seen = key ∷ m.seen }

  unfoldable pub merge_parts : Merge → List Text → Merge
  unfolding merge_part
  merge_parts m [] = m
  merge_parts m (part ∷ parts) = merge_parts (merge_part m part) parts

  module _ (separator : ℕ) where
    unfoldable pub merge_fragments : Merge → List Text → Merge
    unfolding merge_parts split
    merge_fragments m [] = m
    merge_fragments m (fragment ∷ fragments) =
        merge_fragments (merge_parts m (split separator fragment)) fragments

    -- The entries that the merged value holds.
    unfoldable pub merged_entries : List Text → List Text
    unfolding merge_fragments
    merged_entries fragments = (merge_fragments (record { out = []; seen = [] }) fragments).out

    unfoldable pub merge_path : List Text → Text
    unfolding merged_entries join
    merge_path fragments = join separator (merged_entries fragments)
