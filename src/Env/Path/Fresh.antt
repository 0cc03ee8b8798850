-- ===== src/Env/Path/Fresh.antt =====
-- The loops of `mergePath` without their accumulator: what a list of parts adds to the entries.
use mathlib.Core.List.{append_assoc, append-nil}
use termcp_relay.Prelude.{
  ℕ, ◌≡◌, refl, sym, ap, ◌∙◌, ◌⊎◌, inl, inr, true, false, ◌||◌, List, [], ◌∷◌, ◌++◌, map, arith,
  if◌then◌else◌, Text, is_nil, Bool-cases,
}
use termcp_relay.Strings.{Unicode, to_lower, trim_space, split}
use termcp_relay.Dict.{member}
use termcp_relay.Env.Path.{Merge, merge_part, merge_parts, merge_fragments, merged_entries}

module _ ⦃u : Unicode⦄ where
  -- The parts that are neither blank nor seen, trimmed.
  unfoldable pub fresh : List Text → List Text → List Text
  fresh seen [] = []
  fresh seen (raw ∷ parts) =
      let part = trim_space raw in
      let skip = fresh seen parts in
      let take = part ∷ fresh (to_lower part ∷ seen) parts in
      if is_nil part then skip else if member (to_lower part) seen then skip else take

  unfoldable pub seen_after : List Text → List Text → List Text
  seen_after seen [] = seen
  seen_after seen (p ∷ ps) = seen_after (to_lower p ∷ seen) ps

  pub merge_parts-fresh :
      (m : Merge) (parts : List Text)
      → merge_parts m parts ≡ record m {
        out = m.out ++ fresh m.seen parts;
        seen = seen_after m.seen (fresh m.seen parts);
      }
  unfolding merge_parts fresh seen_after
  merge_parts-fresh m [] = rw append-nil
  merge_parts-fresh m (raw ∷ parts) = elim (Bool-cases (is_nil (trim_space raw))) [
    | inl blank ↦ rw (blank, merge_parts-fresh m parts)
    | inr full ↦ elim (Bool-cases (member (to_lower (trim_space raw)) m.seen)) [
      | inl old ↦ rw (full, old, merge_parts-fresh m parts)
      | inr new ↦
          rw (full, new)
            (merge_parts-fresh
                (record {
                  out = m.out ++ (trim_space raw ∷ []);
                  seen = to_lower (trim_space raw) ∷ m.seen;
                })
                parts
              ∙ rw append_assoc)
    ]
  ]

  -- One part is passed over, or it is added and its key is seen from there on.
  pub fresh_step :
      (seen : List Text) (raw : Text) (parts : List Text)
      → (((is_nil (trim_space raw) ≡ true) ⊎ (member (to_lower (trim_space raw)) seen ≡ true))
          × (fresh seen (raw ∷ parts) ≡ fresh seen parts))
        ⊎ ((is_nil (trim_space raw) ≡ false)
            × (member (to_lower (trim_space raw)) seen ≡ false)
            × (fresh seen (raw ∷ parts)
                ≡ trim_space raw ∷ fresh (to_lower (trim_space raw) ∷ seen) parts))
  unfolding fresh
  fresh_step seen raw parts = elim (Bool-cases (is_nil (trim_space raw))) [
    | inl blank ↦ inl (inl blank, rw blank)
    | inr full ↦ elim (Bool-cases (member (to_lower (trim_space raw)) seen)) [
      | inl old ↦ inl (inr old, rw (full, old))
      | inr new ↦ inr (full, new, rw (full, new))
    ]
  ]

  pub fresh-append :
      (seen xs ys : List Text)
      → fresh seen (xs ++ ys) ≡ fresh seen xs ++ fresh (seen_after seen (fresh seen xs)) ys
  unfolding fresh seen_after
  fresh-append seen [] ys = refl
  fresh-append seen (raw ∷ xs) ys = elim (Bool-cases (is_nil (trim_space raw))) [
    | inl blank ↦ rw blank (fresh-append seen xs ys)
    | inr full ↦ elim (Bool-cases (member (to_lower (trim_space raw)) seen)) [
      | inl old ↦ rw (full, old) (fresh-append seen xs ys)
      | inr new ↦
          rw (full, new)
            (ap (◌∷◌ (trim_space raw)) (fresh-append (to_lower (trim_space raw) ∷ seen) xs ys))
    ]
  ]

  merge_parts-append :
      (m : Merge) (xs ys : List Text) → merge_parts m (xs ++ ys) ≡ merge_parts (merge_parts m xs) ys
  unfolding merge_parts
  merge_parts-append m [] ys = refl
  merge_parts-append m (x ∷ xs) ys = merge_parts-append (merge_part m x) xs ys

  -- All the parts of the fragments, in order.
  unfoldable pub parts_of : ℕ → List Text → List Text
  parts_of separator [] = []
  parts_of separator (fragment ∷ fragments) =
      split separator fragment ++ parts_of separator fragments

  merge_fragments-parts_of :
      (separator : ℕ) (m : Merge) (fragments : List Text)
      → merge_fragments separator m fragments ≡ merge_parts m (parts_of separator fragments)
  unfolding merge_fragments parts_of merge_parts
  merge_fragments-parts_of separator m [] = refl
  merge_fragments-parts_of separator m (f ∷ fs) =
      merge_fragments-parts_of separator (merge_parts m (split separator f)) fs
      ∙ sym (merge_parts-append m (split separator f) (parts_of separator fs))

  -- The loops add to an empty list what is fresh in all the parts.
  pub merged_entries-fresh :
      (separator : ℕ) (fragments : List Text)
      → merged_entries separator fragments ≡ fresh [] (parts_of separator fragments)
  unfolding merged_entries
  merged_entries-fresh separator fragments =
      let start : Merge = record { out = []; seen = [] } in
      ap (λ (m : Merge). m.out)
        (merge_fragments-parts_of separator start fragments
          ∙ merge_parts-fresh start (parts_of separator fragments))

  pub member-seen_after :
      (k : Text) (seen ps : List Text)
      → member k (seen_after seen ps) ≡ (member k (map to_lower ps) || member k seen)
  unfolding seen_after member
  member-seen_after k seen [] = refl
  member-seen_after k seen (p ∷ ps) = ground (arith, member-seen_after k (to_lower p ∷ seen) ps)

  -- Only which keys are seen matters.
  pub fresh_ext :
      (s t ps : List Text) → ((k : Text) → member k s ≡ member k t) → fresh s ps ≡ fresh t ps
  unfolding fresh member
  fresh_ext s t [] h = refl
  fresh_ext s t (raw ∷ ps) h = ground (
    arith,
    h (to_lower (trim_space raw)),
    fresh_ext s t ps h,
    fresh_ext (to_lower (trim_space raw) ∷ s) (to_lower (trim_space raw) ∷ t) ps
        (λ (k : Text). rw (h k) refl),
  )
