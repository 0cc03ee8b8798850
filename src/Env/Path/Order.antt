-- ===== src/Env/Path/Order.antt =====
-- The order of the entries of a merged PATH.
use mathlib.Core.List.{append-nil}
use termcp_relay.Prelude.{
  ℕ, ◌≡◌, refl, sym, ap, ◌∙◌, inl, inr, true, not, List, [], ◌∷◌, ◌++◌, map, arith, Text, is_nil,
  keep, Bool-cases, text_iff,
}
use termcp_relay.Strings.{Unicode, to_lower, trim_space, split}
use termcp_relay.Dict.{member, member-cons, member-append}
use termcp_relay.Env.Path.{merged_entries}
use termcp_relay.Env.Path.Fresh.{
  fresh, seen_after, parts_of, fresh-append, merged_entries-fresh, member-seen_after, fresh_ext,
}

module _ ⦃u : Unicode⦄ where
  -- A key that is seen already may be seen once more.
  fresh_seen_again :
      (k : Text) (seen ps : List Text) → member k seen ≡ true → fresh (k ∷ seen) ps ≡ fresh seen ps
  fresh_seen_again k seen ps h =
      fresh_ext (k ∷ seen) seen ps (λ j. ground (arith, member-cons j k seen, text_iff j k, h))

  member-seen_after_nil :
      (ps : List Text) (k : Text) → member k (seen_after [] ps) ≡ member k (map to_lower ps)
  unfolding member
  member-seen_after_nil ps k = ground (arith, member-seen_after k [] ps)

  fresh-keep :
      (seen old ps : List Text)
      → fresh (seen ++ old) ps ≡ keep (λ p. not (member (to_lower p) old)) (fresh seen ps)
  unfolding fresh keep
  fresh-keep seen old [] = refl
  fresh-keep seen old (raw ∷ ps) = elim (Bool-cases (is_nil (trim_space raw))) [
    | inl blank ↦ rw blank (fresh-keep seen old ps)
    | inr full ↦
        let key = to_lower (trim_space raw) in
        rw member-append (elim (Bool-cases (member key seen)) [
          | inl before ↦ rw (full, before) (fresh-keep seen old ps)
          | inr new ↦ elim (Bool-cases (member key old)) [
            | inl known ↦
                rw (full, new, known)
                  (sym (fresh_seen_again key (seen ++ old) ps (rw (member-append, new) known))
                    ∙ fresh-keep (key ∷ seen) old ps)
            | inr unknown ↦
                rw (full, new, unknown) (ap (◌∷◌ (trim_space raw)) (fresh-keep (key ∷ seen) old ps))
          ]
        ])
  ]

  -- The merge of a machine value and a user value is the entries of the machine value, and then
  -- those of the user value whose key the machine value lacks; both in their own order.
  pub merged_entries_order :
      (separator : ℕ) (machine user : Text)
      → let first = merged_entries separator (machine ∷ []) in
        merged_entries separator (machine ∷ user ∷ [])
        ≡ first
          ++ keep
              (λ p. not (member (to_lower p) (map to_lower first)))
              (merged_entries separator (user ∷ []))
  merged_entries_order separator machine user =
      let first = fresh [] (split separator machine) in
      rw
        (
          merged_entries-fresh separator (machine ∷ user ∷ []),
          merged_entries-fresh separator (machine ∷ []),
          merged_entries-fresh separator (user ∷ []),
        )
        (unfold parts_of in
          rw (append-nil (split separator machine), append-nil (split separator user))
            (fresh-append [] (split separator machine) (split separator user)
              ∙ ap (◌++◌ first) (
                  fresh_ext _ ([] ++ map to_lower first) _ (member-seen_after_nil first)
                  ∙ fresh-keep [] (map to_lower first) (split separator user))))
