-- ===== src/Env/Path/Laws.antt =====
-- What a merged PATH is.
use mathlib.Core.List.{append-nil}
use termcp_relay.Prelude.{
  ℕ, ◌≡◌, ◌≢◌, refl, sym, ap, ◌∙◌, ◌⊎◌, inl, inr, true, false, List, [], ◌∷◌, ◌++◌, map, arith,
  Text, is_nil, All, All-append, All-map, subst, ◌=t=◌, text_refl,
}
use termcp_relay.Strings.{
  Unicode, to_lower, trim_space, IsTrimmed, trim_space_idem, trim_space-All, split, join, Lacks,
  split-Lacks, split-join,
}
use termcp_relay.Dict.{member, member-cons, member-append}
use termcp_relay.Env.Path.{merged_entries, merge_path}
use termcp_relay.Env.Path.Fresh.{fresh, fresh_step, parts_of, merged_entries-fresh}

module _ ⦃u : Unicode⦄ where
  -- An entry fit for a PATH.
  pub record IsEntry (separator : ℕ) (p : Text) : Type 0 where
    pub trimmed : IsTrimmed p
    pub full : is_nil p ≡ false
    pub single : Lacks separator p

  -- No two entries have the same key.
  abbrev pub Distinct : List Text → Type 0
  Distinct [] = Unit
  Distinct (p ∷ ps) = All (λ q. to_lower q =t= to_lower p ≡ false) ps × Distinct ps

  abbrev Unseen : List Text → List Text → Type 0
  Unseen seen = All (λ q. member (to_lower q) seen ≡ false)

  Unseen-cons :
      (p : Text) (seen ps : List Text)
      → Unseen (p ∷ seen) ps
      → All (λ q. to_lower q =t= p ≡ false) ps × Unseen seen ps
  unfolding member
  Unseen-cons p seen [] h = (tt, tt)
  Unseen-cons p seen (q ∷ ps) (h, t) =
      let ih = Unseen-cons p seen ps t in ((ground arith, ih.0), (ground arith, ih.1))

  Unseen-both :
      (p : Text) (seen ps : List Text)
      → All (λ q. to_lower q =t= p ≡ false) ps
      → Unseen seen ps
      → Unseen (p ∷ seen) ps
  unfolding member
  Unseen-both p seen [] h k = tt
  Unseen-both p seen (q ∷ ps) h k = (ground arith, Unseen-both p seen ps h.1 k.1)

  fresh-Unseen : (seen ps : List Text) → Unseen seen (fresh seen ps)
  unfolding fresh
  fresh-Unseen seen [] = tt
  fresh-Unseen seen (raw ∷ ps) = elim (fresh_step seen raw ps) [
    | inl (why, e) ↦ rw e (fresh-Unseen seen ps)
    | inr (full, new, e) ↦
        let key = to_lower (trim_space raw) in
        rw e (new, (Unseen-cons key seen _ (fresh-Unseen (key ∷ seen) ps)).1)
  ]

  pub fresh-Distinct : (seen ps : List Text) → Distinct (fresh seen ps)
  unfolding fresh
  fresh-Distinct seen [] = tt
  fresh-Distinct seen (raw ∷ ps) = elim (fresh_step seen raw ps) [
    | inl (why, e) ↦ rw e (fresh-Distinct seen ps)
    | inr (full, new, e) ↦
        let key = to_lower (trim_space raw) in
        rw e (
          (Unseen-cons key seen _ (fresh-Unseen (key ∷ seen) ps)).0,
          fresh-Distinct (key ∷ seen) ps,
        )
  ]

  pub fresh-IsEntry :
      (separator : ℕ) (seen ps : List Text)
      → All (Lacks separator) ps
      → All (IsEntry separator) (fresh seen ps)
  unfolding fresh
  fresh-IsEntry separator seen [] h = tt
  fresh-IsEntry separator seen (raw ∷ ps) h = elim (fresh_step seen raw ps) [
    | inl (why, e) ↦ rw e (fresh-IsEntry separator seen ps h.1)
    | inr (full, new, e) ↦ rw e (
      record {
        trimmed = trim_space_idem raw;
        full = full;
        single = trim_space-All (λ c. c ≢ separator) raw h.0;
      },
      fresh-IsEntry separator (to_lower (trim_space raw) ∷ seen) ps h.1,
    )
  ]

  -- A list that is clean already is kept whole.
  pub fresh_self :
      (separator : ℕ) (seen ps : List Text)
      → All (IsEntry separator) ps
      → Distinct ps
      → Unseen seen ps
      → fresh seen ps ≡ ps
  unfolding fresh
  fresh_self separator seen [] e d n = refl
  fresh_self separator seen (p ∷ ps) e d n =
      rw (e.0.trimmed, e.0.full, n.0)
        (ap (◌∷◌ p) (
          fresh_self separator (to_lower p ∷ seen) ps e.1 d.1
            (Unseen-both (to_lower p) seen ps d.0 n.1)))

  -- Each part that is not blank has its key in the result, or it was seen before.
  abbrev Covered : List Text → List Text → Text → Type 0
  Covered seen out raw =
      (is_nil (trim_space raw) ≡ true)
      ⊎ (member (to_lower (trim_space raw)) (map to_lower out ++ seen) ≡ true)

  Covered-cons :
      (seen out : List Text) (p : Text) (raws : List Text)
      → All (Covered (to_lower p ∷ seen) out) raws
      → All (Covered seen (p ∷ out)) raws
  Covered-cons seen out p [] h = tt
  Covered-cons seen out p (raw ∷ raws) (h, t) = (
    elim h [
      | inl blank ↦ inl blank
      | inr m ↦
          let k = to_lower (trim_space raw) in
          inr (
            ground (
              arith,
              m,
              member-append k (map to_lower out) (to_lower p ∷ seen),
              member-append k (map to_lower out) seen,
              member-cons k (to_lower p) seen,
              member-cons k (to_lower p) (map to_lower out ++ seen),
            ))
    ],
    Covered-cons seen out p raws t,
  )

  Covered-of_passed :
      (seen out : List Text) (raw : Text)
      → (is_nil (trim_space raw) ≡ true) ⊎ (member (to_lower (trim_space raw)) seen ≡ true)
      → Covered seen out raw
  Covered-of_passed seen out raw (inl blank) = inl blank
  Covered-of_passed seen out raw (inr old) =
      inr (ground (arith, member-append (to_lower (trim_space raw)) (map to_lower out) seen, old))

  pub fresh-Covered : (seen raws : List Text) → All (Covered seen (fresh seen raws)) raws
  fresh-Covered seen [] = tt
  fresh-Covered seen (raw ∷ raws) = elim (fresh_step seen raw raws) [
    | inl (why, e) ↦
        subst (λ out. All (Covered seen out) (raw ∷ raws)) (sym e)
          (Covered-of_passed seen (fresh seen raws) raw why, fresh-Covered seen raws)
    | inr (full, new, e) ↦
        let key = to_lower (trim_space raw) in
        let out = fresh (key ∷ seen) raws in
        subst (λ out. All (Covered seen out) (raw ∷ raws)) (sym e)
          (
            inr (rw (member-cons, text_refl) refl),
            Covered-cons seen out (trim_space raw) raws (fresh-Covered (key ∷ seen) raws),
          )
  ]

  IsEntry-Lacks :
      (separator : ℕ) (ps : List Text) → All (IsEntry separator) ps → All (Lacks separator) ps
  IsEntry-Lacks separator [] h = tt
  IsEntry-Lacks separator (p ∷ ps) h = (h.0.single, IsEntry-Lacks separator ps h.1)

  parts_of-Lacks :
      (separator : ℕ) (fragments : List Text) → All (Lacks separator) (parts_of separator fragments)
  unfolding parts_of
  parts_of-Lacks separator [] = tt
  parts_of-Lacks separator (f ∷ fs) =
      All-append (Lacks separator) (split separator f) (parts_of separator fs)
        (split-Lacks separator f) (parts_of-Lacks separator fs)

  -- The part is blank, or its key is among those of the entries.
  abbrev pub IsKept : List Text → Text → Type 0
  IsKept out raw =
      (is_nil (trim_space raw) ≡ true)
      ⊎ (member (to_lower (trim_space raw)) (map to_lower out) ≡ true)

  Covered-IsKept : (out : List Text) (raw : Text) → Covered [] out raw → IsKept out raw
  Covered-IsKept out raw (inl blank) = inl blank
  Covered-IsKept out raw (inr m) = inr (rw (append-nil (map to_lower out)) at m)

  -- Every entry of the merged list is trimmed, not empty and free of the separator; no two have the
  -- same key; and every part of a fragment that is not blank has its key among the entries.
  pub merged_entries_clean :
      (separator : ℕ) (fragments : List Text)
      → let out = merged_entries separator fragments in
        All (IsEntry separator) out × Distinct out × All (IsKept out) (parts_of separator fragments)
  merged_entries_clean separator fragments =
      let parts = parts_of separator fragments in
      let out = fresh [] parts in
      subst (λ out. All (IsEntry separator) out × Distinct out × All (IsKept out) parts)
        (sym (merged_entries-fresh separator fragments))
        (
          fresh-IsEntry separator [] parts (parts_of-Lacks separator fragments),
          fresh-Distinct [] parts,
          All-map (Covered [] out) (IsKept out) (Covered-IsKept out) parts (fresh-Covered [] parts),
        )

  Unseen-nil : (ps : List Text) → Unseen [] ps
  unfolding member
  Unseen-nil [] = tt
  Unseen-nil (p ∷ ps) = (refl, Unseen-nil ps)

  merged_entries_join :
      (separator : ℕ) (ps : List Text)
      → All (IsEntry separator) ps
      → Distinct ps
      → merged_entries separator (join separator ps ∷ []) ≡ ps
  merged_entries_join separator [] e d =
      merged_entries-fresh separator _ ∙ unfold fresh parts_of split join trim_space in refl
  merged_entries_join separator (p ∷ ps) e d =
      merged_entries-fresh separator _
      ∙ unfold parts_of in
        rw (split-join separator p ps (IsEntry-Lacks separator (p ∷ ps) e), append-nil)
          (fresh_self separator [] (p ∷ ps) e d (Unseen-nil (p ∷ ps)))

  -- Merging a merged value again changes nothing.
  pub merge_path_idem :
      (separator : ℕ) (fragments : List Text)
      → merge_path separator (merge_path separator fragments ∷ []) ≡ merge_path separator fragments
  unfolding merge_path
  merge_path_idem separator fragments =
      let clean = merged_entries_clean separator fragments in
      ap (join separator)
        (merged_entries_join separator (merged_entries separator fragments) clean.0 clean.1)
