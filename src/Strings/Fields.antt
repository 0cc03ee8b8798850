-- ===== src/Strings/Fields.antt =====
-- `strings.Fields`: the runs between spaces.
use termcp_relay.Prelude.{
  ℕ, ◌≡◌, refl, sym, ◌∙◌, inl, inr, false, List, [], ◌∷◌, ◌++◌, if◌then◌else◌, Text, Bool-cases,
  is_nil,
}
use termcp_relay.Strings.Trim.{is_space, is_blank, is_blank-cons_space}

-- `word` is the run that is being read.
fields_onto : Text → Text → List Text
fields_onto [] [] = []
fields_onto (w ∷ word) [] = (w ∷ word) ∷ []
fields_onto word (c ∷ s) =
    let here = fields_onto [] s in
    let on = fields_onto (word ++ (c ∷ [])) s in
    if is_space c then (if is_nil word then here else word ∷ here) else on

unfoldable pub fields : Text → List Text
unfolding fields_onto is_space
fields s = fields_onto [] s

fields_onto_word : (w : ℕ) (word s : Text) → is_nil (fields_onto (w ∷ word) s) ≡ false
unfolding fields_onto
fields_onto_word w word [] = refl
fields_onto_word w word (c ∷ s) = elim (Bool-cases (is_space c)) [
  | inl space ↦ rw space refl
  | inr other ↦ rw other (fields_onto_word w (word ++ (c ∷ [])) s)
]

fields_onto_blank : (s : Text) → is_blank s ≡ false → is_nil (fields_onto [] s) ≡ false
unfolding fields_onto
fields_onto_blank [] h = unfold is_blank in cc h
fields_onto_blank (c ∷ s) h = elim (Bool-cases (is_space c)) [
  | inl space ↦ rw space (fields_onto_blank s (sym (is_blank-cons_space c s space) ∙ h))
  | inr other ↦ rw other (fields_onto_word c [] s)
]

-- A text that is not blank has a field.
pub fields_nonempty : (s : Text) → is_blank s ≡ false → is_nil (fields s) ≡ false
unfolding fields
fields_nonempty s h = fields_onto_blank s h
