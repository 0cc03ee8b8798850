-- ===== src/Env/Layer/Laws.antt =====
-- The entries of a layer, and the table after it.
use mathlib.Core.Option.{or_else}
use termcp_relay.Prelude.{
  ◌≡◌, refl, ap, ◌∙◌, false, List, [], ◌∷◌, Option, none, some, arith, if◌then◌else◌, Text, ◌=t=◌,
  Option-cases, inl, inr,
}
use termcp_relay.Strings.{Unicode, to_upper}
use termcp_relay.Env.Lookup.{EnvLookup, get, set, get-set}
use termcp_relay.Env.Layer.{EnvValue, EnvEntry, seed, value_of, expand_values, expand_layer}

-- There is one entry for each value, under its name, in order; a value that is not expandable is
-- taken as it is.
abbrev pub AreEntries : List EnvValue → List EnvEntry → Type 0
AreEntries [] [] = Unit
AreEntries (v ∷ values) (e ∷ entries) =
    (e.name ≡ v.name) × (v.expandable ≡ false → e.value ≡ v.value) × AreEntries values entries
AreEntries _ _ = ⊥

module _ ⦃u : Unicode⦄ where
  -- The value of the last entry for a variable.
  unfoldable pub last_value : Text → List EnvEntry → Option Text
  last_value name [] = none
  last_value name (e ∷ entries) =
      or_else (last_value name entries)
        (if to_upper e.name =t= to_upper name then some e.value else none)

  expand_values-AreEntries :
      (values : List EnvValue) (table : EnvLookup)
      → AreEntries values (expand_values values table).0
  unfolding expand_values value_of
  expand_values-AreEntries [] table = tt
  expand_values-AreEntries (v ∷ values) table =
      (refl, (λ fixed. rw fixed), expand_values-AreEntries values _)

  get-expand_values :
      (values : List EnvValue) (table : EnvLookup) (name : Text)
      → let (entries, last) = expand_values values table in
        get last name ≡ or_else (last_value name entries) (get table name)
  unfolding expand_values last_value or_else
  get-expand_values [] table name = refl
  get-expand_values (v ∷ values) table name =
      let value = value_of v table in
      ground (
        arith,
        get-expand_values values (set table v.name value) name,
        get-set table v.name name value,
      )

  get-seed_of_none :
      (values : List EnvValue) (entries : List EnvEntry) (table : EnvLookup) (name : Text)
      → AreEntries values entries
      → last_value name entries ≡ none
      → get (seed values table) name ≡ get table name
  unfolding seed last_value or_else
  get-seed_of_none [] entries table name a h = refl
  get-seed_of_none (v ∷ values) [] table name a h = absurd a
  get-seed_of_none (v ∷ values) (e ∷ entries) table name a h =
      let next = if v.expandable then table else set table v.name v.value in
      ground (
        arith,
        a.0,
        get-seed_of_none values entries next name a.2,
        get-set table v.name name v.value,
      )

  -- There is one entry for each value, under its name, in order, and a value that is not expandable
  -- is taken as it is. After the layer, the table has for each name the last of its entries, and
  -- for a name with no entry what it had before: the early setting of the values that are not
  -- expandable leaves no other trace.
  pub expand_layer_lem :
      (values : List EnvValue) (table : EnvLookup)
      → let (entries, last) = expand_layer values table in
        AreEntries values entries
        × ((name : Text) → get last name ≡ or_else (last_value name entries) (get table name))
  unfolding expand_layer
  expand_layer_lem values table =
      let start = seed values table in
      let entries = (expand_values values start).0 in
      let fits = expand_values-AreEntries values start in
      (
        fits,
        λ name.
            get-expand_values values start name ∙ (elim (Option-cases (last_value name entries)) [
              | inl gone ↦
                  ap (or_else (last_value name entries))
                    (get-seed_of_none values entries table name fits gone)
              | inr (value, found) ↦ rw found (unfold or_else in refl)
            ]),
      )
