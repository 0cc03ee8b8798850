-- ===== src/Env/Expand.antt =====
-- `expandPercent`: `%NAME%` references in one pass.
pub mod Laws
use termcp_relay.Prelude.{
  ℕ, suc, zero, true, false, List, [], ◌∷◌, ◌++◌, Option, none, some, if◌then◌else◌, ◌==◌, Text,
  length, any,
}
use termcp_relay.Strings.{Unicode, cut}
use termcp_relay.Env.Lookup.{EnvLookup, get}

abbrev pub percent : ℕ
percent = b'%'

module _ ⦃u : Unicode⦄ (table : EnvLookup) where
  -- What is written for the reference `%name%`: the two percent signs of an empty name, the value
  -- of a name that is known, and else the reference as it stands.
  unfoldable pub reference : Text → Text
  unfolding get
  reference [] = percent ∷ percent ∷ []
  reference (c ∷ name) = elim (get table (c ∷ name)) [
    | some value ↦ value
    | none ↦ percent ∷ c ∷ (name ++ (percent ∷ []))
  ]

  -- The loop from `i` on, as the text that it still writes; the argument is `s[i:]`. `none` means
  -- that the rounds ran out.
  unfoldable pub expand_loop : ℕ → Text → Option Text
  unfolding cut reference
  expand_loop rounds [] = some []
  expand_loop zero (c ∷ s) = none
  expand_loop (suc rounds) (c ∷ s) = elim (c == percent) [
    | false ↦ elim (expand_loop rounds s) [ none ↦ none | some out ↦ some (c ∷ out) ]
    | true ↦ elim (cut percent s) [
      | none ↦ some (c ∷ s)
      | some (name, after) ↦ elim (expand_loop rounds after) [
        | none ↦ none
        | some out ↦ some (reference name ++ out)
      ]
    ]
  ]

  -- One round for each character is enough, so the default is never taken.
  unfoldable pub expand_percent : Text → Text
  unfolding expand_loop
  expand_percent s =
      if any (λ c. c == percent) s
      then elim (expand_loop (length s) s) [ none ↦ [] | some out ↦ out ]
      else s
